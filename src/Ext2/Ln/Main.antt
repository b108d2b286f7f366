-- ===== src/Ext2/Ln/Main.antt =====
-- ext2_ln.c: main up to the making of the link. `buf`, which is as long as the first path without
-- its NUL, is taken to have room for the paths that are copied to it.
use kernel_programming_proje.Base.{
  ℕ, ◌+◌, ◌-◌, ◌*◌, ◌%◌, ◌^◌, Bool, true, false, not, ◌&&◌, ◌||◌, List, [], ◌∷◌, Option, none, some,
  length, ltb, leb, ◌==◌, if◌then◌else◌,
}
use kernel_programming_proje.Ext2.Bitmaps.{to_index, to_number}
use kernel_programming_proje.Ext2.Disk.{
  block_size, root_inode_number, ft_dir, DirEntry, Place, Disk, entry_at,
}
use kernel_programming_proje.Ext2.Names.{byte_at, take, last_slash_in_path, find_file_name_by_path}
use kernel_programming_proje.Ext2.Lookup.{find_dir_entry}
use kernel_programming_proje.Ext2.Tools.{
  Exit, failure, einval, enoent, eisdir, eexist, enametoolong, exit_failure,
}
use kernel_programming_proje.Ext2.Ln.{make_hard_link, make_symbolic_link}

-- Whether the link is symbolic, file_path and dest_path; `none` is a usage error.
abbrev pub link_options : List (List ℕ) → Option (Bool × List ℕ × List ℕ)
link_options (program ∷ disk ∷ file_path ∷ dest_path ∷ []) = some (false, file_path, dest_path)
link_options (program ∷ disk ∷ flag ∷ file_path ∷ dest_path ∷ []) =
    if (length flag == 2) && ((byte_at flag 0 == b'-') && (byte_at flag 1 == b's'))
    then some (true, file_path, dest_path)
    else none
link_options argv = none

-- sizeof(struct ext2_inode).
abbrev pub inode_size : ℕ
inode_size = 128

-- The number of inodes that 128 blocks have room for.
abbrev image_inodes : ℕ
image_inodes = 1024

-- dir_inode as a number. With -s the index of a directory that is not the root is multiplied by the
-- size of an inode, which leaves the image, since it has room for no more than 1024 inodes, for the
-- directories that ext2_mkdir makes; 0 stands for no inode.
abbrev pub directory_number : Bool → Disk → Option Place → ℕ
directory_number symbolic d none = root_inode_number
directory_number false d (some dir) = (entry_at d dir).inode
directory_number true d (some dir) =
    if ((entry_at d dir).inode == 0)
      || leb image_inodes (to_index (entry_at d dir).inode * inode_size)
    then 0
    else to_number (to_index (entry_at d dir).inode * inode_size)

-- The destination is not the root and no directory.
abbrev pub is_other : Disk → Option Place → Bool
is_other d none = false
is_other d (some dir) = not ((entry_at d dir).file_type == ft_dir)

-- main after its checks; `dir` is none for the root directory.
abbrev pub make_link :
    ℕ → Bool → Disk → Option Place → List ℕ → DirEntry → List ℕ → Option (Exit × Option Disk)
make_link now symbolic d dir file_path file filename =
    if symbolic
    then make_symbolic_link now d (directory_number true d dir) file_path file filename
    else make_hard_link d (directory_number false d dir) file_path file filename

-- main from the check for a directory on.
unfoldable pub link_in :
    ℕ → Bool → Disk → Option Place → List ℕ → DirEntry → List ℕ → Option (Exit × Option Disk)
unfolding make_hard_link make_symbolic_link
link_in now symbolic d dir file_path file dest_path =
    elim ((file.file_type == ft_dir) || is_other d dir) [
      | true ↦ some (failure eisdir, some d)
      | false ↦ elim (find_dir_entry d dest_path) [
        | none ↦ none
        | some (some p) ↦ some (failure eexist, some d)
        | some none ↦ elim (find_file_name_by_path dest_path) [
          | none ↦ none
          | some filename ↦ elim (ltb (block_size - 8) (length filename)) [
            | true ↦ some (failure enametoolong, some d)
            | false ↦ make_link now symbolic d dir file_path file filename
          ]
        ]
      ]
    ]

-- dir_path, with the slash at its end.
abbrev pub directory_path : List ℕ → Option (List ℕ)
directory_path dest_path = elim (last_slash_in_path dest_path) [
  | none ↦ none
  | some i ↦ some (take ((i + 1) % 2 ^ 32) dest_path)
]

-- main once the image is there.
unfoldable pub link_paths : ℕ → Bool → Disk → List ℕ → List ℕ → Option (Exit × Option Disk)
unfolding link_in
link_paths now symbolic d file_path dest_path = elim (find_dir_entry d file_path) [
  | none ↦ none
  | some none ↦ some (failure enoent, some d)
  | some (some file) ↦ elim (directory_path dest_path) [
    | none ↦ none
    | some dir_path ↦ elim (length dir_path == 1) [
      | true ↦ link_in now symbolic d none file_path (entry_at d file) dest_path
      | false ↦ elim (find_dir_entry d dir_path) [
        | none ↦ none
        | some none ↦ some (failure enoent, some d)
        | some (some dir) ↦ link_in now symbolic d (some dir) file_path (entry_at d file) dest_path
      ]
    ]
  ]
]

unfoldable pub ext2_ln : ℕ → List (List ℕ) → Option Disk → Option (Exit × Option Disk)
unfolding link_paths
ext2_ln now argv image = elim (link_options argv) [
  | none ↦ some (failure einval, image)
  | some (symbolic, file_path, dest_path) ↦
      elim ((byte_at file_path 0 == b'/') && (byte_at dest_path 0 == b'/')) [
        | false ↦ some (failure einval, image)
        | true ↦ elim (length dest_path == 1) [
          | true ↦ some (failure eisdir, image)
          | false ↦ elim image [
            | none ↦ some (failure exit_failure, none)
            | some d ↦ link_paths now symbolic d file_path dest_path
          ]
        ]
      ]
]
