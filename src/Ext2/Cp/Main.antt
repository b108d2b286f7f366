-- ===== src/Ext2/Cp/Main.antt =====
-- ext2_cp.c: main. What lstat, fopen and fread give for the path of the native file is an argument,
-- as are the bytes before the first NUL in an array that has no initial value. A buffer as long as
-- the destination without its NUL is taken to have room for it.
use kernel_programming_proje.Base.{
  ℕ, ◌-◌, Bool, true, false, List, [], ◌∷◌, ◌++◌, Option, none, some, length, ltb, ◌==◌,
  if◌then◌else◌, ◌⊎◌, inl, inr,
}
use kernel_programming_proje.Ext2.Bitmaps.{find_free_inode, find_free_block, to_index}
use kernel_programming_proje.Ext2.Disk.{
  block_size, total_block_count, root_inode_number, ft_reg_file, ft_dir, Place, Disk, entry_at,
  get_inode, set_inode, set_entry, update_bits,
}
use kernel_programming_proje.Ext2.Names.{byte_at, find_file_name_by_path}
use kernel_programming_proje.Ext2.Lookup.{find_dir_entry, find_parent_inode}
use kernel_programming_proje.Ext2.Blocks.{init_inode, free_all_blocks_of_inode, path_max}
use kernel_programming_proje.Ext2.Tools.{
  Exit, success, failure, einval, enoent, enospc, enametoolong,
}
use kernel_programming_proje.Ext2.Mkdir.{add_block, whole_entry, add_to_blocks, unused_index}
use kernel_programming_proje.Ext2.Cp.{have_enough_blocks, copy_file}

-- EXT2_S_IFREG.
abbrev pub s_ifreg : ℕ
s_ifreg = 0x8000

-- A native file: whether it is regular, its size, and its bytes if it can be opened.
pub record NativeFile : Type 0 where
  pub is_regular : Bool
  pub st_size : ℕ
  pub content : Option (List ℕ)

-- Where the copy goes: to the inode of an entry, or to a new entry of a directory.
pub data Destination : Type 0 where
  overwrite : ℕ → Destination
  create : ℕ → List ℕ → Destination

-- The destination is a directory, whose number is `dir` and whose path is copied to `path`.
abbrev pub in_directory : Disk → ℕ → List ℕ → List ℕ → Option (Exit ⊎ Destination)
in_directory d dir path native_file_name = elim (ltb (block_size - 8) (length native_file_name)) [
  | true ↦ some (inl (failure enametoolong))
  | false ↦ elim (ltb (length (path ++ b'/' ∷ native_file_name)) path_max) [
    | false ↦ none
    | true ↦ elim (find_dir_entry d (path ++ b'/' ∷ native_file_name)) [
      | none ↦ none
      | some none ↦ some (inr (create dir native_file_name))
      | some (some p) ↦ some (inr (overwrite (entry_at d p).inode))
    ]
  ]
]

-- main up to the search for an inode. `old` is what the array path holds before strcat.
unfoldable pub find_destination : List ℕ → Disk → List ℕ → List ℕ → Option (Exit ⊎ Destination)
find_destination old d native_path dest_path = elim (length dest_path == 1) [
  | true ↦ elim (find_file_name_by_path native_path) [
    | none ↦ none
    | some name ↦ in_directory d root_inode_number dest_path name
  ]
  | false ↦ elim (find_dir_entry d dest_path) [
    | none ↦ none
    | some none ↦ some (inl (failure enoent))
    | some (some p) ↦ elim ((entry_at d p).file_type == ft_dir) [
      | true ↦ elim (find_file_name_by_path native_path) [
        | none ↦ none
        | some name ↦ in_directory d (entry_at d p).inode (old ++ dest_path) name
      ]
      | false ↦ elim (find_parent_inode d dest_path) [
        | none ↦ none
        | some parent ↦ some (inr (overwrite (entry_at d p).inode))
      ]
    ]
  ]
]

-- init_inode and the copy of the data.
abbrev pub fill_inode : ℕ → ℕ → NativeFile → List ℕ → Disk → Disk
fill_inode now number file content d =
    copy_file number content
      (set_inode number (init_inode now s_ifreg file.st_size (d.inodes (to_index number))) d)

-- The new entry in a block of its own; without a place for the block it is lost.
abbrev pub entry_in_new_block : Disk → ℕ → ℕ → List ℕ → Option (Exit × Option Disk)
entry_in_new_block d dir number name =
    let block = find_free_block d.image in
    if block == 0
    then elim (get_inode d number) [
      | none ↦ none
      | some inode ↦
          some (failure enospc, some (update_bits b'i' number 0 (free_all_blocks_of_inode inode d)))
    ]
    else let place : Place = record { block = block; offset = 0 } in
      let marked = update_bits b'b' block 1 d in
      let with_entry =
        set_entry place (whole_entry number name ft_reg_file (entry_at marked place)) marked in
      elim (get_inode with_entry dir) [
        | none ↦ none
        | some dir_inode ↦ elim (unused_index total_block_count 0 dir_inode) [
          | none ↦ some (success, some with_entry)
          | some index ↦
              some (success, some (set_inode dir (add_block index block dir_inode) with_entry))
        ]
      ]

-- The end of main: the entry of a new file.
unfoldable pub add_entry : Disk → ℕ → ℕ → List ℕ → Option (Exit × Option Disk)
unfolding add_to_blocks
add_entry d dir number name =
    elim (add_to_blocks total_block_count 0 d dir number name ft_reg_file) [
      | none ↦ none
      | some (true, d') ↦ some (success, some d')
      | some (false, d') ↦ entry_in_new_block d' dir number name
    ]

-- The copy to an inode that has its blocks still, or to a new one.
unfoldable pub copy_to : ℕ → NativeFile → List ℕ → Destination → Disk → Option (Exit × Option Disk)
unfolding add_entry
copy_to now file content (overwrite number) d = elim (get_inode d number) [
  | none ↦ none
  | some inode ↦
      some (success, some (fill_inode now number file content (free_all_blocks_of_inode inode d)))
]
copy_to now file content (create dir name) d =
    let number = find_free_inode d.image in
    if number == 0
    then some (failure enospc, some d)
    else add_entry (fill_inode now number file content (update_bits b'i' number 1 d)) dir number
        name

-- main once the image and the native file are there.
unfoldable pub copy_paths :
    ℕ → List ℕ → Disk → NativeFile → List ℕ → List ℕ → Option (Exit × Option Disk)
unfolding copy_to
copy_paths now old d file native_path dest_path = elim (have_enough_blocks d file.st_size) [
  | false ↦ some (failure enospc, some d)
  | true ↦ elim file.content [
    | none ↦ some (failure enoent, some d)
    | some content ↦ elim (byte_at dest_path 0 == b'/') [
      | false ↦ some (failure einval, some d)
      | true ↦ elim (find_destination old d native_path dest_path) [
        | none ↦ none
        | some (inl e) ↦ some (e, some d)
        | some (inr to) ↦ copy_to now file content to d
      ]
    ]
  ]
]

unfoldable pub ext2_cp :
    ℕ
    → List ℕ
    → (List ℕ → Option NativeFile)
    → List (List ℕ)
    → Option Disk
    → Option (Exit × Option Disk)
unfolding copy_paths find_destination
ext2_cp now old native (program ∷ disk ∷ native_path ∷ dest_path ∷ []) image = elim image [
  | none ↦ some (failure einval, none)
  | some d ↦ elim (native native_path) [
    | none ↦ some (failure einval, some d)
    | some file ↦ elim file.is_regular [
      | false ↦ some (failure einval, some d)
      | true ↦ copy_paths now old d file native_path dest_path
    ]
  ]
]
ext2_cp now old native argv image = some (failure einval, image)
