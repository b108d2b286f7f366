-- ===== src/Ext2/Ls.antt =====
-- ext2_ls.c: the names of the files of a directory, or of a file. The result is the exit status
-- with the lines that are printed; `none` where the program leaves the image or never ends.
pub mod Laws
use kernel_programming_proje.Base.{
  ℕ, zero, suc, ◌+◌, Bool, true, false, not, ◌&&◌, List, [], ◌∷◌, ◌++◌, Option, none, some, length,
  ltb, ◌==◌, if◌then◌else◌,
}
use kernel_programming_proje.Ext2.Disk.{
  block_size, total_block_count, ft_dir, rounds, Inode, DirEntry, Disk, entry_at, get_inode,
  get_root_inode,
}
use kernel_programming_proje.Ext2.Names.{print_name, check_if_external_entry, byte_at}
use kernel_programming_proje.Ext2.Lookup.{find_dir_entry}
use kernel_programming_proje.Ext2.Tools.{Exit, success, failure, einval, enoent, options}

-- With the flag every entry in use is printed, without it not "." and "..".
abbrev pub shown : Bool → DirEntry → Bool
shown flag e = not (e.inode == 0) && (if flag then true else check_if_external_entry e)

unfoldable pub list_block : ℕ → Bool → Disk → ℕ → ℕ → Option (List (List ℕ))
list_block zero flag d block position = none
list_block (suc n) flag d block position = elim (ltb position block_size) [
  | false ↦ some []
  | true ↦ elim (list_block n flag d block (position + (d.entries block position).rec_len)) [
    | none ↦ none
    | some lines ↦ some (
        if shown flag (d.entries block position)
        then print_name (d.entries block position) ∷ lines
        else lines)
  ]
]

-- The loop over the `n` blocks of the directory from `i` on.
unfoldable pub list_blocks : ℕ → ℕ → Bool → Disk → Inode → Option (List (List ℕ))
unfolding list_block
list_blocks zero i flag d inode = some []
list_blocks (suc n) i flag d inode = elim (inode.i_block i == 0) [
  | true ↦ list_blocks n (i + 1) flag d inode
  | false ↦ elim (list_block rounds flag d (inode.i_block i) 0) [
    | none ↦ none
    | some lines ↦ elim (list_blocks n (i + 1) flag d inode) [
      | none ↦ none
      | some more ↦ some (lines ++ more)
    ]
  ]
]

abbrev pub list_directory : Bool → Disk → Inode → Option (Exit × List (List ℕ))
list_directory flag d inode = elim (list_blocks total_block_count 0 flag d inode) [
  | none ↦ none
  | some lines ↦ some (success, lines)
]

-- main from the lookup of the path on.
abbrev pub list_path : Bool → List ℕ → Disk → Option (Exit × List (List ℕ))
list_path flag path d =
    if length path == 1
    then list_directory flag d (get_root_inode d)
    else elim (find_dir_entry d path) [
      | none ↦ none
      | some none ↦ some (failure enoent, [])
      | some (some p) ↦
          if (entry_at d p).file_type == ft_dir
          then elim (get_inode d (entry_at d p).inode) [
            | none ↦ none
            | some inode ↦ list_directory flag d inode
          ]
          else some (success, print_name (entry_at d p) ∷ [])
    ]

unfoldable pub ext2_ls : List (List ℕ) → Option Disk → Option (Exit × List (List ℕ))
unfolding list_blocks
ext2_ls argv image = elim (options b'a' argv) [
  | none ↦ some (failure einval, [])
  | some (flag, path) ↦ elim (byte_at path 0 == b'/') [
    | false ↦ some (failure einval, [])
    | true ↦ elim image [ none ↦ some (failure einval, []) | some d ↦ list_path flag path d ]
  ]
]
