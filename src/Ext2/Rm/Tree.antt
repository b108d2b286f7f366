-- ===== src/Ext2/Rm/Tree.antt =====
-- ext2_rm.c, lines 107 to 206: removing a directory with all that is in it, and main.
use kernel_programming_proje.Base.{
  ℕ, zero, suc, ◌+◌, true, false, not, ◌&&◌, ◌||◌, List, ◌∷◌, ◌++◌, Option, none, some, length, ltb,
  ◌==◌, if◌then◌else◌,
}
use kernel_programming_proje.Ext2.Disk.{
  block_size, total_block_count, ft_reg_file, ft_dir, ft_symlink, rounds, DirEntry, Place, Disk,
  entry_at, get_inode, set_inode,
}
use kernel_programming_proje.Ext2.Names.{string_from, check_if_external_entry, byte_at}
use kernel_programming_proje.Ext2.Lookup.{find_dir_entry}
use kernel_programming_proje.Ext2.Blocks.{path_max}
use kernel_programming_proje.Ext2.Tools.{
  Exit, success, failure, einval, enoent, eisdir, exit_failure, options,
}
use kernel_programming_proje.Ext2.Rm.{fewer_links, remove_file, remove_empty_directory}

-- entry_path, which has room for PATH_MAX bytes with the NUL. strcat reads an entry's name up to the
-- first NUL.
abbrev pub entry_path : List ℕ → DirEntry → Option (List ℕ)
entry_path path dir =
    let name = string_from path_max 0 dir.name in
    if ltb (length path + 1 + length name) path_max then some (path ++ b'/' ∷ name) else none

-- The walk through one block of a directory, for `n` rounds at most; `remove` is the recursive call.
unfoldable pub remove_in_block :
    ℕ → (Disk → Place → List ℕ → Option Disk) → Disk → ℕ → List ℕ → ℕ → Option Disk
remove_in_block zero remove d block path position = none
remove_in_block (suc n) remove d block path position = elim (ltb position block_size) [
  | false ↦ some d
  | true ↦
      let dir = d.entries block position in
      elim (not (dir.inode == 0) && check_if_external_entry dir) [
        | false ↦ remove_in_block n remove d block path (position + dir.rec_len)
        | true ↦ elim (entry_path path dir) [
          | none ↦ none
          | some inner ↦ elim (remove d (record { block = block; offset = position }) inner) [
            | none ↦ none
            | some d' ↦
                remove_in_block n remove d' block path
                  (position + (d'.entries block position).rec_len)
          ]
        ]
      ]
]

-- The loop over the `n` blocks of a directory's inode from `i` on.
unfoldable pub remove_in_blocks :
    ℕ → ℕ → (Disk → Place → List ℕ → Option Disk) → Disk → ℕ → List ℕ → Option Disk
unfolding remove_in_block
remove_in_blocks zero i remove d number path = some d
remove_in_blocks (suc n) i remove d number path = elim (get_inode d number) [
  | none ↦ none
  | some inode ↦ elim (inode.i_block i == 0) [
    | true ↦ remove_in_blocks n (i + 1) remove d number path
    | false ↦ elim (remove_in_block rounds remove d (inode.i_block i) path 0) [
      | none ↦ none
      | some d' ↦ remove_in_blocks n (i + 1) remove d' number path
    ]
  ]
]

-- For directories `n` deep at most.
unfoldable pub remove_directory_or_file_or_link : ℕ → ℕ → Disk → Place → List ℕ → Option Disk
unfolding remove_in_blocks remove_file remove_empty_directory
remove_directory_or_file_or_link zero now d dir_entry path = none
remove_directory_or_file_or_link (suc n) now d dir_entry path =
    elim (((entry_at d dir_entry).file_type == ft_reg_file)
      || ((entry_at d dir_entry).file_type == ft_symlink)) [
        | true ↦ remove_file now d dir_entry path
        | false ↦ elim (get_inode d (entry_at d dir_entry).inode) [
          | none ↦ none
          | some inode ↦
              elim (remove_in_blocks total_block_count 0
                (λ e p q. remove_directory_or_file_or_link n now e p q)
                (set_inode (entry_at d dir_entry).inode (fewer_links 2 inode) d)
                (entry_at d dir_entry).inode path) [
                  | none ↦ none
                  | some d' ↦ remove_empty_directory now d' dir_entry path
                ]
        ]
      ]

-- A path in a deeper directory is longer by a byte at least and stays below PATH_MAX, so that
-- `rounds` calls inside each other are enough.
abbrev pub remove_at : ℕ → Disk → Place → List ℕ → Option (Exit × Option Disk)
remove_at now d dest_file path =
    elim (remove_directory_or_file_or_link rounds now d dest_file path) [
      | none ↦ none
      | some d' ↦ some (success, some d')
    ]

-- The exit status and the image afterwards.
unfoldable pub ext2_rm : ℕ → List (List ℕ) → Option Disk → Option (Exit × Option Disk)
unfolding remove_directory_or_file_or_link
ext2_rm now argv image = elim (options b'r' argv) [
  | none ↦ some (failure einval, image)
  | some (flag, path) ↦ elim (byte_at path 0 == b'/') [
    | false ↦ some (failure einval, image)
    | true ↦ elim (length path == 1) [
      | true ↦ some (failure einval, image)
      | false ↦ elim image [
        | none ↦ some (failure exit_failure, none)
        | some d ↦ elim (find_dir_entry d path) [
          | none ↦ none
          | some none ↦ some (failure enoent, some d)
          | some (some dest_file) ↦ elim ((entry_at d dest_file).file_type == ft_dir) [
            | false ↦ remove_at now d dest_file path
            | true ↦ elim flag [
              | true ↦ remove_at now d dest_file path
              | false ↦ some (failure eisdir, some d)
            ]
          ]
        ]
      ]
    ]
  ]
]
