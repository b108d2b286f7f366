-- ===== src/Ext2/Lookup.antt =====
-- Finding files by their paths: ext2general.c, lines 44 to 95 and 151 to 165.
pub mod Entries
pub mod Paths
pub mod Named
use kernel_programming_proje.Base.{
  ℕ, zero, suc, ◌+◌, Bool, true, false, not, ◌&&◌, List, [], ◌∷◌, Option, none, some, length, ltb,
  ◌==◌, if◌then◌else◌,
}
use kernel_programming_proje.Ext2.Disk.{
  block_size, total_block_count, root_inode_number, Inode, DirEntry, Place, Disk, entry_at,
  get_inode, get_root_inode, rounds,
}
use kernel_programming_proje.Ext2.Names.{str_eq, print_name, strtok_r, take, last_slash_in_path}

-- A live entry with the name.
abbrev pub has_name : List ℕ → DirEntry → Bool
has_name file_name e =
    (e.name_len == length file_name) && (not (e.inode == 0) && str_eq (print_name e) file_name)

-- The walk through one block from `position` on, for `n` rounds at most: `some none` where the
-- block has no such entry.
unfoldable pub locate_in_block : ℕ → Disk → ℕ → List ℕ → ℕ → Option (Option Place)
locate_in_block zero d block file_name position = none
locate_in_block (suc n) d block file_name position = elim (ltb position block_size) [
  | false ↦ some none
  | true ↦ elim (has_name file_name (d.entries block position)) [
    | true ↦ some (some (record { block = block; offset = position }))
    | false ↦ locate_in_block n d block file_name (position + (d.entries block position).rec_len)
  ]
]

-- The loop over the `n` blocks of an inode from `i` on.
unfoldable pub locate_in_blocks : ℕ → ℕ → Disk → Inode → List ℕ → Option (Option Place)
unfolding locate_in_block
locate_in_blocks zero i d inode file_name = some none
locate_in_blocks (suc n) i d inode file_name = elim (inode.i_block i == 0) [
  | true ↦ locate_in_blocks n (i + 1) d inode file_name
  | false ↦ elim (locate_in_block rounds d (inode.i_block i) file_name 0) [
    | none ↦ none
    | some (some p) ↦ some (some p)
    | some none ↦ locate_in_blocks n (i + 1) d inode file_name
  ]
]

unfoldable pub locate_file_by_name : Disk → Inode → List ℕ → Option (Option Place)
unfolding locate_in_blocks
locate_file_by_name d inode file_name = locate_in_blocks total_block_count 0 d inode file_name

-- The loop of find_dir_entry, with `n` above the number of tokens.
unfoldable pub walk_path : ℕ → Disk → Place → List ℕ → Option (Option Place)
unfolding locate_file_by_name
walk_path zero d current_file path = none
walk_path (suc n) d current_file path = elim (strtok_r path) [
  | none ↦ some (some current_file)
  | some (token, rest) ↦ elim (get_inode d (entry_at d current_file).inode) [
    | none ↦ none
    | some current_inode ↦ elim (locate_file_by_name d current_inode token) [
      | none ↦ none
      | some none ↦ some none
      | some (some p) ↦ walk_path n d p rest
    ]
  ]
]

-- The first byte of the path is skipped; a path with no token is a null pointer.
unfoldable pub find_dir_entry : Disk → List ℕ → Option (Option Place)
unfolding walk_path
find_dir_entry d [] = none
find_dir_entry d (c ∷ path) = elim (strtok_r path) [
  | none ↦ none
  | some (token, rest) ↦ elim (locate_file_by_name d (get_root_inode d) token) [
    | none ↦ none
    | some none ↦ some none
    | some (some p) ↦ walk_path (length rest + 1) d p rest
  ]
]

-- 0 if the parent does not exist. The cut at a slash that is not there is outside the buffer.
unfoldable pub find_parent_inode : Disk → List ℕ → Option ℕ
unfolding find_dir_entry
find_parent_inode d path = elim (last_slash_in_path path) [
  | none ↦ none
  | some i ↦ elim (ltb i (length path)) [
    | false ↦ none
    | true ↦ elim (take i path) [
      | [] ↦ some root_inode_number
      | c ∷ parent ↦ elim (find_dir_entry d (c ∷ parent)) [
        | none ↦ none
        | some none ↦ some 0
        | some (some p) ↦ some (entry_at d p).inode
      ]
    ]
  ]
]
