-- ===== src/Ext2/Mkdir.antt =====
-- ext2_mkdir.c: a new directory. The answer is the exit status and the image afterwards; `none`
-- where the program leaves the image or never ends, or writes a name over what follows its entry.
pub mod Errors
pub mod Added
pub mod Made
use kernel_programming_proje.Base.{
  ℕ, zero, suc, ◌+◌, ◌-◌, ◌%◌, ◌^◌, Bool, true, false, List, [], ◌∷◌, Option, none, some, length,
  ltb, ◌==◌, if◌then◌else◌, put,
}
use kernel_programming_proje.Ext2.Bitmaps.{find_free_inode, find_free_block, to_index}
use kernel_programming_proje.Ext2.Disk.{
  block_size, total_block_count, ft_dir, s_ifdir, Inode, DirEntry, Place, Disk, entry_at, get_inode,
  set_inode, set_entry, update_bits,
}
use kernel_programming_proje.Ext2.Names.{byte_at, find_file_name_by_path}
use kernel_programming_proje.Ext2.Lookup.{find_dir_entry, find_parent_inode}
use kernel_programming_proje.Ext2.Allocate.{write_name, allocate_space_in_block}
use kernel_programming_proje.Ext2.Blocks.{init_inode}
use kernel_programming_proje.Ext2.Tools.{
  Exit, success, failure, einval, enoent, eexist, enospc, enametoolong,
}

-- `new_inode`, initialized, with its two links.
abbrev pub new_directory : ℕ → Inode → Inode
new_directory now inode = record (init_inode now s_ifdir block_size inode) { i_links_count = 2 }

-- `i_block[index] = block` and `i_blocks += 1`.
abbrev pub add_block : ℕ → ℕ → Inode → Inode
add_block index block inode = record inode {
  i_block = put inode.i_block index block;
  i_blocks = (inode.i_blocks + 1) % 2 ^ 32;
}

-- The entry "." at the start of a directory's first block.
abbrev pub self_entry : ℕ → DirEntry → DirEntry
self_entry number e = record e {
  inode = number;
  name_len = 1;
  rec_len = block_size;
  name = put e.name 0 b'.';
  file_type = ft_dir;
}

-- An entry that takes a whole block.
abbrev pub whole_entry : ℕ → List ℕ → ℕ → DirEntry → DirEntry
whole_entry number filename file_type e = record e {
  inode = number;
  name_len = length filename % 2 ^ 8;
  rec_len = block_size;
  name = write_name (length filename) filename e.name;
  file_type = file_type;
}

-- The loop that looks for space in the `n` blocks of the parent from `i` on.
unfoldable pub add_to_blocks : ℕ → ℕ → Disk → ℕ → ℕ → List ℕ → ℕ → Option (Bool × Disk)
unfolding allocate_space_in_block
add_to_blocks zero i d parent number filename file_type = some (false, d)
add_to_blocks (suc n) i d parent number filename file_type = elim (get_inode d parent) [
  | none ↦ none
  | some inode ↦ elim (inode.i_block i == 0) [
    | true ↦ add_to_blocks n (i + 1) d parent number filename file_type
    | false ↦
        elim (allocate_space_in_block d (length filename) (inode.i_block i) number filename
          file_type) [
            | none ↦ none
            | some (true, d') ↦ some (true, d')
            | some (false, d') ↦ add_to_blocks n (i + 1) d' parent number filename file_type
          ]
  ]
]

-- The first of the `n` indices from `i` on at which the parent has no block.
abbrev pub unused_index : ℕ → ℕ → Inode → Option ℕ
unused_index zero i inode = none
unused_index (suc n) i inode =
    let rest = unused_index n (i + 1) inode in if inode.i_block i == 0 then some i else rest

-- A new block for the parent with the entry in it, whether or not `find_free_block` found one.
abbrev pub add_in_new_block : Disk → ℕ → ℕ → List ℕ → ℕ → Option (Bool × Disk)
add_in_new_block d parent number filename file_type =
    let block = find_free_block d.image in
    let marked = update_bits b'b' block 1 d in
    elim (get_inode d parent) [
      | none ↦ none
      | some inode ↦ elim (unused_index total_block_count 0 inode) [
        | none ↦ some (false, marked)
        | some index ↦
            let with_block = set_inode parent (add_block index block inode) marked in
            let place : Place = record { block = block; offset = 0 } in
            some (
              true,
              set_entry place (whole_entry number filename file_type (entry_at with_block place))
                  with_block,
            )
      ]
    ]

-- The end of main: the entry in the parent's blocks or in a new one, or the roll back, which frees
-- the bit of the block with the inode's number.
abbrev pub finish : Disk → ℕ → ℕ → List ℕ → Option (Exit × Option Disk)
finish d parent number filename =
    elim (add_to_blocks total_block_count 0 d parent number filename ft_dir) [
      | none ↦ none
      | some (true, d') ↦ some (success, some d')
      | some (false, d') ↦ elim (add_in_new_block d' parent number filename ft_dir) [
        | none ↦ none
        | some (true, e) ↦ some (success, some e)
        | some (false, e) ↦
            some (failure enospc, some (update_bits b'i' number 0 (update_bits b'b' number 0 e)))
      ]
    ]

-- `parent_inode->i_links_count += 1`.
abbrev pub one_more_link : ℕ → Disk → Disk
one_more_link number d =
    let inode = d.inodes (to_index number) in
    set_inode number (record inode { i_links_count = (inode.i_links_count + 1) % 2 ^ 16 }) d

-- The new directory's block with its two entries, and what follows.
abbrev pub fill_directory : Disk → ℕ → ℕ → ℕ → List ℕ → Option (Exit × Option Disk)
fill_directory d parent number block filename =
    let used = update_bits b'b' block 1 d in
    let with_block = set_inode number (add_block 0 block (used.inodes (to_index number))) used in
    let place : Place = record { block = block; offset = 0 } in
    let with_self = set_entry place (self_entry number (entry_at with_block place)) with_block in
    elim (allocate_space_in_block with_self 2 block parent (b'.' ∷ b'.' ∷ []) ft_dir) [
      | none ↦ none
      | some (added, d') ↦ finish (one_more_link parent d') parent number filename
    ]

-- main from the parent's number on.
unfoldable pub make_directory : ℕ → Disk → ℕ → List ℕ → Option (Exit × Option Disk)
unfolding add_to_blocks
make_directory now d parent filename =
    if ltb (block_size - 8) (length filename)
    then some (failure enametoolong, some d)
    else let number = find_free_inode d.image in
      if number == 0
      then some (failure enospc, some d)
      else let used = update_bits b'i' number 1 d in
        let started = set_inode number (new_directory now (used.inodes (to_index number))) used in
        let block = find_free_block started.image in
        if block == 0
        then some (failure enoent, some (update_bits b'i' number 0 started))
        else fill_directory started parent number block filename

unfoldable pub ext2_mkdir : ℕ → List (List ℕ) → Option Disk → Option (Exit × Option Disk)
unfolding make_directory
ext2_mkdir now (program ∷ disk ∷ path ∷ []) image = elim image [
  | none ↦ some (failure einval, none)
  | some d ↦ elim (byte_at path 0 == b'/') [
    | false ↦ some (failure einval, some d)
    | true ↦ elim (find_dir_entry d path) [
      | none ↦ none
      | some (some p) ↦ some (failure eexist, some d)
      | some none ↦ elim (find_parent_inode d path) [
        | none ↦ none
        | some parent ↦ elim (parent == 0) [
          | true ↦ some (failure enoent, some d)
          | false ↦ elim (find_file_name_by_path path) [
            | none ↦ none
            | some filename ↦ make_directory now d parent filename
          ]
        ]
      ]
    ]
  ]
]
ext2_mkdir now argv image = some (failure einval, image)
