-- ===== src/Ext2/Ln.antt =====
-- ext2_ln.c, lines 116 to 264: hard links, and symbolic links with -s. The answer is the exit status
-- and the image afterwards; `none` where the program leaves the image or never ends, or writes a
-- name over what follows its entry.
pub mod Main
pub mod Errors
use kernel_programming_proje.Base.{
  ℕ, zero, suc, ◌+◌, ◌-◌, ◌*◌, ◌%◌, ◌^◌, Bool, true, false, not, ◌&&◌, ◌||◌, List, [], ◌∷◌, Option,
  none, some, length, ltb, ◌==◌, if◌then◌else◌, put,
}
use kernel_programming_proje.Ext2.Bitmaps.{find_free_inode, find_free_block, to_index, to_number}
use kernel_programming_proje.Ext2.Disk.{
  block_size, total_block_count, root_inode_number, ft_reg_file, ft_dir, ft_symlink, s_iflnk,
  rounds, Inode, DirEntry, Place, Disk, entry_at, get_inode, set_inode, set_entry, update_bits,
}
use kernel_programming_proje.Ext2.Names.{byte_at, take, last_slash_in_path, find_file_name_by_path}
use kernel_programming_proje.Ext2.Lookup.{find_dir_entry}
use kernel_programming_proje.Ext2.Allocate.{write_name}
use kernel_programming_proje.Ext2.Blocks.{init_inode, read_symbolic_link}
use kernel_programming_proje.Ext2.Tools.{
  Exit, success, failure, einval, enoent, eisdir, eexist, enospc, enametoolong, exit_failure,
}
use kernel_programming_proje.Ext2.Mkdir.{
  add_block, add_to_blocks, unused_index, add_in_new_block, one_more_link,
}

-- `file_inode->i_links_count--`.
abbrev pub one_link_less : ℕ → Disk → Disk
one_link_less number d =
    let inode = d.inodes (to_index number) in
    set_inode number (record inode { i_links_count = (inode.i_links_count + 2 ^ 16 - 1) % 2 ^ 16 })
      d

-- The entry of a hard link in a block of its own; its name_len is not assigned.
abbrev pub hard_entry : ℕ → List ℕ → ℕ → DirEntry → DirEntry
hard_entry number filename file_type e = record e {
  inode = number;
  rec_len = block_size;
  name = write_name (length filename) filename e.name;
  file_type = file_type;
}

-- A hard link in a new block of the directory `dir`; `target` is the inode whose links are counted.
abbrev pub hard_link_in_new_block : Disk → ℕ → ℕ → DirEntry → List ℕ → Option (Exit × Option Disk)
hard_link_in_new_block d dir target file filename =
    let block = find_free_block d.image in
    if block == 0
    then some (failure enospc, some (one_link_less target d))
    else let marked = update_bits b'b' block 1 d in
      elim (get_inode d dir) [
        | none ↦ none
        | some dir_inode ↦ elim (unused_index total_block_count 0 dir_inode) [
          | none ↦ some (failure enospc, some marked)
          | some index ↦
              let with_block = set_inode dir (add_block index block dir_inode) marked in
              let place : Place = record { block = block; offset = 0 } in
              some (
                success,
                some (
                    set_entry place
                      (hard_entry file.inode filename file.file_type (entry_at with_block place))
                      with_block),
              )
        ]
      ]

abbrev pub hard_link : Disk → ℕ → ℕ → DirEntry → List ℕ → Option (Exit × Option Disk)
hard_link d dir target file filename =
    elim (add_to_blocks total_block_count 0 (one_more_link target d) dir file.inode filename
      ft_reg_file) [
        | none ↦ none
        | some (true, d') ↦ some (success, some d')
        | some (false, d') ↦ hard_link_in_new_block d' dir target file filename
      ]

-- The inode whose links a hard link counts: the one behind symbolic links.
unfoldable pub make_hard_link : Disk → ℕ → List ℕ → DirEntry → List ℕ → Option (Exit × Option Disk)
unfolding add_to_blocks read_symbolic_link
make_hard_link d dir file_path file filename = elim (get_inode d file.inode) [
  | none ↦ none
  | some file_inode ↦ elim (file_inode.i_mode == s_iflnk) [
    | false ↦ hard_link d dir file.inode file filename
    | true ↦ elim (read_symbolic_link rounds d file_path) [
      | none ↦ none
      | some none ↦ some (failure enoent, some d)
      | some (some target) ↦ hard_link d dir target file filename
    ]
  ]
]

-- `memcpy` of the path to the link's block.
abbrev pub write_path : ℕ → List ℕ → Disk → Disk
write_path block file_path d = record d {
  bytes = put d.bytes block (write_name (length file_path) file_path (d.bytes block));
}

-- The entry of a symbolic link in the directory `dir`, and the roll back.
abbrev pub add_symbolic_link : Disk → ℕ → ℕ → ℕ → DirEntry → List ℕ → Option (Exit × Option Disk)
add_symbolic_link d dir number block file filename =
    elim (add_to_blocks total_block_count 0 d dir number filename ft_symlink) [
      | none ↦ none
      | some (true, d') ↦ some (success, some d')
      | some (false, d') ↦
          if find_free_block d'.image == 0
          then some (failure enospc, some (update_bits b'i' number 0 (update_bits b'b' block 0 d')))
          else elim (add_in_new_block d' dir number filename file.file_type) [
            | none ↦ none
            | some (true, e) ↦ some (success, some e)
            | some (false, e) ↦ some (failure enospc, some e)
          ]
    ]

-- The case of -s; `dir` is the number of dir_inode.
unfoldable pub make_symbolic_link :
    ℕ → Disk → ℕ → List ℕ → DirEntry → List ℕ → Option (Exit × Option Disk)
unfolding add_to_blocks
make_symbolic_link now d dir file_path file filename =
    let number = find_free_inode d.image in
    if number == 0
    then some (failure enospc, some d)
    else let used = update_bits b'i' number 1 d in
      let started =
        set_inode number (init_inode now s_iflnk (length file_path) (used.inodes (to_index number)))
          used in
      let block = find_free_block started.image in
      if block == 0
      then some (failure enospc, some (update_bits b'i' number 0 started))
      else let marked = update_bits b'b' block 1 started in
        if ltb block_size (length file_path)
        then some (failure enospc, some marked)
        else let with_path = write_path block file_path marked in
          let with_block =
            set_inode number (add_block 0 block (with_path.inodes (to_index number))) with_path in
          add_symbolic_link with_block dir number block file filename
