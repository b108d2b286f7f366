-- ===== src/Ext2/Rm.antt =====
-- ext2_rm.c: removing a file, a link, or with -r a directory. A pointer to an inode is the inode's
-- number, and a pointer to an entry its place. The answer is `none` where the program leaves the
-- image, an array or a path's buffer, or never ends; `now` is the time. The bytes behind a name's
-- length that strcat reads are those of the entry's `name`.
pub mod Tree
pub mod Depth
pub mod Locate
pub mod Removed
pub mod Errors
use kernel_programming_proje.Base.{
  ℕ, zero, suc, ◌+◌, ◌-◌, ◌%◌, ◌^◌, Bool, true, false, not, ◌&&◌, ◌||◌, List, [], ◌∷◌, ◌++◌, Option,
  none, some, length, ltb, ◌==◌, if◌then◌else◌, put,
}
use kernel_programming_proje.Ext2.Disk.{
  block_size, total_block_count, ft_reg_file, ft_dir, ft_symlink, rounds, Inode, DirEntry, Place,
  Disk, entry_at, get_inode, set_inode, set_entry, update_bits,
}
use kernel_programming_proje.Ext2.Names.{string_from, check_if_external_entry, byte_at}
use kernel_programming_proje.Ext2.Lookup.{find_dir_entry, find_parent_inode}
use kernel_programming_proje.Ext2.Blocks.{path_max, free_each, free_all_blocks_of_inode}
use kernel_programming_proje.Ext2.Tools.{
  Exit, success, failure, einval, enoent, eisdir, exit_failure, options,
}

-- same_name after the loop over the `n` bytes of two names from `i` on: no byte is the same.
abbrev pub same_name : ℕ → ℕ → DirEntry → DirEntry → Bool
same_name zero i dir file_entry = true
same_name (suc n) i dir file_entry =
    let rest = same_name n (i + 1) dir file_entry in
    if dir.name i == file_entry.name i then false else rest

-- The `while` loop of locate_dir_entry_in_block, for `n` rounds at most: whether it ends.
unfoldable pub scan_block : ℕ → Disk → ℕ → DirEntry → ℕ → Bool
scan_block zero d block file_entry position = false
scan_block (suc n) d block file_entry position =
    let dir = d.entries block position in
    elim (ltb position block_size) [
      | false ↦ true
      | true ↦
          elim ((dir.name_len == file_entry.name_len) && same_name dir.name_len 0 dir file_entry) [
            | true ↦ true
            | false ↦ scan_block n d block file_entry (position + dir.rec_len)
          ]
    ]

-- The loop over the `n` blocks of the parent from `i` on; `some none` stands for -1.
unfoldable pub locate_from : ℕ → ℕ → Disk → Inode → DirEntry → Option (Option ℕ)
unfolding scan_block
locate_from zero i d parent_inode file_entry = some none
locate_from (suc n) i d parent_inode file_entry = elim (parent_inode.i_block i == 0) [
  | true ↦ locate_from n (i + 1) d parent_inode file_entry
  | false ↦ elim (scan_block rounds d (parent_inode.i_block i) file_entry 0) [
    | false ↦ none
    | true ↦ some (some i)
  ]
]

unfoldable pub locate_dir_entry_in_block : Disk → Inode → DirEntry → Option (Option ℕ)
unfolding locate_from
locate_dir_entry_in_block d parent_inode file_entry =
    locate_from total_block_count 0 d parent_inode file_entry

-- The number of entries in use from `position` on.
unfoldable pub count_used : ℕ → Disk → ℕ → ℕ → Option ℕ
count_used zero d block position = none
count_used (suc n) d block position = elim (ltb position block_size) [
  | false ↦ some 0
  | true ↦ elim (count_used n d block (position + (d.entries block position).rec_len)) [
    | none ↦ none
    | some count ↦ some (if (d.entries block position).inode == 0 then count else count + 1)
  ]
]

-- `parent_inode->i_block[index] = 0` and `parent_inode->i_blocks -= 1`.
abbrev pub drop_block : ℕ → Inode → Inode
drop_block index inode = record inode {
  i_block = put inode.i_block index 0;
  i_blocks = (inode.i_blocks + 2 ^ 32 - 1) % 2 ^ 32;
}

unfoldable pub update_parent_inode_block : Disk → ℕ → ℕ → Option Disk
unfolding count_used
update_parent_inode_block d parent index = elim (get_inode d parent) [
  | none ↦ none
  | some parent_inode ↦ elim (count_used rounds d (parent_inode.i_block index) 0) [
    | none ↦ none
    | some count ↦
        if count == 1
        then some (
            set_inode parent (drop_block index parent_inode)
              (update_bits b'b' (parent_inode.i_block index) 0 d))
        else some d
  ]
]

-- The lines that remove_file and remove_empty_directory begin or end with: the parent's block.
abbrev pub update_parent : Disk → Place → List ℕ → Option (ℕ × Disk)
update_parent d dir_entry path = elim (find_parent_inode d path) [
  | none ↦ none
  | some parent ↦ elim (get_inode d parent) [
    | none ↦ none
    | some parent_inode ↦ elim (locate_dir_entry_in_block d parent_inode (entry_at d dir_entry)) [
      | none ↦ none
      | some none ↦ none
      | some (some index) ↦ elim (update_parent_inode_block d parent index) [
        | none ↦ none
        | some d' ↦ some (parent, d')
      ]
    ]
  ]
]

-- `dir_entry->inode = 0`.
abbrev pub invalidate : Place → Disk → Disk
invalidate p d = set_entry p (record (entry_at d p) { inode = 0 }) d

-- The first part of remove_file: one link less, and with the last one the file's blocks and inode.
abbrev pub unlink_inode : ℕ → ℕ → Inode → Disk → Disk
unlink_inode now number dir_entry_inode d =
    let links = (dir_entry_inode.i_links_count + 2 ^ 16 - 1) % 2 ^ 16 in
    let unlinked = record dir_entry_inode { i_links_count = links } in
    if links == 0
    then set_inode number (record unlinked { i_dtime = now % 2 ^ 32; i_size = 0 })
        (update_bits b'i' number 0 (free_all_blocks_of_inode unlinked d))
    else set_inode number unlinked d

unfoldable pub remove_file : ℕ → Disk → Place → List ℕ → Option Disk
remove_file now d dir_entry path = elim (get_inode d (entry_at d dir_entry).inode) [
  | none ↦ none
  | some dir_entry_inode ↦
      elim (update_parent (unlink_inode now (entry_at d dir_entry).inode dir_entry_inode d)
        dir_entry path) [ none ↦ none | some (parent, d') ↦ some (invalidate dir_entry d') ]
]

-- `parent_inode->i_links_count -= n`.
abbrev pub fewer_links : ℕ → Inode → Inode
fewer_links n inode = record inode { i_links_count = (inode.i_links_count + 2 ^ 16 - n) % 2 ^ 16 }

-- The second part of remove_empty_directory, for the directory's inode.
abbrev pub free_directory : ℕ → ℕ → Disk → Disk
free_directory now number d =
    let freed = update_bits b'i' number 0 d in
    let inode = freed.inodes (number - 1) in
    free_each total_block_count 0 inode.i_block
      (set_inode number (record inode { i_dtime = now % 2 ^ 32; i_size = 0 }) freed)

unfoldable pub remove_empty_directory : ℕ → Disk → Place → List ℕ → Option Disk
unfolding free_each
remove_empty_directory now d empty_directory path = elim (update_parent d empty_directory path) [
  | none ↦ none
  | some (parent, d1) ↦ elim (get_inode d1 (entry_at d1 empty_directory).inode) [
    | none ↦ none
    | some inode ↦ some (
        invalidate empty_directory (
          free_directory now (entry_at d1 empty_directory).inode
            (set_inode parent (fewer_links 1 (d1.inodes (parent - 1))) d1)))
  ]
]
