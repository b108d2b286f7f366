-- ===== src/Ext2/Blocks.antt =====
-- An inode and its blocks: ext2general.c, lines 276 to 294 and 302 to 365. The time is an argument.
pub mod Free
pub mod Link
use kernel_programming_proje.Base.{
  ℕ, zero, suc, ◌+◌, ◌%◌, ◌^◌, Bool, true, false, List, Option, none, some, ltb, ◌==◌,
  if◌then◌else◌,
}
use kernel_programming_proje.Ext2.Disk.{
  direct_block_count, ptrs_in_block, s_iflnk, Inode, Disk, entry_at, get_inode, update_bits,
}
use kernel_programming_proje.Ext2.Names.{string_from}
use kernel_programming_proje.Ext2.Lookup.{find_dir_entry}

abbrev pub init_inode : ℕ → ℕ → ℕ → Inode → Inode
init_inode now mode size inode = record inode {
  i_mode = mode;
  i_uid = 0;
  i_size = size;
  i_ctime = now % 2 ^ 32;
  i_dtime = 0;
  i_gid = 0;
  i_links_count = 1;
  i_blocks = 0;
  osd1 = 0;
  i_generation = 0;
  i_file_acl = 0;
  i_dir_acl = 0;
  i_faddr = 0;
  i_block = λ i. 0;
}

-- `update_bitmap(disk, 'b', f[i], 0)` for the `n` indices from `i` on.
unfoldable pub free_each : ℕ → ℕ → (ℕ → ℕ) → Disk → Disk
free_each zero i f d = d
free_each (suc n) i f d = free_each n (i + 1) f (update_bits b'b' (f i) 0 d)

-- The blocks whose numbers a block holds, then the block itself.
abbrev pub free_indirect : ℕ → Disk → Disk
free_indirect block d = update_bits b'b' block 0 (free_each ptrs_in_block 0 (d.pointers block) d)

unfoldable pub free_double : ℕ → ℕ → (ℕ → ℕ) → Disk → Disk
unfolding free_each
free_double zero i current_ptr_pos d = d
free_double (suc n) i current_ptr_pos d =
    free_double n (i + 1) current_ptr_pos (free_indirect (current_ptr_pos i) d)

-- The two inner loops of the triple indirect blocks: `current_ptr_pos[i]` with the outer index.
unfoldable pub free_triple_row : ℕ → ℕ → ℕ → (ℕ → ℕ) → Disk → Disk
unfolding free_each
free_triple_row zero i j current_ptr_pos d = d
free_triple_row (suc n) i j current_ptr_pos d = free_triple_row n i (j + 1) current_ptr_pos (
    update_bits b'b' (current_ptr_pos j) 0
      (free_each ptrs_in_block 0 (d.pointers (current_ptr_pos i)) d))

unfoldable pub free_triple : ℕ → ℕ → (ℕ → ℕ) → Disk → Disk
unfolding free_triple_row
free_triple zero i current_ptr_ptr_pos d = d
free_triple (suc n) i current_ptr_ptr_pos d = free_triple n (i + 1) current_ptr_ptr_pos (
    update_bits b'b' (current_ptr_ptr_pos i) 0
      (free_triple_row ptrs_in_block i 0 (d.pointers (current_ptr_ptr_pos i)) d))

-- INDIRECT_BLOCK, DBLE_INDIRECT_BLOCK and TPLE_INDIRECT_BLOCK follow the direct blocks.
unfoldable pub free_single : Inode → Disk → Disk
unfolding free_each
free_single inode d = if inode.i_block 12 == 0 then d else free_indirect (inode.i_block 12) d

unfoldable pub free_dble : Inode → Disk → Disk
unfolding free_double
free_dble inode d =
    if inode.i_block 13 == 0
    then d
    else update_bits b'b' (inode.i_block 13) 0
        (free_double ptrs_in_block 0 (d.pointers (inode.i_block 13)) d)

unfoldable pub free_tple : Inode → Disk → Disk
unfolding free_triple
free_tple inode d =
    if inode.i_block 14 == 0
    then d
    else update_bits b'b' (inode.i_block 14) 0
        (free_triple ptrs_in_block 0 (d.pointers (inode.i_block 14)) d)

unfoldable pub free_all_blocks_of_inode : Inode → Disk → Disk
unfolding free_each free_single free_dble free_tple
free_all_blocks_of_inode inode d =
    free_tple inode
      (free_dble inode (free_single inode (free_each direct_block_count 0 inode.i_block d)))

-- PATH_MAX.
abbrev pub path_max : ℕ
path_max = 1024

-- The number of the inode that a path stands for behind its links, for `n` calls at most: `some
-- none` where a path does not exist.
unfoldable pub read_symbolic_link : ℕ → Disk → List ℕ → Option (Option ℕ)
read_symbolic_link zero d path = none
read_symbolic_link (suc n) d path = elim (find_dir_entry d path) [
  | none ↦ none
  | some none ↦ some none
  | some (some target) ↦ elim (get_inode d (entry_at d target).inode) [
    | none ↦ none
    | some target_inode ↦ elim (target_inode.i_mode == s_iflnk) [
      | false ↦ some (some (entry_at d target).inode)
      | true ↦ elim (ltb target_inode.i_size path_max) [
        | false ↦ none
        | true ↦
            read_symbolic_link n d
              (string_from target_inode.i_size 0 (d.bytes (target_inode.i_block 0)))
      ]
    ]
  ]
]
