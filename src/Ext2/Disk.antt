-- ===== src/Ext2/Disk.antt =====
-- ext2.h, lines 23 to 38, 141 to 170 and 218 to 238, and ext2general.c, lines 33 to 42: an image
-- that is mapped into memory. The parts of an image are taken apart: the bitmaps with their counts,
-- the table of inodes, and each block as the directory entries, the pointers or the bytes that it
-- holds. A pointer to a directory entry is its block and its offset in the block. A function
-- returns `none` where the C program follows a pointer out of the image or never ends.
use kernel_programming_proje.Base.{ℕ, Option, none, some, put, ◌==◌, if◌then◌else◌, ◌<◌, arith}
use kernel_programming_proje.Ext2.Bitmaps.{Image, update_bitmap, to_index}

abbrev pub block_size : ℕ
block_size = 1024

abbrev pub root_inode_number : ℕ
root_inode_number = 2

unfoldable pub total_block_count : ℕ
total_block_count = 15

unfoldable pub direct_block_count : ℕ
direct_block_count = 12

-- NUM_OF_PTRS_IN_BLOCK.
unfoldable pub ptrs_in_block : ℕ
ptrs_in_block = 256

-- EXT2_S_IFLNK and EXT2_S_IFDIR.
abbrev pub s_iflnk : ℕ
s_iflnk = 0xA000

abbrev pub s_ifdir : ℕ
s_ifdir = 0x4000

-- EXT2_FT_REG_FILE, EXT2_FT_DIR and EXT2_FT_SYMLINK.
abbrev pub ft_reg_file : ℕ
ft_reg_file = 1

abbrev pub ft_dir : ℕ
ft_dir = 2

abbrev pub ft_symlink : ℕ
ft_symlink = 7

-- `struct ext2_inode`, less the fields that no tool touches.
pub record Inode : Type 0 where
  pub i_mode : ℕ
  pub i_uid : ℕ
  pub i_size : ℕ
  pub i_ctime : ℕ
  pub i_dtime : ℕ
  pub i_gid : ℕ
  pub i_links_count : ℕ
  pub i_blocks : ℕ
  pub osd1 : ℕ
  pub i_block : ℕ → ℕ
  pub i_generation : ℕ
  pub i_file_acl : ℕ
  pub i_dir_acl : ℕ
  pub i_faddr : ℕ

-- `struct ext2_dir_entry_2`.
pub record DirEntry : Type 0 where
  pub inode : ℕ
  pub rec_len : ℕ
  pub name_len : ℕ
  pub file_type : ℕ
  pub name : ℕ → ℕ

pub record Place : Type 0 where
  pub block : ℕ
  pub offset : ℕ

-- `pointers b i` is the i-th `unsigned` of block b, and `bytes b i` its i-th byte.
pub record Disk : Type 0 where
  pub image : Image
  pub inodes : ℕ → Inode
  pub entries : ℕ → ℕ → DirEntry
  pub pointers : ℕ → ℕ → ℕ
  pub bytes : ℕ → ℕ → ℕ

abbrev pub entry_at : Disk → Place → DirEntry
entry_at d p = d.entries p.block p.offset

-- `get_inode_table(disk) + TO_INDEX(number)`; number 0 is outside the table.
abbrev pub get_inode : Disk → ℕ → Option Inode
get_inode d number = if number == 0 then none else some (d.inodes (to_index number))

abbrev pub get_root_inode : Disk → Inode
get_root_inode d = d.inodes (to_index root_inode_number)

abbrev pub set_inode : ℕ → Inode → Disk → Disk
set_inode number i d = record d { inodes = put d.inodes (to_index number) i }

abbrev pub set_entry : Place → DirEntry → Disk → Disk
set_entry p e d = record d { entries = put d.entries p.block (put (d.entries p.block) p.offset e) }

-- update_bitmap on an image.
abbrev pub update_bits : ℕ → ℕ → ℕ → Disk → Disk
update_bits bitmap_type num value d = record d {
  image = update_bitmap bitmap_type num value d.image;
}

-- An entry is not empty, so that a block has no more than block_size of them.
unfoldable pub rounds : ℕ
rounds = 1025

pub rounds-many : 1024 < rounds
unfolding rounds
rounds-many = omega arith
