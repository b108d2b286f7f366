-- ===== src/Ext2/SmallDisk.antt =====
-- A small disk for the examples: the root directory in block 5 has the file "a", whose inode is 12,
-- the directory "d", whose inode is 11, and the links "l" to "/a" and "m" to itself, with the
-- inodes 14 and 15.
use kernel_programming_proje.Base.{ℕ, List, [], ◌∷◌, length, ◌==◌, if◌then◌else◌, arith}
use kernel_programming_proje.Ext2.Bitmaps.{Image}
use kernel_programming_proje.Ext2.Disk.{
  total_block_count, ft_reg_file, ft_dir, ft_symlink, s_iflnk, s_ifdir, rounds, Inode, DirEntry,
  Place, Disk,
}
use kernel_programming_proje.Ext2.Names.{byte_at}
use kernel_programming_proje.Ext2.Lookup.Entries.{entries_of, Advances}

abbrev pub image : Image
image = record {
  blocks = record {
    bytes = λ i. if i == 0 then 255 else 1;
    s_free_count = 7;
    bg_free_count = 7;
    s_count = 16;
  };
  inodes = record {
    bytes = λ i. if i == 0 then 255 else if i == 1 then 111 else 0;
    s_free_count = 18;
    bg_free_count = 18;
    s_count = 32;
  };
}

abbrev pub an_inode : ℕ → ℕ → ℕ → Inode
an_inode mode size block = record {
  i_mode = mode;
  i_uid = 0;
  i_size = size;
  i_ctime = 0;
  i_dtime = 0;
  i_gid = 0;
  i_links_count = 1;
  i_blocks = 2;
  osd1 = 0;
  i_block = λ i. if i == 0 then block else 0;
  i_generation = 0;
  i_file_acl = 0;
  i_dir_acl = 0;
  i_faddr = 0;
}

abbrev pub an_entry : ℕ → ℕ → List ℕ → ℕ → DirEntry
an_entry number rec_len name file_type = record {
  inode = number;
  rec_len = rec_len;
  name_len = length name;
  file_type = file_type;
  name = byte_at name;
}

abbrev pub root_entries : ℕ → DirEntry
root_entries offset =
    if offset == 0
    then an_entry 2 12 (b'.' ∷ []) ft_dir
    else if offset == 12
    then an_entry 2 12 (b'.' ∷ b'.' ∷ []) ft_dir
    else if offset == 24
    then an_entry 12 12 (b'a' ∷ []) ft_reg_file
    else if offset == 36
    then an_entry 11 12 (b'd' ∷ []) ft_dir
    else if offset == 48
    then an_entry 14 12 (b'l' ∷ []) ft_symlink
    else an_entry 15 964 (b'm' ∷ []) ft_symlink

abbrev pub disk : Disk
disk = record {
  image = image;
  inodes = λ i.
      if i == 1
      then an_inode s_ifdir 1024 5
      else if i == 10
      then an_inode s_ifdir 1024 6
      else if i == 13
      then an_inode s_iflnk 2 7
      else if i == 14
      then an_inode s_iflnk 2 8
      else an_inode 0x8000 3 9;
  entries = λ b. if b == 5 then root_entries else λ o. an_entry 11 1024 (b'.' ∷ []) ft_dir;
  pointers = λ b i. 0;
  bytes = λ b. if b == 7 then byte_at (b'/' ∷ b'a' ∷ []) else byte_at (b'/' ∷ b'm' ∷ []);
}

abbrev pub root : Inode
root = an_inode s_ifdir 1024 5

abbrev pub at_a : Place
at_a = record { block = 5; offset = 24 }

pub root-Advances : Advances disk (entries_of disk root)
unfolding rounds total_block_count
root-Advances =
    (omega arith, (omega arith, (omega arith, (omega arith, (omega arith, (omega arith, tt))))))
