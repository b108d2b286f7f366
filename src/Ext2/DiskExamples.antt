-- ===== src/Ext2/DiskExamples.antt =====
-- The theorems at the disk of SmallDisk.
use kernel_programming_proje.Base.{
  ℕ, ◌+◌, ◌≡◌, ◌≢◌, refl, true, false, ◌&&◌, ◌||◌, [], Option, ◌∷◌, none, some, has, ◌==◌,
  if◌then◌else◌, arith, ◌⊎◌,
}
use kernel_programming_proje.Ext2.Bitmaps.{bit_at, update_bitmap, find_free_inode, find_free_block}
use kernel_programming_proje.Ext2.Disk.{
  direct_block_count, total_block_count, ft_dir, s_iflnk, s_ifdir, rounds, Place, Disk, entry_at,
  get_inode,
}
use kernel_programming_proje.Ext2.Names.{last_slash_in_path, find_file_name_by_path}
use kernel_programming_proje.Ext2.Lookup.{locate_file_by_name, find_dir_entry, find_parent_inode}
use kernel_programming_proje.Ext2.Lookup.Named.{Finds, locate_file_by_name-Finds}
use kernel_programming_proje.Ext2.Lookup.Entries.{entries_of, Advances}
use kernel_programming_proje.Ext2.Lookup.Paths.{components, from_root, find_dir_entry-from_root}
use kernel_programming_proje.Ext2.Allocate.{allocate_space_in_block}
use kernel_programming_proje.Ext2.Allocate.Adds.{Outcome, allocate_space_in_block-adds}
use kernel_programming_proje.Ext2.Blocks.{free_all_blocks_of_inode, read_symbolic_link}
use kernel_programming_proje.Ext2.Blocks.Free.{
  blocks_of, stray_blocks, Spared, free_all_blocks_of_inode-frees,
}
use kernel_programming_proje.Ext2.Blocks.Link.{
  StandsFor, target, link, read_symbolic_link-StandsFor, read_symbolic_link-loops,
}
use kernel_programming_proje.Ext2.Tools.{success, failure, eisdir, eexist, enospc}
use kernel_programming_proje.Ext2.Ls.{ext2_ls}
use kernel_programming_proje.Ext2.Ls.Laws.{names, ext2_ls-names}
use kernel_programming_proje.Ext2.Rm.{unlink_inode, remove_file}
use kernel_programming_proje.Ext2.Rm.Locate.{first_used}
use kernel_programming_proje.Ext2.Rm.Removed.{remove_file-removes}
use kernel_programming_proje.Ext2.Rm.Tree.{ext2_rm}
use kernel_programming_proje.Ext2.Rm.Errors.{ext2_rm-unchanged}
use kernel_programming_proje.Ext2.Mkdir.{ext2_mkdir}
use kernel_programming_proje.Ext2.Mkdir.Errors.{is_success, ext2_mkdir-inodes}
use kernel_programming_proje.Ext2.Ln.Main.{ext2_ln}
use kernel_programming_proje.Ext2.Ln.Errors.{ext2_ln-unchanged}
use kernel_programming_proje.Ext2.SmallDisk.{disk, root, an_inode, at_a, root-Advances}

locate_file_by_name-Finds_example :
    (r : Option Place) × (locate_file_by_name disk root (b'a' ∷ []) ≡ some r)
    × Finds disk (b'a' ∷ []) (entries_of disk root) r
locate_file_by_name-Finds_example =
    locate_file_by_name-Finds disk root (b'a' ∷ []) root-Advances refl

find_dir_entry-from_root_example :
    find_dir_entry disk (b'/' ∷ b'd' ∷ b'/' ∷ b'/' ∷ b'.' ∷ [])
    ≡ from_root disk (components (b'd' ∷ b'/' ∷ b'/' ∷ b'.' ∷ []))
find_dir_entry-from_root_example =
    find_dir_entry-from_root disk b'/' (b'd' ∷ b'/' ∷ b'/' ∷ b'.' ∷ [])

allocate_space_in_block-adds_example :
    Outcome disk 9 5 16 ft_dir
      (b'n' ∷ b'a' ∷ b'm' ∷ b'e' ∷ [])
      (allocate_space_in_block disk 4 5 16 (b'n' ∷ b'a' ∷ b'm' ∷ b'e' ∷ []) ft_dir)
allocate_space_in_block-adds_example =
    allocate_space_in_block-adds disk 9 5 16 ft_dir (b'n' ∷ b'a' ∷ b'm' ∷ b'e' ∷ []) refl
      (omega arith) refl (λ e. omega arith)

free_all_blocks_of_inode-frees_example :
    (bit_at (free_all_blocks_of_inode root disk).image.blocks 4 ≡ (
      if has 5 (blocks_of disk root) || has 5 (stray_blocks disk root)
      then false
      else bit_at disk.image.blocks 4))
    × Spared disk (free_all_blocks_of_inode root disk)
free_all_blocks_of_inode-frees_example = free_all_blocks_of_inode-frees root disk 4 refl

link_to_a : StandsFor disk 1 (b'/' ∷ b'l' ∷ []) 12
unfolding find_dir_entry rounds total_block_count
link_to_a =
    link 0 (b'/' ∷ b'l' ∷ []) (record { block = 5; offset = 48 }) (an_inode s_iflnk 2 7) 12 refl
      refl refl (omega arith) (target (b'/' ∷ b'a' ∷ []) at_a (an_inode 0x8000 3 9) refl refl refl)

read_symbolic_link-StandsFor_example : read_symbolic_link 5 disk (b'/' ∷ b'l' ∷ []) ≡ some (some 12)
read_symbolic_link-StandsFor_example =
    read_symbolic_link-StandsFor disk 1 5 (b'/' ∷ b'l' ∷ []) 12 link_to_a (omega arith)

m_found : find_dir_entry disk (b'/' ∷ b'm' ∷ []) ≡ some (some (record { block = 5; offset = 60 }))
unfolding find_dir_entry rounds total_block_count
m_found = refl

read_symbolic_link-loops_example : read_symbolic_link 100 disk (b'/' ∷ b'm' ∷ []) ≡ none
read_symbolic_link-loops_example =
    read_symbolic_link-loops disk 100 (b'/' ∷ b'm' ∷ []) (record { block = 5; offset = 60 })
      (an_inode s_iflnk 2 8) m_found refl refl (omega arith) refl

d_found : find_dir_entry disk (b'/' ∷ b'd' ∷ []) ≡ some (some (record { block = 5; offset = 36 }))
unfolding find_dir_entry rounds total_block_count
d_found = refl

d_Advances : Advances disk (entries_of disk (an_inode s_ifdir 1024 6))
unfolding rounds total_block_count
d_Advances = (omega arith, tt)

ext2_ls-names_example :
    ext2_ls ((b'l' ∷ []) ∷ [] ∷ (b'-' ∷ b'a' ∷ []) ∷ (b'/' ∷ b'd' ∷ []) ∷ []) (some disk)
    ≡ some (success, names true disk (entries_of disk (an_inode s_ifdir 1024 6)))
ext2_ls-names_example =
    ext2_ls-names ((b'l' ∷ []) ∷ [] ∷ (b'-' ∷ b'a' ∷ []) ∷ (b'/' ∷ b'd' ∷ []) ∷ []) true b'd' []
      disk (record { block = 5; offset = 36 }) (an_inode s_ifdir 1024 6) refl d_found refl refl
      d_Advances

a_parent :
    find_parent_inode (unlink_inode 99 12 (an_inode 0x8000 3 9) disk) (b'/' ∷ b'a' ∷ []) ≡ some 2
unfolding find_parent_inode last_slash_in_path
a_parent = refl

unlinked-Advances :
    Advances
      (unlink_inode 99 12 (an_inode 0x8000 3 9) disk)
      (entries_of (unlink_inode 99 12 (an_inode 0x8000 3 9) disk) root)
unfolding rounds total_block_count free_all_blocks_of_inode direct_block_count
unlinked-Advances =
    (omega arith, (omega arith, (omega arith, (omega arith, (omega arith, (omega arith, tt))))))

root_first : first_used total_block_count 0 root.i_block ≡ some 0
unfolding total_block_count
root_first = refl

root_again : get_inode (unlink_inode 99 12 (an_inode 0x8000 3 9) disk) 2 ≡ some root
unfolding free_all_blocks_of_inode direct_block_count
root_again = refl

remove_file-removes_example :
    (e : Disk) × (remove_file 99 disk at_a (b'/' ∷ b'a' ∷ []) ≡ some e)
    × ((entry_at e at_a).inode ≡ 0)
    × ((block offset : ℕ)
        → (block ≢ 5) ⊎ (offset ≢ 24)
        → e.entries block offset ≡ disk.entries block offset)
    × ((i : ℕ)
        → bit_at e.image.inodes i
          ≡ (if true && (i + 1 == 12) then false else bit_at disk.image.inodes i))
remove_file-removes_example =
    remove_file-removes 99 disk at_a (b'/' ∷ b'a' ∷ []) (an_inode 0x8000 3 9) root 2 0 refl
      (omega arith) refl a_parent root_again unlinked-Advances root_first

rm_fails :
    ext2_rm 99 ((b'r' ∷ []) ∷ [] ∷ (b'/' ∷ b'd' ∷ []) ∷ []) (some disk)
    ≡ some (failure eisdir, some disk)
unfolding ext2_rm rounds total_block_count find_dir_entry
rm_fails = refl

ext2_rm-unchanged_example : some disk ≡ some disk
ext2_rm-unchanged_example =
    ext2_rm-unchanged 99 ((b'r' ∷ []) ∷ [] ∷ (b'/' ∷ b'd' ∷ []) ∷ []) (some disk) (some disk) eisdir
      rm_fails

mkdir_makes :
    (e : Disk) × (ext2_mkdir 99 ((b'm' ∷ []) ∷ [] ∷ (b'/' ∷ b'n' ∷ []) ∷ []) (some disk)
      ≡ some (success, some e))
unfolding ext2_mkdir rounds total_block_count find_dir_entry find_parent_inode
    find_file_name_by_path last_slash_in_path update_bitmap find_free_inode find_free_block
    allocate_space_in_block
mkdir_makes = (_, refl)

ext2_mkdir-inodes_example : bit_at mkdir_makes.0.image.inodes 12 ≡ (
    if is_success success && (13 == find_free_inode disk.image)
    then true
    else bit_at disk.image.inodes 12)
ext2_mkdir-inodes_example =
    ext2_mkdir-inodes 99 ((b'm' ∷ []) ∷ [] ∷ (b'/' ∷ b'n' ∷ []) ∷ []) disk mkdir_makes.0 success 12
      mkdir_makes.1

ln_fails :
    ext2_ln 99 ((b'l' ∷ []) ∷ [] ∷ (b'/' ∷ b'a' ∷ []) ∷ (b'/' ∷ b'd' ∷ []) ∷ []) (some disk)
    ≡ some (failure eexist, some disk)
unfolding ext2_ln rounds total_block_count find_dir_entry last_slash_in_path
ln_fails = refl

different : eexist ≢ enospc
different = λ e. ground arith

ext2_ln-unchanged_example : some disk ≡ some disk
ext2_ln-unchanged_example =
    ext2_ln-unchanged 99 ((b'l' ∷ []) ∷ [] ∷ (b'/' ∷ b'a' ∷ []) ∷ (b'/' ∷ b'd' ∷ []) ∷ [])
      (some disk) (some disk) eexist ln_fails different
