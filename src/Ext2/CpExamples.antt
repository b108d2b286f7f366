-- ===== src/Ext2/CpExamples.antt =====
-- The theorems on ext2_cp.c at the disk of SmallDisk.
use kernel_programming_proje.Base.{
  ℕ, ◌+◌, ◌/◌, ◌%◌, ◌<◌, ◌≤◌, ◌≡◌, ◌≢◌, refl, true, false, ◌==◌, [], ◌∷◌, none, some, arith,
}
use kernel_programming_proje.Ext2.Bitmaps.{update_bitmap, find_free_block}
use kernel_programming_proje.Ext2.Disk.{direct_block_count, Disk}
use kernel_programming_proje.Ext2.Names.{byte_at}
use kernel_programming_proje.Ext2.Tools.{failure, einval, enospc}
use kernel_programming_proje.Ext2.Cp.{have_enough_blocks, copy_file, copy_double}
use kernel_programming_proje.Ext2.Cp.Main.{ext2_cp}
use kernel_programming_proje.Ext2.Cp.Space.{data_blocks, pointer_blocks, have_enough_blocks-le}
use kernel_programming_proje.Ext2.Cp.Errors.{ext2_cp-unchanged}
use kernel_programming_proje.Ext2.Cp.Keeps.{HasRoom, in_use}
use kernel_programming_proje.Ext2.Cp.Data.{reading, skip, Holds}
use kernel_programming_proje.Ext2.Cp.File.{file_block, copy_file-reads}
use kernel_programming_proje.Ext2.Cp.Rows.{copy_double-skips}
use kernel_programming_proje.Ext2.SmallDisk.{disk}

-- Seven blocks are free, and a file of 2000 bytes takes two.
enough : have_enough_blocks disk 2000 ≡ true
unfolding have_enough_blocks
enough = refl

have_enough_blocks-le_example :
    data_blocks 2000 + pointer_blocks (data_blocks 2000) ≤ disk.image.blocks.bg_free_count
have_enough_blocks-le_example = have_enough_blocks-le disk 2000 enough

-- A path that lstat does not find.
not_found :
    ext2_cp 99 [] (λ path. none) ([] ∷ [] ∷ [] ∷ (b'/' ∷ []) ∷ []) (some disk)
    ≡ some (failure einval, some disk)
unfolding ext2_cp
not_found = refl

different : einval ≢ enospc
different = λ e. cc

ext2_cp-unchanged_example : some disk ≡ some disk
ext2_cp-unchanged_example =
    ext2_cp-unchanged 99 [] (λ path. none) ([] ∷ [] ∷ [] ∷ (b'/' ∷ []) ∷ []) (some disk) (some disk)
      einval not_found different

room : HasRoom (copy_file 16 (7 ∷ 8 ∷ []) disk)
unfolding copy_file direct_block_count update_bitmap find_free_block
room = λ e. ground arith

copy_file-reads_example :
    ((p : ℕ)
      → p < 2
      → (copy_file 16 (7 ∷ 8 ∷ []) disk).bytes
          (file_block (copy_file 16 (7 ∷ 8 ∷ []) disk) 16 (p / 1024))
          (p % 1024)
        ≡ byte_at (7 ∷ 8 ∷ []) p)
    × ((block : ℕ)
        → 0 < block
        → in_use disk block ≡ true
        → (in_use (copy_file 16 (7 ∷ 8 ∷ []) disk) block ≡ true)
          × ((copy_file 16 (7 ∷ 8 ∷ []) disk).bytes block ≡ disk.bytes block))
copy_file-reads_example = copy_file-reads 16 (7 ∷ 8 ∷ []) disk (omega arith) room

copy_double-skips_example :
    (d' : Disk) × (copy_double 5 16 11 0 (reading (7 ∷ 8 ∷ []) disk)
      ≡ copy_double 4 16 11 1 (reading (skip 257 (7 ∷ 8 ∷ [])) d'))
    × (HasRoom d'
        → (k : ℕ) → k < 256
        → Holds d' (d'.pointers (find_free_block disk.image) (0 + k)) (skip k (7 ∷ 8 ∷ [])))
    × ((b : ℕ)
        → ((k : ℕ) → k < 256 → (d'.pointers (find_free_block disk.image) (0 + k) == b) ≡ false)
        → d'.bytes b ≡ disk.bytes b)
copy_double-skips_example = copy_double-skips 4 16 11 0 (7 ∷ 8 ∷ []) disk (omega arith)
