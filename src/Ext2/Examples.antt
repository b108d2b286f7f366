-- ===== src/Ext2/Examples.antt =====
-- The theorems at a small image: 16 blocks of which the first 9 are in use, 32 inodes of which the
-- first 12 are.
use kernel_programming_proje.Base.{◌+◌, ◌≡◌, ◌==◌, if◌then◌else◌, arith}
use kernel_programming_proje.Ext2.Bitmaps.{Image, update_bitmap}
use kernel_programming_proje.Ext2.Bitmaps.Laws.{bits, free_of, update_bitmap-counts}

abbrev image : Image
image = record {
  blocks = record {
    bytes = λ i. if i == 0 then 255 else 1;
    s_free_count = 7;
    bg_free_count = 7;
    s_count = 16;
  };
  inodes = record {
    bytes = λ i. if i == 0 then 255 else if i == 1 then 15 else 0;
    s_free_count = 20;
    bg_free_count = 20;
    s_count = 32;
  };
}

update_bitmap-counts_example :
    ((bits b'b' (update_bitmap b'b' 10 1 image)).s_free_count + 1
      ≡ 7 + free_of (bits b'b' (update_bitmap b'b' 10 1 image)) 10)
    × ((bits b'b' (update_bitmap b'b' 10 1 image)).bg_free_count + 1
        ≡ 7 + free_of (bits b'b' (update_bitmap b'b' 10 1 image)) 10)
update_bitmap-counts_example =
    update_bitmap-counts b'b' 10 1 image (omega arith) (omega arith) (omega arith) (omega arith)
      (omega arith)
