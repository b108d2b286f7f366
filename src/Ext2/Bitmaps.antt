-- ===== src/Ext2/Bitmaps.antt =====
-- ext2general.c, lines 97 to 131 and 246 to 274: the bitmaps of the blocks and the inodes of an
-- image. The counts of the super block have 32 bits and those of the group descriptor 16.
pub mod Laws
use kernel_programming_proje.Base.{
  ℕ, zero, suc, ◌+◌, ◌-◌, ◌*◌, ◌/◌, ◌%◌, ◌^◌, Bool, true, false, not, ◌&&◌, leb, ◌==◌,
  if◌then◌else◌, put,
}
use kernel_programming_proje.Word.{test_bit, set_bit, clear_bit}

-- The bytes of a bitmap, with the free counts in the super block and in the group descriptor, and
-- the number of things that the super block counts.
pub record Bits : Type 0 where
  pub bytes : ℕ → ℕ
  pub s_free_count : ℕ
  pub bg_free_count : ℕ
  pub s_count : ℕ

-- The part of the image that the bitmaps take, for the blocks and for the inodes.
pub record Image : Type 0 where
  pub blocks : Bits
  pub inodes : Bits

-- TO_INDEX and TO_NUMBER.
abbrev pub to_index : ℕ → ℕ
to_index number = number - 1

abbrev pub to_number : ℕ → ℕ
to_number index = index + 1

abbrev pub bit_at : Bits → ℕ → Bool
bit_at b i = test_bit (b.bytes (i / 8)) (i % 8)

abbrev pub mark_used : ℕ → Bits → Bits
mark_used i b =
    let counted =
      if not (bit_at b i)
      then record b {
        s_free_count = (b.s_free_count + 2 ^ 32 - 1) % 2 ^ 32;
        bg_free_count = (b.bg_free_count + 2 ^ 16 - 1) % 2 ^ 16;
      }
      else b in
    record counted { bytes = put b.bytes (i / 8) (set_bit (b.bytes (i / 8)) (i % 8)) }

abbrev pub mark_free : ℕ → Bits → Bits
mark_free i b =
    let counted =
      if bit_at b i
      then record b {
        s_free_count = (b.s_free_count + 1) % 2 ^ 32;
        bg_free_count = (b.bg_free_count + 1) % 2 ^ 16;
      }
      else b in
    record counted { bytes = put b.bytes (i / 8) (clear_bit (b.bytes (i / 8)) (i % 8)) }

abbrev pub mark : ℕ → ℕ → Bits → Bits
mark num value b = if value == 0 then mark_free (to_index num) b else mark_used (to_index num) b

unfoldable pub update_bitmap : ℕ → ℕ → ℕ → Image → Image
update_bitmap bitmap_type num value d =
    if num == 0
    then d
    else if bitmap_type == b'b'
    then record d { blocks = mark num value d.blocks }
    else record d { inodes = mark num value d.inodes }

-- EXT2_GOOD_OLD_FIRST_INO.
abbrev pub first_ino : ℕ
first_ino = 11

-- The loop over the `n` indices from `i` on.
unfoldable pub free_inode_from : ℕ → ℕ → Bits → ℕ
free_inode_from zero i b = 0
free_inode_from (suc n) i b =
    let rest = free_inode_from n (i + 1) b in
    if leb first_ino i && not (bit_at b i) then to_number i else rest

unfoldable pub find_free_inode : Image → ℕ
unfolding free_inode_from
find_free_inode d = free_inode_from d.inodes.s_count 0 d.inodes

unfoldable pub free_block_from : ℕ → ℕ → Bits → ℕ
free_block_from zero i b = 0
free_block_from (suc n) i b =
    let rest = free_block_from n (i + 1) b in if not (bit_at b i) then to_number i else rest

unfoldable pub find_free_block : Image → ℕ
unfolding free_block_from
find_free_block d = free_block_from d.blocks.s_count 0 d.blocks
