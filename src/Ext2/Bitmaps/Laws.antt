-- ===== src/Ext2/Bitmaps/Laws.antt =====
-- What update_bitmap and find_free_inode of ext2general.c promise.
use kernel_programming_proje.Base.{
  ℕ, zero, suc, ◌+◌, ◌-◌, ◌/◌, ◌%◌, ◌^◌, ◌≤◌, ◌<◌, ◌≡◌, refl, true, false, not, ◌&&◌, leb, ◌==◌,
  if◌then◌else◌, arith, ◌⊎◌, inl, inr, Bool-cases,
}
use kernel_programming_proje.Word.Laws.{test_bit-set_bit, test_bit-clear_bit}
use kernel_programming_proje.Ext2.Bitmaps.{
  Bits, Image, bit_at, mark, update_bitmap, free_inode_from, find_free_inode, free_block_from,
  find_free_block,
}

-- The bitmap that a type selects.
abbrev pub bits : ℕ → Image → Bits
bits bitmap_type d = if bitmap_type == b'b' then d.blocks else d.inodes

-- The bitmap that a type does not select.
abbrev pub others : ℕ → Image → Bits
others bitmap_type d = if bitmap_type == b'b' then d.inodes else d.blocks

-- 1 for a number whose bit is clear.
abbrev pub free_of : Bits → ℕ → ℕ
free_of b num = if bit_at b (num - 1) then 0 else 1

positive : (num : ℕ) → 0 < num → (num == 0) ≡ false
positive num above = ground arith

mark-bit :
    (num value i : ℕ) (b : Bits)
    → 0 < num
    → bit_at (mark num value b) i ≡ (if i + 1 == num then not (value == 0) else bit_at b i)
mark-bit num value i b above = elim (Bool-cases (value == 0)) [
  | inl z ↦
      rw z (ground (arith, test_bit-clear_bit (b.bytes ((num - 1) / 8)) ((num - 1) % 8) (i % 8)))
  | inr nz ↦
      rw nz (ground (arith, test_bit-set_bit (b.bytes ((num - 1) / 8)) ((num - 1) % 8) (i % 8)))
]

mark-counts :
    (num value : ℕ) (b : Bits)
    → 0 < num
    → b.s_free_count + 1 < 2 ^ 32
    → b.bg_free_count + 1 < 2 ^ 16
    → free_of b num ≤ b.s_free_count
    → free_of b num ≤ b.bg_free_count
    → ((mark num value b).s_free_count + free_of b num
        ≡ b.s_free_count + free_of (mark num value b) num)
      × ((mark num value b).bg_free_count + free_of b num
          ≡ b.bg_free_count + free_of (mark num value b) num)
mark-counts num value b above s g fs fg = elim (Bool-cases (value == 0)) [
  | inl z ↦ rw z (ground (arith, mark-bit num value (num - 1) b above))
  | inr nz ↦ rw nz (ground (arith, mark-bit num value (num - 1) b above))
]

-- update_bitmap for a number above 0 gives that number's bit the value, true if it is not 0, in the
-- bitmap of the type, and leaves every other bit of that bitmap, and the other bitmap, as it was.
pub update_bitmap-bit :
    (bitmap_type num value : ℕ) (d : Image) (i : ℕ)
    → 0 < num
    → (bit_at (bits bitmap_type (update_bitmap bitmap_type num value d)) i
        ≡ (if i + 1 == num then not (value == 0) else bit_at (bits bitmap_type d) i))
      × (others bitmap_type (update_bitmap bitmap_type num value d) ≡ others bitmap_type d)
unfolding update_bitmap
update_bitmap-bit bitmap_type num value d i above = elim (Bool-cases (bitmap_type == b'b')) [
  | inl block ↦ rw (block, positive num above) (mark-bit num value i d.blocks above, refl)
  | inr inode ↦ rw (inode, positive num above) (mark-bit num value i d.inodes above, refl)
]

-- Together with the number's own bit, the free counts of the super block and of the group
-- descriptor that go with the bitmap stay the same, if a bit that is clear is counted as free and
-- the counts have room for one more.
pub update_bitmap-counts :
    (bitmap_type num value : ℕ) (d : Image)
    → 0 < num
    → (bits bitmap_type d).s_free_count + 1 < 2 ^ 32
    → (bits bitmap_type d).bg_free_count + 1 < 2 ^ 16
    → free_of (bits bitmap_type d) num ≤ (bits bitmap_type d).s_free_count
    → free_of (bits bitmap_type d) num ≤ (bits bitmap_type d).bg_free_count
    → ((bits bitmap_type (update_bitmap bitmap_type num value d)).s_free_count
          + free_of (bits bitmap_type d) num
        ≡ (bits bitmap_type d).s_free_count
          + free_of (bits bitmap_type (update_bitmap bitmap_type num value d)) num)
      × ((bits bitmap_type (update_bitmap bitmap_type num value d)).bg_free_count
            + free_of (bits bitmap_type d) num
          ≡ (bits bitmap_type d).bg_free_count
            + free_of (bits bitmap_type (update_bitmap bitmap_type num value d)) num)
unfolding update_bitmap
update_bitmap-counts bitmap_type num value d above s g fs fg =
    elim (Bool-cases (bitmap_type == b'b')) [
      | inl block ↦
          rw (block, positive num above)
            (mark-counts num value d.blocks above (rw block at s) (rw block at g) (rw block at fs)
              (rw block at fg))
      | inr inode ↦
          rw (inode, positive num above)
            (mark-counts num value d.inodes above (rw inode at s) (rw inode at g) (rw inode at fs)
              (rw inode at fg))
    ]

free_inode_from-least :
    (n i : ℕ) (b : Bits)
    → ((free_inode_from n i b ≡ 0) × ((j : ℕ) → i ≤ j → j < i + n → 11 ≤ j → bit_at b j ≡ true))
      ⊎ ((f : ℕ) × (free_inode_from n i b ≡ f + 1)
          × (11 ≤ f)
          × (i ≤ f)
          × (f < i + n)
          × (bit_at b f ≡ false)
          × ((j : ℕ) → i ≤ j → j < f → 11 ≤ j → bit_at b j ≡ true))
unfolding free_inode_from
free_inode_from-least zero i b = inl (refl, λ j lo hi le. absurd (omega arith))
free_inode_from-least (suc n) i b = elim (Bool-cases (leb 11 i && not (bit_at b i))) [
  | inl found ↦ inr (
    i,
    rw found refl,
    ground arith,
    omega arith,
    omega arith,
    ground arith,
    λ j lo hi le. absurd (omega arith),
  )
  | inr next ↦ elim (free_inode_from-least n (i + 1) b) [
    | inl (e, all) ↦ inl (
      rw next e,
      λ j lo hi le. elim (Bool-cases (i == j)) [
        | inl here ↦ ground arith
        | inr away ↦ all j (ground arith) (omega arith) le
      ],
    )
    | inr (f, e, a, lo, hi, clear, all) ↦ inr (
      f,
      rw next e,
      a,
      omega arith,
      omega arith,
      clear,
      λ j l h le. elim (Bool-cases (i == j)) [
        | inl here ↦ ground arith
        | inr away ↦ all j (ground arith) h le
      ],
    )
  ]
]

free_block_from-least :
    (n i : ℕ) (b : Bits)
    → ((free_block_from n i b ≡ 0) × ((j : ℕ) → i ≤ j → j < i + n → bit_at b j ≡ true))
      ⊎ ((f : ℕ) × (free_block_from n i b ≡ f + 1)
          × (i ≤ f)
          × (f < i + n)
          × (bit_at b f ≡ false)
          × ((j : ℕ) → i ≤ j → j < f → bit_at b j ≡ true))
unfolding free_block_from
free_block_from-least zero i b = inl (refl, λ j lo hi. absurd (omega arith))
free_block_from-least (suc n) i b = elim (Bool-cases (bit_at b i)) [
  | inr found ↦
      inr (i, rw found refl, omega arith, omega arith, found, λ j lo hi. absurd (omega arith))
  | inl next ↦ elim (free_block_from-least n (i + 1) b) [
    | inl (e, all) ↦ inl (
      rw next e,
      λ j lo hi. elim (Bool-cases (i == j)) [
        | inl here ↦ ground arith
        | inr away ↦ all j (ground arith) (omega arith)
      ],
    )
    | inr (f, e, lo, hi, clear, all) ↦ inr (
      f,
      rw next e,
      omega arith,
      omega arith,
      clear,
      λ j l h. elim (Bool-cases (i == j)) [
        | inl here ↦ ground arith
        | inr away ↦ all j (ground arith) h
      ],
    )
  ]
]

-- find_free_inode answers 0 only if every inode from number 12 to s_inodes_count is in use, and
-- otherwise the least number in that range whose bit is clear.
pub find_free_inode-least :
    (d : Image)
    → ((find_free_inode d ≡ 0)
        × ((j : ℕ) → j < d.inodes.s_count → 11 ≤ j → bit_at d.inodes j ≡ true))
      ⊎ ((f : ℕ) × (find_free_inode d ≡ f + 1)
          × (11 ≤ f)
          × (f < d.inodes.s_count)
          × (bit_at d.inodes f ≡ false)
          × ((j : ℕ) → j < f → 11 ≤ j → bit_at d.inodes j ≡ true))
unfolding find_free_inode
find_free_inode-least d = elim (free_inode_from-least d.inodes.s_count 0 d.inodes) [
  | inl (e, all) ↦ inl (e, λ j hi le. all j (omega arith) (omega arith) le)
  | inr (f, e, a, lo, hi, clear, all) ↦
      inr (f, e, a, omega arith, clear, λ j h le. all j (omega arith) h le)
]

-- find_free_block answers 0 only if every block from number 1 to s_blocks_count is in use, and
-- otherwise the least number in that range whose bit is clear.
pub find_free_block-least :
    (d : Image)
    → ((find_free_block d ≡ 0) × ((j : ℕ) → j < d.blocks.s_count → bit_at d.blocks j ≡ true))
      ⊎ ((f : ℕ) × (find_free_block d ≡ f + 1)
          × (f < d.blocks.s_count)
          × (bit_at d.blocks f ≡ false)
          × ((j : ℕ) → j < f → bit_at d.blocks j ≡ true))
unfolding find_free_block
find_free_block-least d = elim (free_block_from-least d.blocks.s_count 0 d.blocks) [
  | inl (e, all) ↦ inl (e, λ j hi. all j (omega arith) (omega arith))
  | inr (f, e, lo, hi, clear, all) ↦ inr (f, e, omega arith, clear, λ j h. all j (omega arith) h)
]
