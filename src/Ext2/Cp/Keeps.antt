-- ===== src/Ext2/Cp/Keeps.antt =====
-- Each round of ext2_cp.c writes to a block that was free, and blocks in use stay as they are.
use kernel_programming_proje.Base.{
  ℕ, ◌+◌, ◌-◌, ◌<◌, ◌≡◌, ◌≢◌, refl, sym, ap, subst, ◌∙◌, Bool, true, false, ◌==◌, put, arith, inl,
  inr, Bool-cases,
}
use kernel_programming_proje.Ext2.Bitmaps.{bit_at, find_free_block, update_bitmap, to_index}
use kernel_programming_proje.Ext2.Bitmaps.Laws.{update_bitmap-bit, find_free_block-least}
use kernel_programming_proje.Ext2.Disk.{Disk}

-- The bit of a block.
abbrev pub in_use : Disk → ℕ → Bool
in_use d block = bit_at d.image.blocks (to_index block)

-- Blocks in use are still in use, with the same bytes.
pub record Later (d d' : Disk) : Type 0 where
  pub count_same : d'.image.blocks.s_count ≡ d.image.blocks.s_count
  pub kept : (j : ℕ) → bit_at d.image.blocks j ≡ true → bit_at d'.image.blocks j ≡ true
  pub bytes_same : (block : ℕ) → 0 < block → in_use d block ≡ true → d'.bytes block ≡ d.bytes block

pub Later-refl : (d : Disk) → Later d d
Later-refl d = record { count_same = refl; kept = λ j h. h; bytes_same = λ block above h. refl }

pub Later-trans : (d d1 d2 : Disk) → Later d d1 → Later d1 d2 → Later d d2
Later-trans d d1 d2 l m = record {
  count_same = m.count_same ∙ l.count_same;
  kept = λ j h. m.kept j (l.kept j h);
  bytes_same = λ block above h.
      m.bytes_same block above (l.kept (to_index block) h) ∙ l.bytes_same block above h;
}

-- A free block is left.
abbrev pub HasRoom : Disk → Type 0
HasRoom d = find_free_block d.image ≢ 0

-- Where there is room later, a free block is found before.
pub earlier-HasRoom : (d d' : Disk) → Later d d' → HasRoom d' → HasRoom d
earlier-HasRoom d d' l room none_left = elim (find_free_block-least d.image) [
  | inr (f, e, lt, clear, all) ↦ absurd (omega arith)
  | inl (e, all) ↦ elim (find_free_block-least d'.image) [
    | inl (e', all') ↦ room e'
    | inr (f, e', lt, clear, all') ↦
        let same : bit_at d'.image.blocks f ≡ true =
          l.kept f (all f (ground (arith, l.count_same))) in
        ground arith
  ]
]

-- The block that is found is not in use.
free_block :
    (d : Disk) (block : ℕ)
    → 0 < block
    → in_use d block ≡ true
    → (find_free_block d.image == block) ≡ false
free_block d block above used = elim (find_free_block-least d.image) [
  | inl (e, all) ↦ ground arith
  | inr (f, e, lt, clear, all) ↦ elim (Bool-cases (f + 1 == block)) [
    | inl here ↦
        let at : f ≡ block - 1 = ground arith in
        absurd (ground (arith, ap (bit_at d.image.blocks) at))
    | inr away ↦ ground (arith, e)
  ]
]

no_block :
    (d : Disk)
    → find_free_block d.image ≡ 0
    → update_bitmap b'b' (find_free_block d.image) 1 d.image ≡ d.image
unfolding update_bitmap
no_block d none_left = rw (update_bitmap, none_left) refl

same_count :
    (d : Disk) (num : ℕ)
    → (update_bitmap b'b' num 1 d.image).blocks.s_count ≡ d.image.blocks.s_count
unfolding update_bitmap
same_count d num = ground arith

marked :
    (d : Disk) (j : ℕ)
    → bit_at d.image.blocks j ≡ true
    → bit_at (update_bitmap b'b' (find_free_block d.image) 1 d.image).blocks j ≡ true
marked d j used = elim (Bool-cases (find_free_block d.image == 0)) [
  | inl full ↦ subst (λ i. bit_at i.blocks j ≡ true) (sym (no_block d (ground arith))) used
  | inr found ↦
      (update_bitmap-bit b'b' (find_free_block d.image) 1 d.image j (ground arith)).0 ∙ ground arith
]

-- The block that is found is marked, and nothing is written to another block.
pub step-Later :
    (d d' : Disk) (w : ℕ → ℕ)
    → d'.image ≡ update_bitmap b'b' (find_free_block d.image) 1 d.image
    → ((block : ℕ) → d'.bytes block ≡ put d.bytes (find_free_block d.image) w block)
    → Later d d'
step-Later d d' w image bytes = record {
  count_same = ap (λ i. i.blocks.s_count) image ∙ same_count d (find_free_block d.image);
  kept = λ j used. subst (λ i. bit_at i.blocks j ≡ true) (sym image) (marked d j used);
  bytes_same = λ block above used. bytes block ∙ ground (arith, free_block d block above used);
}

-- The block is in use afterwards, if there was one.
pub step-in_use :
    (d d' : Disk)
    → d'.image ≡ update_bitmap b'b' (find_free_block d.image) 1 d.image
    → HasRoom d
    → (0 < find_free_block d.image) × (in_use d' (find_free_block d.image) ≡ true)
step-in_use d d' image room =
    let found : 0 < find_free_block d.image = ground arith in
    (
      found,
      ap (λ i. bit_at i.blocks (to_index (find_free_block d.image))) image
          ∙ (update_bitmap-bit b'b' (find_free_block d.image) 1 d.image
              (to_index (find_free_block d.image)) found).0
          ∙ ground arith,
    )
