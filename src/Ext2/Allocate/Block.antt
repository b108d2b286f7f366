-- ===== src/Ext2/Allocate/Block.antt =====
-- What allocate_space_in_block of ext2general.c does to the entries of a block.
use kernel_programming_proje.Base.{
  ℕ, zero, suc, ◌+◌, ◌<◌, ◌≡◌, ◌≢◌, Bool, true, false, Option, ltb, arith, subst, inl, inr,
  Bool-cases, ltb→lt, lt→ltb, length, has,
}
use kernel_programming_proje.Ext2.Disk.{DirEntry, rounds, rounds-many}
use kernel_programming_proje.Ext2.Allocate.{
  NewEntry, fill, is_reusable, allocate_from, allocate_in_block,
}
use kernel_programming_proje.Ext2.Allocate.Slots.{
  slots, tiles, tiles-first, tiles-cons, tiles-inside, tiles-suc, slot_if_used, slots-cons,
  OneMore-append, Allocated, Spills-cons, Full-cons,
}
use kernel_programming_proje.Ext2.Allocate.Split.{fill-Allocated, split_entry-Allocated}

module _ (a : NewEntry) (whole : length a.file_name ≡ a.name_len)
    (no_nul : has 0 a.file_name ≡ false) (used : a.inode_num ≢ 0) where
  -- The entry before keeps its slot, and those behind it gain one.
  Allocated-cons :
      (n : ℕ) (f : ℕ → DirEntry) (p : ℕ) (r : Option (Bool × (ℕ → DirEntry)))
      → tiles (suc n) f p ≡ true
      → p < 1024
      → p + (f p).rec_len < 1024
      → is_reusable (f p) ≡ false
      → Allocated a n f (p + (f p).rec_len) r
      → Allocated a (suc n) f p r
  Allocated-cons n f p r tiled inside more taken (inl (e, spilt)) =
      inl (e, Spills-cons a n f p inside spilt)
  Allocated-cons n f p r tiled inside more taken (inr (inl (e, full))) =
      inr (inl (e, Full-cons a n f p more taken full))
  Allocated-cons n f p r tiled inside more taken (inr (inr (g, m, e, ok, one_more, same))) =
      let (long, on) = tiles-first n f p tiled inside in
      let here : g p ≡ f p = same p (omega arith) in
      inr (
        inr (
          g,
          suc m,
          e,
          tiles-cons m g p inside (rw here long) (rw here ok),
          rw (slots-cons n f p inside, slots-cons m g p inside, here)
              (OneMore-append (a.inode_num, a.file_type, a.file_name) (slot_if_used (f p))
                (slots n f (p + (f p).rec_len)) (slots m g (p + (f p).rec_len)) one_more),
          λ q lt. same q (omega arith),
        ))

  allocate_from-Allocated :
      (k n : ℕ) (f : ℕ → DirEntry) (p : ℕ)
      → tiles (suc n) f p ≡ true
      → p < 1024
      → 1024 < k + (p + (f p).rec_len)
      → is_reusable (f p) ≡ false
      → Allocated a (suc n) f p (allocate_from k a p (p + (f p).rec_len) f)
  unfolding allocate_from
  allocate_from-Allocated zero n f p tiled inside enough held =
      let (long, on) = tiles-first n f p tiled inside in
      let le = tiles-inside n f (p + (f p).rec_len) on in absurd (omega arith)
  allocate_from-Allocated (suc k) n f p tiled inside enough held =
      let (long, on) = tiles-first n f p tiled inside in
      let le = tiles-inside n f (p + (f p).rec_len) on in
      let fits : ltb (p + (f p).rec_len) 65536 ≡ true =
        lt→ltb (p + (f p).rec_len) 65536 (omega arith) in
      elim (Bool-cases (ltb (p + (f p).rec_len) 1024)) [
        | inr past ↦
            rw (allocate_from, fits, past)
              (split_entry-Allocated a whole no_nul used n f p tiled inside (ground arith) held)
        | inl more ↦
            let lt : p + (f p).rec_len < 1024 = ltb→lt (p + (f p).rec_len) 1024 more in
            let (m, e) = tiles-suc n f (p + (f p).rec_len) on lt in
            let on_suc : tiles (suc m) f (p + (f p).rec_len) ≡ true =
              subst (λ t. tiles t f (p + (f p).rec_len) ≡ true) e on in
            let (long_on, on_on) = tiles-first m f (p + (f p).rec_len) on_suc lt in
            elim (Bool-cases (is_reusable (f (p + (f p).rec_len)))) [
              | inl free ↦
                  rw (allocate_from, fits, more, free)
                    (Allocated-cons n f p (fill a (p + (f p).rec_len) f) tiled inside lt held (
                      rw e (
                        fill-Allocated a whole no_nul used m f (p + (f p).rec_len) on_suc lt free)))
              | inr taken ↦
                  rw (allocate_from, fits, more, taken)
                    (Allocated-cons n f p
                      (allocate_from k a (p + (f p).rec_len)
                        (p + (f p).rec_len + (f (p + (f p).rec_len)).rec_len) f)
                      tiled inside lt held
                      (rw e (
                        allocate_from-Allocated k m f (p + (f p).rec_len) on_suc lt (omega arith)
                          taken)))
            ]
      ]

  pub allocate_in_block-Allocated :
      (n : ℕ) (f : ℕ → DirEntry)
      → tiles (suc n) f 0 ≡ true
      → Allocated a (suc n) f 0 (allocate_in_block a f)
  unfolding allocate_in_block
  allocate_in_block-Allocated n f tiled =
      let start : 0 + (f 0).rec_len ≡ (f 0).rec_len = omega arith in
      elim (Bool-cases (is_reusable (f 0))) [
        | inl free ↦
            rw (allocate_in_block, free)
              (fill-Allocated a whole no_nul used n f 0 tiled (omega arith) free)
        | inr taken ↦
            rw (allocate_in_block, taken)
              (subst (λ t. Allocated a (suc n) f 0 (allocate_from rounds a 0 t f)) start
                (allocate_from-Allocated rounds n f 0 tiled (omega arith)
                  (omega (arith, rounds-many)) taken))
      ]
