-- ===== src/Ext2/Allocate/Split.antt =====
-- How allocate_space_in_block of ext2general.c fills an unused entry and splits the last one.
use kernel_programming_proje.Base.{
  ℕ, suc, ◌+◌, ◌-◌, ◌*◌, ◌≤◌, ◌<◌, ◌≡◌, ◌≢◌, refl, ap, ◌∙◌, true, false, [], ◌∷◌, ◌++◌, ltb, leb,
  ◌==◌, put, arith, sym, subst, inl, inr, Bool-cases, ltb→lt, ne→==, length, has,
}
use kernel_programming_proje.Ext2.Disk.{DirEntry}
use kernel_programming_proje.Ext2.Names.{string_from}
use kernel_programming_proje.Ext2.Allocate.{
  NewEntry, per_four_bytes, filled_entry, fill, is_reusable, split_at, split_entry,
}
use kernel_programming_proje.Ext2.Allocate.Slots.{
  slot, slots, tiles, OneMore, put_same, put_other, slots-agree, string_from-name, tiles-first,
  tiles-cons, tiles-end, split-room, Full-last, rounded, per_four_bytes-rounded, offsets-first,
  slot_if_used, slots-cons, Allocated,
}

module _ (a : NewEntry) (whole : length a.file_name ≡ a.name_len)
    (no_nul : has 0 a.file_name ≡ false) (used : a.inode_num ≢ 0) where
  filled_entry-slot :
      (e : DirEntry) → slot (filled_entry a e) ≡ (a.inode_num, a.file_type, a.file_name)
  filled_entry-slot e =
      ap (λ t. (a.inode_num, a.file_type, t))
        (ap (λ n. string_from n 0 (filled_entry a e).name) (sym whole)
          ∙ string_from-name a.file_name 0 (filled_entry a e).name no_nul (λ j lt. ground arith))

  -- The new entry, once it stands in the block, adds its slot to those that follow.
  new-OneMore :
      (n m : ℕ) (f g : ℕ → DirEntry) (p : ℕ) (e : DirEntry)
      → p < 1024
      → g p ≡ filled_entry a e
      → slots n f (p + e.rec_len) ≡ slots m g (p + e.rec_len)
      → slots (suc m) g p ≡ (a.inode_num, a.file_type, a.file_name) ∷ slots n f (p + e.rec_len)
  new-OneMore n m f g p e inside here same =
      let live : (a.inode_num == 0) ≡ false = ne→== a.inode_num 0 used in
      slots-cons m g p inside ∙ rw (here, live, filled_entry-slot e, same) refl

  pub fill-Allocated :
      (n : ℕ) (f : ℕ → DirEntry) (p : ℕ)
      → tiles (suc n) f p ≡ true
      → p < 1024
      → is_reusable (f p) ≡ true
      → Allocated a (suc n) f p (fill a p f)
  fill-Allocated n f p tiled inside free = elim (Bool-cases (ltb (f p).rec_len (8 + a.name_len))) [
    | inl small ↦ rw small (
        inl (
          refl,
          (
            p,
            offsets-first n f p inside,
            inl (record {
              unused = ground (arith, free);
              long =
                  subst (λ t. t ≤ (f p).rec_len) (per_four_bytes-rounded (8 + (f p).name_len))
                    (ground (arith, free));
              short = ltb→lt (f p).rec_len (8 + a.name_len) small;
            }),
          ),
        ))
    | inr room ↦
        let g : ℕ → DirEntry = put f p (filled_entry a (f p)) in
        let here : g p ≡ filled_entry a (f p) = put_same f p (filled_entry a (f p)) in
        let away : (q : ℕ) → p ≢ q → g q ≡ f q =
          λ q ne. put_other f p q (filled_entry a (f p)) ne in
        let (long, rest) = tiles-first n f p tiled inside in
        let (same, tiled_on) =
          slots-agree n f g (p + (f p).rec_len) (λ q le. away q (λ e. omega arith)) in
        let unused : ((f p).inode == 0) ≡ true = ground arith in
        let before : slots (suc n) f p ≡ slots n f (p + (f p).rec_len) =
          slots-cons n f p inside ∙ rw unused refl in
        rw room (
          inr (
            inr (
              g,
              suc n,
              refl,
              tiles-cons n g p inside (rw here long) (rw here (tiled_on ∙ rest)),
              (
                [],
                slots n f (p + (f p).rec_len),
                before,
                new-OneMore n n f g p (f p) inside here (sym same),
              ),
              λ q lt. away q (λ e. omega arith),
            )))
  ]

  ends_block :
      (n : ℕ) (f : ℕ → DirEntry) (p : ℕ)
      → tiles (suc n) f p ≡ true
      → p < 1024
      → 1024 ≤ p + (f p).rec_len
      → p + (f p).rec_len ≡ 1024
  ends_block n f p tiled inside last =
      let (long, on) = tiles-first n f p tiled inside in
      let (none_behind, at_end) = tiles-end n f (p + (f p).rec_len) last in
      ground (arith, sym at_end ∙ on)

  -- A block in which the last entry is cut and the new entry stands behind it.
  split-OneMore :
      (n : ℕ) (f g : ℕ → DirEntry) (p kept : ℕ) (e : DirEntry)
      → tiles (suc n) f p ≡ true
      → p < 1024
      → 1024 ≤ p + (f p).rec_len
      → 8 ≤ kept
      → kept + 8 ≤ (f p).rec_len
      → e.rec_len ≡ (f p).rec_len - kept
      → g p ≡ record (f p) { rec_len = kept }
      → g (p + kept) ≡ filled_entry a e
      → (tiles (suc (suc n)) g p ≡ true)
        × OneMore
            (a.inode_num, a.file_type, a.file_name)
            (slots (suc n) f p)
            (slots (suc (suc n)) g p)
  split-OneMore n f g p kept e tiled inside last long more rest cut new =
      let (l, on) = tiles-first n f p tiled inside in
      let (none_behind, at_end) = tiles-end n f (p + (f p).rec_len) last in
      let whole_block : p + (f p).rec_len ≡ 1024 = ends_block n f p tiled inside last in
      let final : p + kept + e.rec_len ≡ 1024 = omega arith in
      let (nil, at_end_f) = tiles-end n f (p + kept + e.rec_len) (omega arith) in
      let (none_left, at_end_g) = tiles-end n g (p + kept + e.rec_len) (omega arith) in
      let ends : tiles n g (p + kept + e.rec_len) ≡ true = at_end_g ∙ ground arith in
      (
        tiles-cons (suc n) g p inside (rw cut long)
            (rw cut (tiles-cons n g (p + kept) (omega arith) (rw new (omega arith)) (rw new ends))),
        (
          slot_if_used (f p),
          [],
          slots-cons n f p inside ∙ ap (λ t. slot_if_used (f p) ++ t) none_behind,
          slots-cons (suc n) g p inside
              ∙ rw cut (
                  ap (λ t. slot_if_used (f p) ++ t)
                    (new-OneMore n n f g (p + kept) e (omega arith) new (nil ∙ sym none_left)
                      ∙ ap (λ t. (a.inode_num, a.file_type, a.file_name) ∷ t) nil)),
        ),
      )

  split_at-Allocated :
      (n : ℕ) (f : ℕ → DirEntry) (p kept : ℕ)
      → tiles (suc n) f p ≡ true
      → p < 1024
      → 1024 ≤ p + (f p).rec_len
      → 8 ≤ kept
      → kept + 8 ≤ (f p).rec_len
      → kept ≡ rounded (8 + (f p).name_len)
      → rounded (16 + a.name_len + (f p).name_len) ≤ (f p).rec_len
      → Allocated a (suc n) f p (split_at a p kept f)
  split_at-Allocated n f p kept tiled inside last long more is together =
      let e1 : DirEntry = record (f p) { rec_len = kept } in
      let cut : ℕ → DirEntry = put f p e1 in
      let e2 : DirEntry = record (cut (p + kept)) { rec_len = (f p).rec_len - kept } in
      let f2 : ℕ → DirEntry = put cut (p + kept) e2 in
      let at_dir : f2 (p + kept) ≡ e2 = put_same cut (p + kept) e2 in
      elim (Bool-cases (ltb (f2 (p + kept)).rec_len (8 + a.name_len))) [
        | inl small ↦
            let less : (f p).rec_len - kept < 8 + a.name_len =
              ltb→lt ((f p).rec_len - kept) (8 + a.name_len) (rw at_dir at small) in
            rw small (
              inl (
                refl,
                (
                  p,
                  offsets-first n f p inside,
                  inr (record {
                    last = ends_block n f p tiled inside last;
                    together = together;
                    apart =
                        subst (λ t. (f p).rec_len < t + (8 + a.name_len)) is (omega (arith, less));
                  }),
                ),
              ))
        | inr fits ↦
            let g : ℕ → DirEntry = put f2 (p + kept) (filled_entry a (f2 (p + kept))) in
            let behind : (q : ℕ) → q < p + kept → g q ≡ cut q = λ q lt.
              put_other f2 (p + kept) q (filled_entry a (f2 (p + kept))) (λ e. omega arith)
              ∙ put_other cut (p + kept) q e2 (λ e. omega arith) in
            let (ok, one_more) =
              split-OneMore n f g p kept e2 tiled inside last long more refl
                (behind p (omega arith) ∙ put_same f p e1)
                (put_same f2 (p + kept) (filled_entry a (f2 (p + kept)))
                  ∙ ap (filled_entry a) at_dir) in
            rw fits (
              inr (
                inr (
                  g,
                  suc (suc n),
                  refl,
                  ok,
                  one_more,
                  λ q lt. behind q (omega arith) ∙ put_other f p q e1 (λ e. omega arith),
                )))
      ]

  -- The last entry is split: its own length is what its name takes, and the new entry has the rest.
  pub split_entry-Allocated :
      (n : ℕ) (f : ℕ → DirEntry) (p : ℕ)
      → tiles (suc n) f p ≡ true
      → p < 1024
      → 1024 ≤ p + (f p).rec_len
      → is_reusable (f p) ≡ false
      → Allocated a (suc n) f p (split_entry a p f)
  unfolding split_entry
  split_entry-Allocated n f p tiled inside last taken =
      elim (Bool-cases
        (leb (per_four_bytes (16 + a.name_len + (f p).name_len) * 4) (f p).rec_len)) [
          | inr no_room ↦
              rw (split_entry, no_room)
                (inr (
                  inl (
                    refl,
                    Full-last a n f p last taken (
                        subst (λ t. (f p).rec_len < t)
                          (per_four_bytes-rounded (16 + a.name_len + (f p).name_len))
                          (ground (arith, no_room))),
                  )))
          | inl room ↦
              let (long, more) =
                split-room a.name_len (f p).name_len (f p).rec_len (ground arith) in
              rw (split_entry, room)
                (split_at-Allocated n f p (per_four_bytes (8 + (f p).name_len) * 4) tiled inside
                  last long more (per_four_bytes-rounded (8 + (f p).name_len))
                  (subst (λ t. t ≤ (f p).rec_len)
                    (per_four_bytes-rounded (16 + a.name_len + (f p).name_len))
                    (ground (arith, room))))
        ]
