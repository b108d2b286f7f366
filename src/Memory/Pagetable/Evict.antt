-- ===== src/Memory/Pagetable/Evict.antt =====
-- allocate_frame of pagetable.c: a free frame, or a victim's.
use kernel_programming_proje.Base.{
  ℕ, zero, suc, ◌+◌, ◌*◌, ◌%◌, ◌^◌, ◌≤◌, ◌<◌, ◌≡◌, refl, true, false, none, some, ◌==◌, After,
  After-map, After-bind, pos, negsuc, arith, ℤ, ◌⊎◌, inl, inr, Bool-cases, Option-cases, put, subst,
}
use kernel_programming_proje.Memory.Bitmap.{Bitmap}
use kernel_programming_proje.Memory.Bitmap.Laws.{IsWell}
use kernel_programming_proje.Memory.Bitmap.Refine.{
  Consumes, Consumes-same, Consumes-ends, Takes-Consumes, bitmap_alloc-Allocates,
}
use kernel_programming_proje.Memory.State.{
  pg_valid, pg_dirty, pg_onswap, has_flag, Device, Machine, Algorithm, Frame, without_flag, ◌>>=◌,
  ◌>>◌, when◌then◌else◌,
}
use kernel_programming_proje.Memory.Swap.{swap_pageout, is_invalid, write_page, to_int}
use kernel_programming_proje.Memory.Pagetable.{
  free_frame, write_back, count_dirty, set_swap_off, drop_flag,
}
use kernel_programming_proje.Memory.Pagetable.Coherent.{is_offset, Supply, Serves}

-- Behind write_back only the victim's entry differs, which is not valid any more, and the count of
-- the dirty evictions, and the swap file.
pub record Written {F A : Type 0} (v : ℕ) (s s' : Machine F A) : Type 0 where
  pub coremap_same : s'.coremap ≡ s.coremap
  pub pgdir_same : s'.pgdir ≡ s.pgdir
  pub alg_same : s'.alg ≡ s.alg
  pub physmem_same : s'.physmem ≡ s.physmem
  pub hit_same : s'.hit_count ≡ s.hit_count
  pub miss_same : s'.miss_count ≡ s.miss_count
  pub ref_same : s'.ref_count ≡ s.ref_count
  pub clean_same : s'.evict_clean_count ≡ s.evict_clean_count
  pub errors_same : s'.errors ≡ s.errors
  pub dirty_next : s'.evict_dirty_count ≡ s.evict_dirty_count + 1
  pub well : IsWell s'.swapmap
  pub size_same : s'.swapmap.nbits ≡ s.swapmap.nbits
  pub taken : Consumes s.swapmap s'.swapmap
  pub others_same : (q : ℕ) → (v == q) ≡ false → s'.ptes q ≡ s.ptes q
  pub gone : has_flag pg_valid (s'.ptes v) ≡ false
  pub offswap : has_flag pg_onswap (s'.ptes v) ≡ false
  pub offset : is_offset (s'.ptes v).swap_off ≡ true

pub free_frame-cases :
    (n i : ℕ) (c : ℕ → Frame)
    → ((free_frame n i c ≡ none) × ((f : ℕ) → i ≤ f → f < i + n → (c f).in_use ≡ true))
      ⊎ ((f : ℕ) × (free_frame n i c ≡ some f) × (f < i + n) × ((c f).in_use ≡ false))
unfolding free_frame
free_frame-cases zero i c = inl (refl, λ f a b. absurd (omega arith))
free_frame-cases (suc n) i c = elim (Bool-cases (c i).in_use) [
  | inr free ↦ inr (i, rw free, omega arith, free)
  | inl used ↦ elim (free_frame-cases n (i + 1) c) [
    | inl (e, all) ↦ inl (
      rw used e,
      λ f a b. elim (Bool-cases (i == f)) [
        | inl here ↦ ground arith
        | inr later ↦ all f (ground arith) (omega arith)
      ],
    )
    | inr (f, e, lt, free) ↦ inr (f, rw used e, omega arith, free)
  ]
]

to_int-small : (i : ℕ) → i < 2 ^ 27 → to_int (i * 16 % 2 ^ 32) ≡ pos (i * 16)
to_int-small i h = ground arith

module _ {F A : Type 0} (dev : Device F) (writes : Serves dev) where
  pub Supply-same : (s s' : Machine F A) → s'.swapmap ≡ s.swapmap → Supply dev s → Supply dev s'
  Supply-same s s' e room = record {
    well = rw e room.well;
    fits = rw e room.fits;
    slot = room.slot;
    inside = rw e room.inside;
    open_slot = rw e room.open_slot;
  }

  -- What swap_pageout does when it has room.
  abbrev PagedOut : Machine F A → ℤ → Machine F A → Type 0
  PagedOut s o s' =
      (is_invalid o ≡ false)
      × (is_offset o ≡ true)
      × IsWell s'.swapmap
      × (s'.swapmap.nbits ≡ s.swapmap.nbits)
      × Consumes s.swapmap s'.swapmap
      × (s' ≡ record s { file = s'.file; swapmap = s'.swapmap })

  write_page-Paged :
      (s : Machine F A) (f : ℕ) (o : ℤ) {n : ℕ}
      → o ≡ pos n
      → After
          (λ o s'.
            (is_invalid o ≡ false) × (is_offset o ≡ true) × (s' ≡ record s { file = s'.file }))
          (write_page dev f o s)
  write_page-Paged s f (negsuc k) e = cc
  write_page-Paged s f (pos n) h = elim (Option-cases (dev.write s.file (pos n) (s.physmem f))) [
    | inl e ↦ absurd (writes.0 s.file n (s.physmem f) e)
    | inr (file, e) ↦ rw e (refl, refl, refl)
  ]

  -- From the write on, with the slots `map`.
  write_page-PagedOut :
      (s : Machine F A) (map : Bitmap) (f : ℕ) (o : ℤ) {n : ℕ}
      → o ≡ pos n
      → IsWell map
      → map.nbits ≡ s.swapmap.nbits
      → Consumes s.swapmap map
      → After (PagedOut s) (write_page dev f o (record s { swapmap = map }))
  write_page-PagedOut s map f o h w size takes =
      After-map _ (PagedOut s) (write_page dev f o (record s { swapmap = map }))
        (write_page-Paged (record s { swapmap = map }) f o h)
        λ o s' (a, b, e). (
          a,
          b,
          subst IsWell (ground (arith, e)) w,
          ground (arith, e, size),
          Consumes-ends refl (ground (arith, e)) takes,
          ground (arith, e),
        )

  new_slot-PagedOut :
      (s : Machine F A) (f : ℕ)
      → Supply dev s
      → After (PagedOut s) (swap_pageout dev f (negsuc 0) s)
  unfolding swap_pageout
  new_slot-PagedOut s f room = elim (bitmap_alloc-Allocates s.swapmap room.well) [
    | inl (full, e) ↦ absurd (ground (arith, full room.slot room.inside, room.open_slot))
    | inr (i, map, takes, e) ↦
        rw (e, swap_pageout)
          (write_page-PagedOut s map f (to_int (i * 16 % 2 ^ 32))
            (to_int-small i (omega (arith, takes.inside, room.fits))) takes.well takes.same
            (Takes-Consumes s.swapmap i map takes))
  ]

  swap_pageout-PagedOut :
      (s : Machine F A) (f : ℕ) (o : ℤ)
      → Supply dev s
      → is_offset o ≡ true
      → After (PagedOut s) (swap_pageout dev f o s)
  unfolding swap_pageout
  swap_pageout-PagedOut s f (pos n) room h =
      write_page-PagedOut s s.swapmap f (pos n) refl room.well refl
        (Consumes-same s.swapmap s.swapmap refl)
  swap_pageout-PagedOut s f (negsuc zero) room h = new_slot-PagedOut s f room
  swap_pageout-PagedOut s f (negsuc (suc n)) room h = absurd (ground arith)

  -- The same, while the entry is still valid.
  abbrev Mid : ℕ → Machine F A → Unit {0} → Machine F A → Type 0
  Mid v s u s' =
      (s'.coremap ≡ s.coremap)
      × (s'.pgdir ≡ s.pgdir)
      × (s'.alg ≡ s.alg)
      × (s'.physmem ≡ s.physmem)
      × (s'.hit_count ≡ s.hit_count)
      × (s'.miss_count ≡ s.miss_count)
      × (s'.ref_count ≡ s.ref_count)
      × (s'.evict_clean_count ≡ s.evict_clean_count)
      × (s'.errors ≡ s.errors)
      × (s'.evict_dirty_count ≡ s.evict_dirty_count + 1)
      × IsWell s'.swapmap
      × (s'.swapmap.nbits ≡ s.swapmap.nbits)
      × Consumes s.swapmap s'.swapmap
      × ((q : ℕ) → (v == q) ≡ false → s'.ptes q ≡ s.ptes q)
      × (has_flag pg_onswap (s'.ptes v) ≡ false)
      × (is_offset (s'.ptes v).swap_off ≡ true)

  -- From the call of swap_pageout on, with the machine `s1` in which the victim is not dirty.
  paged-Written :
      (f v : ℕ) (s s1 : Machine F A)
      → Supply dev s
      → is_offset (s.ptes v).swap_off ≡ true
      → has_flag pg_onswap (s1.ptes v) ≡ false
      → ((q : ℕ) → (v == q) ≡ false → s1.ptes q ≡ s.ptes q)
      → s1 ≡ record s { ptes = s1.ptes }
      → After
          (λ _ s'. Written v s s')
          (((swap_pageout dev f (s.ptes v).swap_off >>= λ success.
                count_dirty
                >> (when is_invalid success then (λ s. none) else set_swap_off v success))
              >> drop_flag pg_valid v)
            s1)
  paged-Written f v s s1 room ho off same e =
      After-bind (Mid v s) (λ _ s'. Written v s s') _ _
        (After-bind (PagedOut s1) (Mid v s) (swap_pageout dev f (s.ptes v).swap_off s1) _
          (swap_pageout-PagedOut s1 f (s.ptes v).swap_off
            (Supply-same s s1 (ground (arith, e)) room) ho)
          λ o s2 h. ground (arith, e))
        λ u s3 h. ground arith

  pub write_back-Written :
      (m : ℕ) (alg : Algorithm F A) (f v : ℕ) (s : Machine F A)
      → Supply dev s
      → is_offset (s.ptes v).swap_off ≡ true
      → has_flag pg_onswap (s.ptes v) ≡ false
      → After (λ _ s'. Written v s s') (write_back m dev alg f v s)
  unfolding write_back
  write_back-Written m alg f v s room ho off = elim (Bool-cases (has_flag pg_dirty (s.ptes v))) [
    | inl d ↦
        rw (off, d)
          (paged-Written f v s (record s { ptes = put s.ptes v (without_flag pg_dirty (s.ptes v)) })
            room ho (ground arith) (λ q ne. ground arith) refl)
    | inr d ↦ rw (off, d) (paged-Written f v s s room ho off (λ q ne. refl) refl)
  ]
