-- ===== src/Memory/Pagetable/Allocate.antt =====
-- allocate_frame of pagetable.c keeps the coremap and the page tables in agreement, but for the
-- frame that it hands out.
use kernel_programming_proje.Base.{
  ℕ, ◌+◌, ◌≤◌, ◌<◌, ◌≡◌, refl, Bool, true, false, not, ◌&&◌, none, some, ◌==◌, After, After-bind,
  arith, inl, inr, Bool-cases, Option-cases, put,
}
use kernel_programming_proje.Memory.Bitmap.Laws.{IsWell}
use kernel_programming_proje.Memory.Bitmap.Refine.{Consumes, Consumes-same, Consumes-ends}
use kernel_programming_proje.Memory.State.{
  ◌>>=◌, ◌>>◌, pure, pg_valid, has_flag, frame_number, Device, Machine, Algorithm,
}
use kernel_programming_proje.Memory.Pagetable.{write_back, evict_page, occupy, allocate_frame}
use kernel_programming_proje.Memory.Pagetable.Evict.{
  Written, write_back-Written, free_frame-cases, Supply-same,
}
use kernel_programming_proje.Memory.Pagetable.Coherent.{
  owner, in_use, Agree, Coherent, Reserved, Steady, Lawful, Supply, Serves,
}

module _ {F A : Type 0} (m : ℕ) (s s1 : Machine F A) (d : Steady s s1) where
  pub Agree-Steady : (x : ℕ → Bool) → Agree m s x → Agree m s1 x
  Agree-Steady x a = record {
    range = λ f h. ground (arith, d.in_use_same f, a.range f);
    held = λ f e h. ground (arith, d.in_use_same f, d.pte_same f, a.held f);
    live =
        λ f e h. ground (arith, d.in_use_same f, d.pte_same f, d.valid_same (owner s f), a.live f);
    named = λ f e h.
        ground (arith, d.in_use_same f, d.pte_same f, d.number_same (owner s f), a.named f);
    placed = λ p h. ground (
      arith,
      d.valid_same p,
      d.number_same p,
      d.in_use_same (frame_number (s.ptes p)),
      a.placed p,
    );
    back = λ p h.
        ground
          (arith, d.valid_same p, d.number_same p, d.pte_same (frame_number (s.ptes p)), a.back p);
    apart = λ p h. ground (arith, d.valid_same p, d.number_same p, a.apart p);
    offsets = λ p. ground (arith, d.swap_off_same p, a.offsets p);
    offswap = λ p. ground (arith, d.onswap_same p, a.offswap p);
    mapped = λ p h. ground (arith, d.valid_same p, d.pgdir_same, a.mapped p);
  }

module _ {F A : Type 0} (m f v p : ℕ) (s s2 : Machine F A) (a : Coherent m s) (w : Written v s s2)
    (e : (s.coremap f).pte ≡ some v) (used : in_use s f ≡ true)
    (absent : has_flag pg_valid (s.ptes p) ≡ false) where
  abbrev taken : Machine F A
  taken = record s2 {
    coremap = put s2.coremap f (record (s2.coremap f) { in_use = true; pte = some p });
  }

  evicted-Reserved : Reserved m taken f p
  evicted-Reserved = record {
    agree = record {
      range = λ g h. ground (arith, w.coremap_same, a.range g, a.range f);
      held = λ g x h. ground (arith, w.coremap_same, a.held g);
      live = λ g x h.
          ground
            (arith, w.coremap_same, a.live g, w.others_same (owner s g), a.named g, a.named f, e);
      named = λ g x h.
          ground (arith, w.coremap_same, a.named g, w.others_same (owner s g), a.named f, e);
      placed =
          λ q h. ground (arith, w.coremap_same, w.others_same q, w.gone, a.placed q, a.back q, e);
      back =
          λ q h. ground (arith, w.coremap_same, w.others_same q, w.gone, a.placed q, a.back q, e);
      apart =
          λ q h. ground (arith, w.coremap_same, w.others_same q, w.gone, a.placed q, a.back q, e);
      offsets = λ q. ground (arith, w.others_same q, w.offset, a.offsets q);
      offswap = λ q. ground (arith, w.others_same q, w.offswap, a.offswap q);
      mapped = λ q h. ground (arith, w.pgdir_same, w.others_same q, w.gone, a.mapped q);
    };
    busy = ground arith;
    mine = ground arith;
    absent = ground (arith, w.others_same p, w.gone);
  }

-- What allocate_frame promises: a frame below memsize, kept for the entry `p`, with everything else
-- in agreement; the algorithm tracks the other frames in use; no counter but that of the dirty
-- evictions changes, and the simulated memory does not.
pub record Allocated {F A : Type 0} {m : ℕ} {alg : Algorithm F A} (laws : Lawful m alg)
    (s : Machine F A) (p f : ℕ) (s' : Machine F A) : Type 0 where
  pub range : f < m
  pub reserved : Reserved m s' f p
  pub tracks : laws.Tracks s' (λ g. in_use s' g && not (g == f))
  pub pgdir_same : s'.pgdir ≡ s.pgdir
  pub physmem_same : s'.physmem ≡ s.physmem
  pub hit_same : s'.hit_count ≡ s.hit_count
  pub miss_same : s'.miss_count ≡ s.miss_count
  pub ref_same : s'.ref_count ≡ s.ref_count
  pub clean_same : s'.evict_clean_count ≡ s.evict_clean_count
  pub errors_same : s'.errors ≡ s.errors
  pub dirty_next : s'.evict_dirty_count ≤ s.evict_dirty_count + 1
  pub well : IsWell s'.swapmap
  pub size_same : s'.swapmap.nbits ≡ s.swapmap.nbits
  pub taken : Consumes s.swapmap s'.swapmap

module _ {F A : Type 0} (m : ℕ) (dev : Device F) (alg : Algorithm F A) (laws : Lawful m alg)
    (writes : Serves dev) where
  module _ (s : Machine F A) (p : ℕ) (a : Coherent m s) (t : laws.Tracks s (in_use s))
      (room : Supply dev s) (absent : has_flag pg_valid (s.ptes p) ≡ false) where
    free-Allocated :
        (f : ℕ) → f < m → in_use s f ≡ false → After (Allocated laws s p) (occupy f p s)
    free-Allocated f lt free = record {
      range = lt;
      reserved = record {
        agree = record {
          range = λ g h. ground (arith, a.range g);
          held = λ g x h. ground (arith, a.held g);
          live = λ g x h. ground (arith, a.live g);
          named = λ g x h. ground (arith, a.named g);
          placed = λ q h. ground (arith, a.placed q);
          back = λ q h. ground (arith, a.placed q, a.back q);
          apart = λ q h. ground (arith, a.placed q);
          offsets = a.offsets;
          offswap = a.offswap;
          mapped = a.mapped;
        };
        busy = ground arith;
        mine = ground arith;
        absent = absent;
      };
      tracks =
          laws.stable s _ (in_use s) _
            (record {
              alg_same = refl;
              next_same = λ g. ground arith;
              previous_same = λ g. ground arith;
            })
            (λ g. ground arith) t;
      pgdir_same = refl;
      physmem_same = refl;
      hit_same = refl;
      miss_same = refl;
      ref_same = refl;
      clean_same = refl;
      errors_same = refl;
      dirty_next = omega arith;
      well = room.well;
      size_same = refl;
      taken = Consumes-same s.swapmap s.swapmap refl;
    }

    victim-Allocated :
        (f v : ℕ) (s1 s2 : Machine F A)
        → f < m
        → ((g : ℕ) → g < m → in_use s g ≡ true)
        → Steady s s1
        → laws.Tracks s1 (λ g. in_use s g && not (g == f))
        → (s1.coremap f).pte ≡ some v
        → Written v s1 s2
        → After (Allocated laws s p) (occupy f p s2)
    victim-Allocated f v s1 s2 lt full d t1 e w = record {
      range = lt;
      reserved =
          evicted-Reserved m f v p s1 s2 (Agree-Steady m s s1 d (λ g. false) a) w e
            (ground (arith, d.in_use_same f, full f)) (ground (arith, d.valid_same p));
      tracks =
          laws.stable s1 _ (λ g. in_use s g && not (g == f)) _
            (record {
              alg_same = w.alg_same;
              next_same = λ g. ground (arith, w.coremap_same);
              previous_same = λ g. ground (arith, w.coremap_same);
            })
            (λ g. ground (arith, w.coremap_same, d.in_use_same g)) t1;
      pgdir_same = ground (arith, w.pgdir_same, d.pgdir_same);
      physmem_same = ground (arith, w.physmem_same, d.physmem_same);
      hit_same = ground (arith, w.hit_same, d.hit_same);
      miss_same = ground (arith, w.miss_same, d.miss_same);
      ref_same = ground (arith, w.ref_same, d.ref_same);
      clean_same = ground (arith, w.clean_same, d.clean_same);
      errors_same = ground (arith, w.errors_same, d.errors_same);
      dirty_next = ground (arith, w.dirty_next, d.dirty_same);
      well = w.well;
      size_same = ground (arith, w.size_same, d.swapmap_same);
      taken = Consumes-ends d.swapmap_same refl w.taken;
    }

    -- The run of evict_page behind the choice of the victim `f`.
    abbrev Evicted : ℕ → Machine F A → Type 0
    Evicted f s2 =
        (f < m)
        × (v : ℕ) × (s1 : Machine F A) × Steady s s1
        × laws.Tracks s1 (λ g. in_use s g && not (g == f))
        × ((s1.coremap f).pte ≡ some v)
        × Written v s1 s2

    victim-Written :
        (f : ℕ) (s1 : Machine F A)
        → ((g : ℕ) → g < m → in_use s g ≡ true)
        → f < m
        → Steady s s1
        → laws.Tracks s1 (λ g. in_use s g && not (g == f))
        → After Evicted (elim (s1.coremap f).pte [
          | none ↦ none
          | some v ↦ (write_back m dev alg f v >> pure f) s1
        ])
    victim-Written f s1 full lt d t1 = elim (Option-cases (s1.coremap f).pte) [
      | inl e ↦ absurd (ground (arith, a.held f, full f, d.pte_same f))
      | inr (v, e) ↦ rw e (
          After-bind (λ _ s2. Written v s1 s2) Evicted (write_back m dev alg f v s1) _
            (write_back-Written dev writes m alg f v s1
              (Supply-same dev writes s s1 d.swapmap_same room)
              (ground (arith, a.offsets v, d.swap_off_same v))
              (ground (arith, a.offswap v, d.onswap_same v)))
            λ _ s2 w. (lt, v, s1, d, t1, e, w))
    ]

    full-Allocated :
        ((g : ℕ) → g < m → in_use s g ≡ true)
        → 0 < m
        → After (Allocated laws s p) ((evict_page m dev alg >>= λ f. occupy f p) s)
    unfolding evict_page
    full-Allocated full some_frame =
        After-bind Evicted (Allocated laws s p) _ (λ f. occupy f p)
          (After-bind
            (λ f s1. (f < m) × Steady s s1 × laws.Tracks s1 (λ g. in_use s g && not (g == f))) _
            (alg.evict s) _
            (laws.evict_law s (in_use s) some_frame t
              (λ g. elim (Bool-cases (in_use s g)) [
                | inl u ↦ ground (arith, a.range g)
                | inr u ↦ ground (arith, full g)
              ])
              (λ g h. a.held g refl (full g h)) (λ g h. a.named g refl (full g h)))
            λ f s1 (lt, d, t1). victim-Written f s1 full lt d t1)
          λ f s2 (lt, v, s1, d, t1, e, w). victim-Allocated f v s1 s2 lt full d t1 e w

    -- The frame is free, or the algorithm's choice.
    pub allocate_frame-Allocated : 0 < m → After (Allocated laws s p) (allocate_frame m dev alg p s)
    unfolding allocate_frame
    allocate_frame-Allocated some_frame = elim (free_frame-cases m 0 s.coremap) [
      | inl (e, full) ↦
          rw (e, allocate_frame)
            (full-Allocated (λ g h. full g (omega arith) (omega arith)) some_frame)
      | inr (f, e, lt, free) ↦ rw (e, allocate_frame) (free-Allocated f (omega arith) free)
    ]
