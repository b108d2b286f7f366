-- ===== src/Memory/Pagetable/Flags.antt =====
-- The end of find_physpage (pagetable.c, lines 196 to 207): the flags of the page, the algorithm's
-- ref function, and the agreement of the coremap and the page tables, which is whole again.
use kernel_programming_proje.Base.{
  ℕ, ◌/◌, ◌<◌, ◌≡◌, refl, Bool, true, false, ◌||◌, none, some, ◌==◌, After, After-bind, arith, inl,
  inr, Bool-cases, ==_refl,
}
use kernel_programming_proje.Memory.State.{
  Pte, pg_valid, pg_dirty, pg_ref, pg_onswap, has_flag, with_flag, frame_number, Device, Machine,
  Algorithm,
}
use kernel_programming_proje.Memory.Pagetable.{touch, is_write}
use kernel_programming_proje.Memory.Pagetable.Allocate.{Agree-Steady}
use kernel_programming_proje.Memory.Pagetable.Coherent.{
  owner, in_use, Agree, Coherent, Steady, Lawful,
}

-- What the marks are.
pub record Marked (type : ℕ) (e e' : Pte) : Type 0 where
  pub number : frame_number e' ≡ frame_number e
  pub valid : has_flag pg_valid e' ≡ true
  pub referenced : has_flag pg_ref e' ≡ true
  pub dirty : has_flag pg_dirty e' ≡ (is_write type || has_flag pg_dirty e)
  pub onswap : has_flag pg_onswap e' ≡ has_flag pg_onswap e
  pub swap_off : e'.swap_off ≡ e.swap_off

written-Marked :
    (type : ℕ) (e : Pte)
    → is_write type ≡ true
    → Marked type e (with_flag pg_dirty (with_flag pg_ref (with_flag pg_valid e)))
written-Marked type e w = record {
  number = omega arith;
  valid = ground arith;
  referenced = ground arith;
  dirty = ground (arith, w);
  onswap = ground arith;
  swap_off = refl;
}

read-Marked :
    (type : ℕ) (e : Pte)
    → is_write type ≡ false
    → Marked type e (with_flag pg_ref (with_flag pg_valid e))
read-Marked type e w = record {
  number = omega arith;
  valid = ground arith;
  referenced = ground arith;
  dirty = ground (arith, w);
  onswap = ground arith;
  swap_off = refl;
}

-- The machine `s'` is `s` with the entry `p` marked.
pub record Raised {F A : Type 0} (type p : ℕ) (s s' : Machine F A) : Type 0 where
  pub mark : Marked type (s.ptes p) (s'.ptes p)
  pub others : (q : ℕ) → (p == q) ≡ false → s'.ptes q ≡ s.ptes q
  pub rest : s' ≡ record s { ptes = s'.ptes }

module _ {F A : Type 0} (m type p : ℕ) (s s' : Machine F A) (r : Raised type p s s') (x : ℕ → Bool)
    (a : Agree m s x) (lt : frame_number (s.ptes p) < m)
    (busy : in_use s (frame_number (s.ptes p)) ≡ true)
    (mine : (s.coremap (frame_number (s.ptes p))).pte ≡ some p)
    (only : (g : ℕ) → x g ≡ true → g ≡ frame_number (s.ptes p))
    (table : s.pgdir (p / 4096) ≡ true) where
  settled : (g : ℕ) → (g == frame_number (s.ptes p)) ≡ false → x g ≡ false
  settled g away = elim (Bool-cases (x g)) [ inl y ↦ absurd (ground (arith, only g y)) | inr y ↦ y ]

  pub raised-Coherent : Coherent m s'
  raised-Coherent = record {
    range = λ g h. ground (arith, r.rest, a.range g);
    held = λ g _ h. elim (Bool-cases (g == frame_number (s.ptes p))) [
      | inl here ↦ ground (arith, r.rest, r.mark, mine)
      | inr away ↦ ground (arith, r.rest, r.mark, settled g away, a.held g)
    ];
    live = λ g _ h. elim (Bool-cases (g == frame_number (s.ptes p))) [
      | inl here ↦ ground (arith, r.rest, r.mark, mine)
      | inr away ↦ ground (arith, r.rest, r.mark, settled g away, a.live g, r.others (owner s g))
    ];
    named = λ g _ h. elim (Bool-cases (g == frame_number (s.ptes p))) [
      | inl here ↦ ground (arith, r.rest, r.mark, mine)
      | inr away ↦ ground (arith, r.rest, r.mark, settled g away, a.named g, r.others (owner s g))
    ];
    placed = λ q h. ground (arith, r.rest, r.mark, r.others q, a.placed q, busy);
    back = λ q h. ground (arith, r.rest, r.mark, r.others q, a.back q, mine);
    apart = λ q h. refl;
    offsets = λ q. ground (arith, r.mark, r.others q, a.offsets q, a.offsets p);
    offswap = λ q. ground (arith, r.mark, r.others q, a.offswap q, a.offswap p);
    mapped = λ q h. ground (arith, r.rest, r.others q, a.mapped q, table);
  }

-- What `touch` promises, with `whole` the algorithm's invariant for all frames in use.
pub record Touched {F A : Type 0} {m : ℕ} {alg : Algorithm F A} (laws : Lawful m alg) (type p : ℕ)
    (s : Machine F A) (f : ℕ) (s' : Machine F A) : Type 0 where
  pub coherent : Coherent m s'
  pub tracks : laws.Tracks s' (in_use s')
  pub frame : f ≡ frame_number (s.ptes p)
  pub number : frame_number (s'.ptes p) ≡ f
  pub valid : has_flag pg_valid (s'.ptes p) ≡ true
  pub dirty : has_flag pg_dirty (s'.ptes p) ≡ (is_write type || has_flag pg_dirty (s.ptes p))
  pub physmem_same : s'.physmem ≡ s.physmem
  pub hit_same : s'.hit_count ≡ s.hit_count
  pub miss_same : s'.miss_count ≡ s.miss_count
  pub ref_same : s'.ref_count ≡ s.ref_count
  pub clean_same : s'.evict_clean_count ≡ s.evict_clean_count
  pub errors_same : s'.errors ≡ s.errors
  pub dirty_same : s'.evict_dirty_count ≡ s.evict_dirty_count
  pub swapmap_same : s'.swapmap ≡ s.swapmap
  pub pgdir_same : s'.pgdir ≡ s.pgdir

module _ {F A : Type 0} (m : ℕ) (dev : Device F) (alg : Algorithm F A) (laws : Lawful m alg)
    (type p : ℕ) (s : Machine F A) (x t : ℕ → Bool) (a : Agree m s x)
    (lt : frame_number (s.ptes p) < m) (busy : in_use s (frame_number (s.ptes p)) ≡ true)
    (mine : (s.coremap (frame_number (s.ptes p))).pte ≡ some p)
    (only : (g : ℕ) → x g ≡ true → g ≡ frame_number (s.ptes p)) (table : s.pgdir (p / 4096) ≡ true)
    (tracks : laws.Tracks s t)
    (whole : (g : ℕ) → (t g || (g == frame_number (s.ptes p))) ≡ in_use s g) where
  -- From the call of the algorithm's ref function on.
  finish-Touched :
      (s1 : Machine F A)
      → Raised type p s s1
      → After
          (Touched laws type p s)
          (elim (alg.ref p s1) [ none ↦ none | some (u, s2) ↦ some (frame_number (s2.ptes p), s2) ])
  finish-Touched s1 r =
      let t1 =
        laws.stable s s1 t t
          (record {
            alg_same = ground (arith, r.rest);
            next_same = λ g. ground (arith, r.rest);
            previous_same = λ g. ground (arith, r.rest);
          })
          (λ g. refl) tracks in
      After-bind
        (λ _ s2. Steady s1 s2 × laws.Tracks s2 (λ g. t g || (g == frame_number (s1.ptes p))))
        (Touched laws type p s) (alg.ref p s1) _
        (laws.ref_law s1 t p t1 (ground (arith, r.mark))
          (λ g h. a.range g (ground (arith, whole g))))
        λ _ s2 (d, t2). record {
          coherent =
              Agree-Steady m s1 s2 d (λ g. false)
                (raised-Coherent m type p s s1 r x a lt busy mine only table);
          tracks =
              laws.stable s2 s2 _ (in_use s2)
                (record { alg_same = refl; next_same = λ g. refl; previous_same = λ g. refl })
                (λ g. ground (arith, whole g, r.rest, r.mark, d.in_use_same g)) t2;
          frame = ground (arith, r.mark, d.number_same p);
          number = refl;
          valid = ground (arith, r.mark, d.valid_same p);
          dirty = ground (arith, r.mark, d.dirty_flag_same p);
          physmem_same = ground (arith, r.rest, d.physmem_same);
          hit_same = ground (arith, r.rest, d.hit_same);
          miss_same = ground (arith, r.rest, d.miss_same);
          ref_same = ground (arith, r.rest, d.ref_same);
          clean_same = ground (arith, r.rest, d.clean_same);
          errors_same = ground (arith, r.rest, d.errors_same);
          dirty_same = ground (arith, r.rest, d.dirty_same);
          swapmap_same = ground (arith, r.rest, d.swapmap_same);
          pgdir_same = ground (arith, r.rest, d.pgdir_same);
        }

  pub touch-Touched : After (Touched laws type p s) (touch m dev alg p type s)
  unfolding touch
  touch-Touched = elim (Bool-cases (is_write type)) [
    | inl w ↦ rw w (
        finish-Touched _ (record {
          mark = rw (==_refl p) (written-Marked type (s.ptes p) w);
          others = λ q ne. ground arith;
          rest = refl;
        }))
    | inr w ↦ rw w (
        finish-Touched _ (record {
          mark = rw (==_refl p) (read-Marked type (s.ptes p) w);
          others = λ q ne. ground arith;
          rest = refl;
        }))
  ]
