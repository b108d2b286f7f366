-- ===== src/Memory/Clock/Steps.antt =====
-- The loop of clock_evict: what each round leaves, and that it ends within a turn of the frames.
use native.Mathlib.Nat.{mod-lt, mod-add-mod, add-mul-mod_self_left}
use kernel_programming_proje.Base.{
  ℕ, zero, suc, ◌+◌, ◌%◌, ◌<◌, ◌≤◌, ◌≡◌, refl, sym, subst, ap, ◌∙◌, true, false, some, ℤ, pos,
  After, arith, ◌==◌, ltb, inl, inr, Bool-cases, Option-cases, put, ◌+ℤ◌, rem,
}
use kernel_programming_proje.Memory.State.{Machine, pg_ref, has_flag, without_flag}
use kernel_programming_proje.Memory.Fifo.Laws.{turn, successor}
use kernel_programming_proje.Memory.Clock.{clock_from, clock_evict}
use kernel_programming_proje.Memory.Pagetable.Coherent.{
  Steady, Steady-trans, moved-Steady, entry-Steady, is_offset, is_some, owner,
}

module _ {F : Type 0} (m : ℕ) (some_frame : 0 < m) (s0 : Machine F ℤ)
    (near0 : is_offset s0.alg ≡ true)
    (held0 : (f : ℕ) → f < m → is_some (s0.coremap f).pte ≡ true) where
  -- The frame that the hand reaches in round `j`.
  abbrev pub reached : ℕ → ℕ
  reached j = (turn s0.alg + j) % m

  -- The machine before round `k`: the pages that the hand has passed were referenced before, and
  -- their reference bits are clear now.
  record Swept (k : ℕ) (s : Machine F ℤ) : Type 0 where
    near : is_offset s.alg ≡ true
    hand : turn s.alg % m ≡ reached k
    steady : Steady s0 s
    coremap_same : s.coremap ≡ s0.coremap
    rest : s ≡ record s0 { alg = s.alg; ptes = s.ptes }
    faded :
        (j : ℕ)
        → j < k
        → s.ptes (owner s0 (reached j)) ≡ without_flag pg_ref (s0.ptes (owner s0 (reached j)))
    others :
        (p : ℕ) → ((j : ℕ) → j < k → (owner s0 (reached j) == p) ≡ false) → s.ptes p ≡ s0.ptes p
    passed : (j : ℕ) → j < k → has_flag pg_ref (s0.ptes (owner s0 (reached j))) ≡ true
    spent : (j : ℕ) → j < k → has_flag pg_ref (s.ptes (owner s0 (reached j))) ≡ false

  -- The choice of the victim `f`.
  pub record Chosen (f : ℕ) (s' : Machine F ℤ) : Type 0 where
    pub range : f < m
    pub hand : s'.alg ≡ pos f
    pub steady : Steady s0 s'
    pub clear : has_flag pg_ref (s'.ptes (owner s0 f)) ≡ false
    pub rounds : ℕ
    pub turn_at_most : rounds ≤ m
    pub place : f ≡ reached rounds
    pub passed : (j : ℕ) → j < rounds → has_flag pg_ref (s0.ptes (owner s0 (reached j))) ≡ true
    pub rest : s' ≡ record s0 { alg = pos f; ptes = s'.ptes }
    pub faded :
        (j : ℕ)
        → j < rounds
        → s'.ptes (owner s0 (reached j)) ≡ without_flag pg_ref (s0.ptes (owner s0 (reached j)))
    pub others :
        (p : ℕ)
        → ((j : ℕ) → j < rounds → (owner s0 (reached j) == p) ≡ false)
        → s'.ptes p ≡ s0.ptes p

  whole_turn : reached m ≡ reached 0
  whole_turn = ground (arith, add-mul-mod_self_left (turn s0.alg) m 1)

  module _ (k : ℕ) (s : Machine F ℤ) (w : Swept k s) (v : ℕ)
      (e : (s.coremap (reached k)).pte ≡ some v) where
    abbrev passing : Machine F ℤ
    passing = record s {
      alg = pos (reached k);
      ptes = put s.ptes v (without_flag pg_ref (s.ptes v));
    }

    remainder : rem (s.alg +ℤ pos 1) m ≡ pos (reached k)
    remainder = rw (successor s.alg w.near) (ap pos w.hand)

    next_round :
        (n : ℕ)
        → clock_from m (suc n) s ≡ elim (has_flag pg_ref (s.ptes v)) [
          | false ↦ some (reached k, record s { alg = pos (reached k) })
          | true ↦ clock_from m n passing
        ]
    unfolding clock_from
    next_round n = rw (remainder, clock_from, e) refl

    owner_here : owner s0 (reached k) ≡ v
    owner_here = ground (arith, w.coremap_same, e)

    -- A page that is referenced is none of those that the hand passed.
    fresh : has_flag pg_ref (s.ptes v) ≡ true → s.ptes v ≡ s0.ptes v
    fresh r = w.others v λ j lt. ground (arith, w.spent j, r)

    passing-Swept : has_flag pg_ref (s.ptes v) ≡ true → Swept (k + 1) passing
    passing-Swept r = record {
      near = refl;
      hand = ground (arith, mod-add-mod (turn s0.alg + k) m 1);
      steady = Steady-trans s0 s passing w.steady (
          entry-Steady s (pos (reached k)) v (without_flag pg_ref (s.ptes v)) refl (omega arith)
            (ground arith) (ground arith) (ground arith));
      coremap_same = w.coremap_same;
      rest =
          ap {A = Machine F ℤ}
            (λ x. record x {
              alg = pos (reached k);
              ptes = put s.ptes v (without_flag pg_ref (s.ptes v));
            })
            w.rest;
      faded = λ j lt. ground (arith, w.faded j, w.spent j, fresh r, r, owner_here);
      others = λ p out.
          ground (arith, w.others p (λ j lt. out j (omega arith)), out k (omega arith), owner_here);
      passed = λ j lt. ground (arith, w.passed j, fresh r, r, owner_here);
      spent = λ j lt. ground (arith, w.spent j, owner_here);
    }

  -- The hand is not back where it started.
  not_yet :
      (k : ℕ) (s : Machine F ℤ) (w : Swept k s) (v : ℕ)
      → (s.coremap (reached k)).pte ≡ some v
      → k ≤ m
      → has_flag pg_ref (s.ptes v) ≡ true
      → k + 1 ≤ m
  not_yet k s w v e le r = elim (Bool-cases (ltb k m)) [
    | inl less ↦ ground arith
    | inr back ↦ absurd (
        let around : reached k ≡ reached 0 = ap reached (ground arith) ∙ whole_turn in
        ground (arith, w.spent 0, around, owner_here k s w v e))
  ]

  -- With enough rounds left the loop ends.
  clock_from-Chosen :
      (n k : ℕ) (s : Machine F ℤ) → m < n + k → k ≤ m → Swept k s → After Chosen (clock_from m n s)
  clock_from-Chosen zero k s enough le w = absurd (omega arith)
  clock_from-Chosen (suc n) k s enough le w = elim (Option-cases (s.coremap (reached k)).pte) [
    | inl e ↦ absurd (ground (arith, held0 (reached k) (mod-lt _ some_frame), w.coremap_same))
    | inr (v, e) ↦ elim (Bool-cases (has_flag pg_ref (s.ptes v))) [
      | inl r ↦ subst (After Chosen) (sym (next_round k s w v e n)) (
          rw r (
            clock_from-Chosen n (k + 1) (passing k s w v e) (omega arith) (not_yet k s w v e le r)
              (passing-Swept k s w v e r)))
      | inr r ↦ subst (After Chosen) (sym (next_round k s w v e n)) (
          rw r (record {
            range = mod-lt _ some_frame;
            hand = refl;
            steady = Steady-trans s0 s _ w.steady (moved-Steady s _);
            clear = ground (arith, owner_here k s w v e);
            rounds = k;
            turn_at_most = le;
            place = refl;
            passed = w.passed;
            rest = ap {A = Machine F ℤ} (λ x. record x { alg = pos (reached k) }) w.rest;
            faded = w.faded;
            others = w.others;
          }))
    ]
  ]

  start : Swept 0 s0
  start = record {
    near = near0;
    hand = ground arith;
    steady = moved-Steady s0 s0.alg;
    coremap_same = refl;
    rest = refl;
    faded = λ j lt. absurd (omega arith);
    others = λ p h. refl;
    passed = λ j lt. absurd (omega arith);
    spent = λ j lt. absurd (omega arith);
  }

  -- With at least one frame, every frame holding a page, and the hand at -1 or on a frame,
  -- clock_evict ends within one turn: each page that the hand passes, at most memsize of them, had
  -- PG_REF set and has it clear now, the victim's had it clear, and nothing else changes but the
  -- hand, which is on the victim.
  pub clock_evict-Chosen : After Chosen (clock_evict m s0)
  unfolding clock_evict
  clock_evict-Chosen =
      rw positive (clock_from-Chosen (m + 1) 0 s0 (omega arith) (omega arith) start)
    where
      positive : (m == 0) ≡ false
      positive = ground arith
