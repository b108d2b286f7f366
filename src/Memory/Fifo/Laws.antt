-- ===== src/Memory/Fifo/Laws.antt =====
-- fifo.c keeps what pagetable.c relies on, and takes the frames in turn.
use native.Mathlib.Nat.{mod-lt, mod-add-mod}
use kernel_programming_proje.Base.{
  ℕ, zero, suc, ◌+◌, ◌%◌, ◌<◌, ◌≡◌, refl, true, false, none, some, ℤ, pos, negsuc, After, After-map,
  arith, ◌==◌, sym, subst, ◌+ℤ◌,
}
use kernel_programming_proje.Memory.State.{M, ◌>>=◌, Machine}
use kernel_programming_proje.Memory.Fifo.{fifo, fifo_evict, fifo_init}
use kernel_programming_proje.Memory.Pagetable.Coherent.{Lawful, is_offset, moved-Steady}

-- The next frame, of the `int` evict.
abbrev pub turn : ℤ → ℕ
turn (pos n) = n + 1
turn (negsuc n) = 0

pub successor : (a : ℤ) → is_offset a ≡ true → a +ℤ pos 1 ≡ pos (turn a)
successor (pos n) near = ground arith
successor (negsuc zero) near = refl
successor (negsuc (suc n)) near = absurd (ground arith)

module _ {F : Type 0} (m : ℕ) (some_frame : 0 < m) where
  pub evict_next :
      (s : Machine F ℤ)
      → is_offset s.alg ≡ true
      → fifo_evict m s ≡ some (turn s.alg % m, record s { alg = pos (turn s.alg % m) })
  unfolding fifo_evict
  evict_next s near = rw (positive, successor s.alg near) refl
    where
      positive : (m == 0) ≡ false
      positive = ground arith

  unfoldable pub fifo-Lawful : Lawful m (fifo {F = F} m)
  fifo-Lawful = record {
    Tracks = λ s t. is_offset s.alg ≡ true;
    stable = λ s s' t t' d e h. subst (λ a. is_offset a ≡ true) (sym d.alg_same) h;
    evict_law = λ s t lt h full held named.
        subst (After _) (sym (evict_next s h)) (mod-lt _ lt, moved-Steady s _, refl);
    ref_law = λ s t p h lt inside. (moved-Steady s s.alg, h);
  }

  abbrev pub evictions : ℕ → M F ℤ ℕ
  evictions zero = fifo_evict m
  evictions (suc n) = fifo_evict m >>= λ _. evictions n

  evictions_from :
      (n : ℕ) (s : Machine F ℤ)
      → is_offset s.alg ≡ true
      → After (λ f s'. f ≡ (turn s.alg + n) % m) (evictions n s)
  evictions_from zero s near = subst (After _) (sym (evict_next s near)) (ground arith)
  evictions_from (suc n) s near =
      subst
        (λ r.
          After (λ f s'. f ≡ (turn s.alg + suc n) % m)
            (elim r [ none ↦ none | some (f, s1) ↦ evictions n s1 ]))
        (sym (evict_next s near))
        (After-map (λ f s'. f ≡ (turn s.alg % m + 1 + n) % m) (λ f s'. f ≡ (turn s.alg + suc n) % m)
          (evictions n _) (evictions_from n (record s { alg = pos (turn s.alg % m) }) refl)
          λ f s' e. ground (arith, e, mod-add-mod (turn s.alg) m (suc n)))

  -- With at least one frame, and from fifo_init on, eviction number n, counted from 0, takes frame n % memsize.
  pub fifo-turns :
      (n : ℕ) (s : Machine F ℤ) → s.alg ≡ fifo_init → After (λ f s'. f ≡ n % m) (evictions n s)
  fifo-turns n s start =
      After-map (λ f s'. f ≡ (turn s.alg + n) % m) (λ f s'. f ≡ n % m) (evictions n s)
        (evictions_from n s (rw start refl)) λ f s' e. ground (arith, e, start)
