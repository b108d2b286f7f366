-- ===== src/Memory/Rand/Laws.antt =====
-- rand.c keeps what pagetable.c relies on.
use native.Mathlib.Nat.{mod-lt}
use kernel_programming_proje.Base.{ℕ, ◌<◌, ◌≡◌, Bool, false, arith, ◌==◌}
use kernel_programming_proje.Memory.State.{Machine}
use kernel_programming_proje.Memory.Rand.{rand, rand_evict}
use kernel_programming_proje.Memory.Pagetable.Coherent.{Lawful, moved-Steady}

positive : (m : ℕ) → 0 < m → (m == 0) ≡ false
positive m some_frame = ground arith

module _ {F G : Type 0} (seed : G) (random : G → ℕ × G) (m : ℕ) (some_frame : 0 < m) where
  -- Whatever `random` returns, the victim is below memsize, and the algorithm has nothing to keep.
  pub rand-Lawful : Lawful m (rand {F = F} seed random m)
  unfolding rand_evict
  rand-Lawful = record {
    Tracks = λ s t. Unit {0};
    stable = λ s s' t t' d e h. tt;
    evict_law = λ s t lt h full held named. rw (positive m lt) (mod-lt _ lt, moved-Steady s _, tt);
    ref_law = λ s t p h lt inside. (moved-Steady s s.alg, tt);
  }

  pub rand_tracks : (s : Machine F G) (t : ℕ → Bool) → rand-Lawful.Tracks s t
  unfolding rand-Lawful
  rand_tracks s t = tt
