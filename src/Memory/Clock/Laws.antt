-- ===== src/Memory/Clock/Laws.antt =====
-- clock.c keeps what pagetable.c relies on.
use kernel_programming_proje.Base.{ℕ, ◌<◌, ◌≡◌, refl, Bool, true, ℤ, After-map, arith}
use kernel_programming_proje.Memory.State.{pg_ref, with_flag, Machine}
use kernel_programming_proje.Memory.Clock.{clock, clock_evict}
use kernel_programming_proje.Memory.Clock.Steps.{Chosen, clock_evict-Chosen}
use kernel_programming_proje.Memory.Pagetable.Coherent.{Lawful, is_offset, entry-Steady}

module _ {F : Type 0} (m : ℕ) (some_frame : 0 < m) where
  pub clock-Lawful : Lawful m (clock {F = F} m)
  clock-Lawful = record {
    Tracks = λ s t. is_offset s.alg ≡ true;
    stable = λ s s' t t' d e h. ground (arith, d.alg_same);
    evict_law = λ s t lt h full held named.
        After-map (Chosen m lt s h held) _ (clock_evict m s) (clock_evict-Chosen m lt s h held)
          λ f s' c. (c.range, c.steady, ground (arith, c.hand));
    ref_law = λ s t p h lt inside. (
      entry-Steady s s.alg p (with_flag pg_ref (s.ptes p)) refl (omega arith) (ground arith)
          (ground arith) (ground arith),
      h,
    );
  }

  pub clock_tracks :
      (s : Machine F ℤ) (t : ℕ → Bool) → is_offset s.alg ≡ true → clock-Lawful.Tracks s t
  unfolding clock-Lawful
  clock_tracks s t h = h
