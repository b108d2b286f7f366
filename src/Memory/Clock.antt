-- ===== src/Memory/Clock.antt =====
-- clock.c: the victim is the first frame from the hand on whose page was not referenced since the
-- hand passed it. The algorithm's variable is the `int` called oldest_page; `m` is memsize.
pub mod Steps
pub mod Laws
use kernel_programming_proje.Base.{
  ℕ, zero, suc, ◌+◌, Option, none, some, ℤ, pos, negsuc, true, false, ◌+ℤ◌, rem, ◌==◌,
  if◌then◌else◌, put,
}
use kernel_programming_proje.Memory.State.{M, Algorithm, pg_ref, has_flag, without_flag}
use kernel_programming_proje.Memory.Pagetable.{add_flag}

abbrev pub clock_init : ℤ
clock_init = negsuc 0

module _ {F : Type 0} (m : ℕ) where
  -- The loop, for `n` rounds at most; a frame that holds no page is a null pointer, and a negative
  -- index is outside the coremap.
  unfoldable pub clock_from : ℕ → M F ℤ ℕ
  clock_from zero s = none
  clock_from (suc n) s = elim (rem (s.alg +ℤ pos 1) m) [
    | negsuc i ↦ none
    | pos f ↦ elim (s.coremap f).pte [
      | none ↦ none
      | some v ↦ elim (has_flag pg_ref (s.ptes v)) [
        | false ↦ some (f, record s { alg = pos f })
        | true ↦
            clock_from n
              (record s { alg = pos f; ptes = put s.ptes v (without_flag pg_ref (s.ptes v)) })
      ]
    ]
  ]

  -- The loop, which has no bound of its own, gets one round more than there are frames. A remainder
  -- by 0 traps.
  unfoldable pub clock_evict : M F ℤ ℕ
  unfolding clock_from
  clock_evict s = if m == 0 then none else clock_from (m + 1) s

  abbrev pub clock_ref : ℕ → M F ℤ (Unit {0})
  clock_ref p = add_flag pg_ref p

  abbrev pub clock : Algorithm F ℤ
  clock = record { init = clock_init; ref = clock_ref; evict = clock_evict }
