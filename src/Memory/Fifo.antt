-- ===== src/Memory/Fifo.antt =====
-- fifo.c: the victim is the next frame in turn. The algorithm's variable is the `int` called evict;
-- `m` is memsize.
pub mod Laws
use kernel_programming_proje.Base.{
  ℕ, Option, none, some, ℤ, pos, negsuc, ◌+ℤ◌, rem, ◌==◌, if◌then◌else◌,
}
use kernel_programming_proje.Memory.State.{M, pure, Algorithm}

abbrev pub fifo_init : ℤ
fifo_init = negsuc 0

module _ {F : Type 0} (m : ℕ) where
  -- A remainder by 0 traps, and a negative index is outside the coremap.
  unfoldable pub fifo_evict : M F ℤ ℕ
  fifo_evict s =
      let evict = rem (s.alg +ℤ pos 1) m in
      if m == 0
      then none
      else elim evict [ negsuc n ↦ none | pos f ↦ some (f, record s { alg = pos f }) ]

  abbrev pub fifo_ref : ℕ → M F ℤ (Unit {0})
  fifo_ref p = pure tt

  abbrev pub fifo : Algorithm F ℤ
  fifo = record { init = fifo_init; ref = fifo_ref; evict = fifo_evict }
