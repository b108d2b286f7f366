-- ===== src/Memory/Rand.antt =====
-- rand.c: the victim is a frame at random. The C library's `random` is the parameter `random`, which
-- takes the state of the generator to a number and the next state; `m` is memsize.
pub mod Laws
use kernel_programming_proje.Base.{ℕ, ◌%◌, Option, none, some, ◌==◌, if◌then◌else◌}
use kernel_programming_proje.Memory.State.{M, pure, Algorithm}

module _ {F G : Type 0} (seed : G) (random : G → ℕ × G) (m : ℕ) where
  -- A remainder by 0 traps.
  unfoldable pub rand_evict : M F G ℕ
  rand_evict s =
      if m == 0 then none else some ((random s.alg).0 % m, record s { alg = (random s.alg).1 })

  abbrev pub rand_ref : ℕ → M F G (Unit {0})
  rand_ref p = pure tt

  abbrev pub rand : Algorithm F G
  rand = record { init = seed; ref = rand_ref; evict = rand_evict }
