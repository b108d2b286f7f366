-- ===== src/Memory/Sim.antt =====
-- sim.c, lines 49 to 83: replaying a trace. A line is the list of its bytes; `scan` is the C
-- library's sscanf with the format "%c %lx", which takes a line and the old values of type and vaddr
-- to the new ones.
pub mod Access
pub mod Trace
pub mod Replay
use kernel_programming_proje.Base.{
  ℕ, ◌+◌, ◌%◌, ◌^◌, Bool, true, false, List, [], ◌∷◌, some, ◌==◌, if◌then◌else◌, put,
}
use kernel_programming_proje.Memory.State.{Device, M, ◌>>=◌, ◌>>◌, pure, when◌then◌else◌, Algorithm}
use kernel_programming_proje.Memory.Pagetable.{is_write, find_physpage}

-- Whether the first byte is '='.
abbrev pub is_marker : List ℕ → Bool
is_marker [] = false
is_marker (b ∷ bs) = b == b'='

module _ {F A : Type 0} where
  -- The check of the address that the page holds; a wrong one is reported on stderr.
  abbrev pub check_page : ℕ → ℕ → M F A (Unit {0})
  check_page f vaddr s =
      if (s.physmem f).vaddr == vaddr
      then some (tt, s)
      else some (tt, record s { errors = s.errors + 1 })

  abbrev pub count_version : ℕ → M F A (Unit {0})
  count_version f s = some (
    tt,
    record s {
      physmem =
          put s.physmem f (record (s.physmem f) { version = ((s.physmem f).version + 1) % 2 ^ 32 });
    },
  )

module _ {F A : Type 0} (m : ℕ) (dev : Device F) (alg : Algorithm F A) where
  unfoldable pub access_mem : ℕ → ℕ → M F A (Unit {0})
  access_mem type vaddr = do
    f ← find_physpage m dev alg vaddr type
    check_page f vaddr
    when is_write type then count_version f else pure tt

  module _ (scan : List ℕ → ℕ → ℕ → ℕ × ℕ) where
    -- The loop, with the values of type and vaddr that the line before left.
    unfoldable pub replay_trace : List (List ℕ) → ℕ → ℕ → M F A (Unit {0})
    replay_trace [] type vaddr = pure tt
    replay_trace (l ∷ lines) type vaddr =
        when is_marker l
        then replay_trace lines type vaddr
        else (access_mem (scan l type vaddr).0 (scan l type vaddr).1
            >> replay_trace lines (scan l type vaddr).0 (scan l type vaddr).1)
