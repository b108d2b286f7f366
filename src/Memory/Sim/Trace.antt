-- ===== src/Memory/Sim/Trace.antt =====
-- replay_trace of sim.c reads the trace as a list of references.
use kernel_programming_proje.Base.{
  ℕ, ◌≡◌, refl, ap, List, [], ◌∷◌, if◌then◌else◌, inl, inr, Bool-cases,
}
use kernel_programming_proje.Memory.State.{Device, M, ◌>>◌, pure, Algorithm}
use kernel_programming_proje.Memory.Sim.{access_mem, is_marker, replay_trace}

-- The references of a trace: one for each line that does not begin with '='.
abbrev pub references : (List ℕ → ℕ → ℕ → ℕ × ℕ) → List (List ℕ) → ℕ → ℕ → List (ℕ × ℕ)
references scan [] type vaddr = []
references scan (l ∷ lines) type vaddr =
    let rest = references scan lines (scan l type vaddr).0 (scan l type vaddr).1 in
    let skipped = references scan lines type vaddr in
    if is_marker l then skipped else scan l type vaddr ∷ rest

module _ {F A : Type 0} (m : ℕ) (dev : Device F) (alg : Algorithm F A) where
  -- One access after the other.
  abbrev pub access_all : List (ℕ × ℕ) → M F A (Unit {0})
  access_all [] = pure tt
  access_all (r ∷ rs) = access_mem m dev alg r.0 r.1 >> access_all rs

  -- Replaying a trace from any state is accessing memory for its references, in their order; the
  -- lines that begin with '=' do nothing.
  pub replay_trace-references :
      (scan : List ℕ → ℕ → ℕ → ℕ × ℕ) (lines : List (List ℕ)) (type vaddr : ℕ)
      → replay_trace m dev alg scan lines type vaddr ≡ access_all (references scan lines type vaddr)
  unfolding replay_trace
  replay_trace-references scan [] type vaddr = refl
  replay_trace-references scan (l ∷ lines) type vaddr = elim (Bool-cases (is_marker l)) [
    | inl skip ↦ rw skip (replay_trace-references scan lines type vaddr)
    | inr read ↦ rw read (
        ap (λ r. access_mem m dev alg (scan l type vaddr).0 (scan l type vaddr).1 >> r)
          (replay_trace-references scan lines (scan l type vaddr).0 (scan l type vaddr).1))
  ]
