-- ===== src/Memory/Sim/Replay.antt =====
-- replay_trace of sim.c from its first line to its last.
use kernel_programming_proje.Base.{
  ℕ, suc, ◌+◌, ◌^◌, ◌≤◌, ◌<◌, ◌≡◌, List, [], ◌∷◌, length, After, After-map, After-bind, arith, sym,
  ap, subst,
}
use kernel_programming_proje.Memory.Bitmap.Laws.{IsWell}
use kernel_programming_proje.Memory.Bitmap.Refine.{FreeFrom}
use kernel_programming_proje.Memory.State.{Device, Machine, Algorithm}
use kernel_programming_proje.Memory.Pagetable.Coherent.{Coherent, in_use, Lawful, Supply, Serves}
use kernel_programming_proje.Memory.Sim.{access_mem, replay_trace}
use kernel_programming_proje.Memory.Sim.Access.{Accessed, access_mem-Accessed}
use kernel_programming_proje.Memory.Sim.Trace.{references, access_all, replay_trace-references}

-- Every address is below 2^36.
abbrev pub Low : List (ℕ × ℕ) → Type 0
Low [] = Unit {0}
Low (r ∷ rs) = (r.1 < 2 ^ 36) × Low rs

-- A machine that can take `n` more references: what always holds of it, and a swap file whose slots
-- from `used` on are free, `n` of them or more.
pub record Ready {F A : Type 0} {m : ℕ} {alg : Algorithm F A} (laws : Lawful m alg) (n : ℕ)
    (s : Machine F A) : Type 0 where
  pub coherent : Coherent m s
  pub tracks : laws.Tracks s (in_use s)
  pub well : IsWell s.swapmap
  pub fits : s.swapmap.nbits ≤ 2 ^ 27
  pub used : ℕ
  pub free : FreeFrom used s.swapmap
  pub room : used + n ≤ s.swapmap.nbits

-- What `n` references leave: a machine that keeps what always holds, and the counts.
pub record Replayed {F A : Type 0} {m : ℕ} {alg : Algorithm F A} (laws : Lawful m alg) (n : ℕ)
    (s s' : Machine F A) : Type 0 where
  pub ready : Ready laws 0 s'
  pub ref_next : s'.ref_count ≡ s.ref_count + n
  pub either_next : s'.hit_count + s'.miss_count ≡ s.hit_count + s.miss_count + n

module _ {F A : Type 0} (m : ℕ) (dev : Device F) (alg : Algorithm F A) (laws : Lawful m alg)
    (writes : Serves dev) (memory : m ≤ 2 ^ 20) (some_frame : 0 < m) where
  Ready-Supply : (n : ℕ) (s : Machine F A) → Ready laws (suc n) s → Supply dev s
  Ready-Supply n s r = record {
    well = r.well;
    fits = r.fits;
    slot = r.used;
    inside = omega (arith, r.room);
    open_slot = r.free r.used (omega arith) (omega (arith, r.room));
  }

  Accessed-Ready :
      (vaddr type n : ℕ) (s s' : Machine F A)
      → Ready laws (suc n) s
      → Accessed laws vaddr type s s'
      → Ready laws n s'
  Accessed-Ready vaddr type n s s' r a = record {
    coherent = a.coherent;
    tracks = a.tracks;
    well = a.well;
    fits = omega (arith, a.size_same, r.fits);
    used = r.used + 1;
    free = a.taken.frees r.used r.free;
    room = omega (arith, a.size_same, r.room);
  }

  access_all-Replayed :
      (rs : List (ℕ × ℕ)) (s : Machine F A)
      → Low rs
      → Ready laws (length rs) s
      → After (λ _ s'. Replayed laws (length rs) s s') (access_all m dev alg rs s)
  access_all-Replayed [] s low r = record {
    ready = r;
    ref_next = omega arith;
    either_next = omega arith;
  }
  access_all-Replayed ((type, vaddr) ∷ rs) s (lt, low) r =
      After-bind (λ _ s1. Accessed laws vaddr type s s1) _ (access_mem m dev alg type vaddr s) _
        (access_mem-Accessed m dev alg laws vaddr type s writes memory some_frame lt r.coherent
          r.tracks (Ready-Supply (length rs) s r))
        λ u s1 a.
          After-map (λ _ s'. Replayed laws (length rs) s1 s') _ (access_all m dev alg rs s1)
            (access_all-Replayed rs s1 low (Accessed-Ready vaddr type (length rs) s s1 r a))
            λ v s' p. record {
              ready = p.ready;
              ref_next = omega (arith, p.ref_next, a.ref_next);
              either_next = omega (arith, p.either_next, a.either_next);
            }

  -- With at least one and at most 2^20 frames, a lawful algorithm that tracks the frames in use, a
  -- coremap and page tables that agree, a swap file that takes every page, memory for every page
  -- table, and a free slot for each reference of the trace, all of them to addresses below 2^36,
  -- replaying the trace comes to its end. The agreement and the tracking still hold then, ref_count
  -- has grown by the number of the lines that do not begin with '=', and so has the sum of the hits
  -- and the misses.
  pub replay_trace-Replayed :
      (scan : List ℕ → ℕ → ℕ → ℕ × ℕ) (lines : List (List ℕ)) (type vaddr : ℕ) (s : Machine F A)
      → Low (references scan lines type vaddr)
      → Ready laws (length (references scan lines type vaddr)) s
      → After
          (λ _ s'. Replayed laws (length (references scan lines type vaddr)) s s')
          (replay_trace m dev alg scan lines type vaddr s)
  replay_trace-Replayed scan lines type vaddr s low r =
      subst (After _)
        (sym (ap (λ f. f s) (replay_trace-references m dev alg scan lines type vaddr)))
        (access_all-Replayed (references scan lines type vaddr) s low r)
