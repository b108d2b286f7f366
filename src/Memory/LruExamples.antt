-- ===== src/Memory/LruExamples.antt =====
-- The theorems on lru.c at a machine with three frames, used in the order 2, 0, 1.
use kernel_programming_proje.Base.{
  ◌*◌, ◌≡◌, refl, true, [], ◌∷◌, none, some, ◌==◌, if◌then◌else◌, arith, inl, pos,
}
use kernel_programming_proje.Memory.State.{Machine}
use kernel_programming_proje.Memory.Lru.{Ends, lru_ref, lru_evict}
use kernel_programming_proje.Memory.Lru.Laws.{Ordered}
use kernel_programming_proje.Memory.Lru.Uses.{lru_ref-Ordered, lru_evict-Ordered}

abbrev machine : Machine (Unit {0}) Ends
machine = record {
  coremap = λ f. record {
    in_use = true;
    pte = some f;
    next = if f == 2 then some 0 else if f == 0 then some 1 else none;
    previous = if f == 0 then some 2 else if f == 1 then some 0 else none;
  };
  pgdir = λ i. true;
  ptes = λ p. record { frame = p * 4096; swap_off = pos 0 };
  physmem = λ f. record { version = 0; vaddr = 0 };
  file = tt;
  swapmap = record { nbits = 0; v = λ i. 0 };
  hit_count = 0;
  miss_count = 3;
  ref_count = 3;
  evict_clean_count = 0;
  evict_dirty_count = 0;
  errors = 0;
  alg = record { head = some 2; tail = some 1 };
}

machine-Ordered : Ordered machine (2 ∷ 0 ∷ 1 ∷ [])
machine-Ordered = record {
  distinct = (refl, (refl, (refl, tt)));
  starts = refl;
  ends = refl;
  front = none;
  front_is = inl refl;
  nexts = λ g. ground arith;
  previouses = λ g. ground arith;
}

lru_ref-Ordered_example :
    (s' : Machine (Unit {0}) Ends) × (lru_ref 0 machine ≡ some (tt, s'))
    × Ordered s' (2 ∷ 1 ∷ 0 ∷ [])
lru_ref-Ordered_example = lru_ref-Ordered machine (2 ∷ 0 ∷ 1 ∷ []) 0 machine-Ordered

lru_evict-Ordered_example :
    (s' : Machine (Unit {0}) Ends) × (lru_evict machine ≡ some (2, s')) × Ordered s' (0 ∷ 1 ∷ [])
lru_evict-Ordered_example = lru_evict-Ordered machine 2 2 (0 ∷ 1 ∷ []) machine-Ordered refl refl
