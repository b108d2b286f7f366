-- ===== src/Memory/OptExamples.antt =====
-- The theorems on opt.c at a trace of three lines, whose pages are 1, 2 and 1 again.
use kernel_programming_proje.Base.{
  ℕ, ◌*◌, ◌<◌, ◌≤◌, ◌≡◌, refl, true, [], ◌∷◌, none, some, pos, negsuc, has, ◌==◌, if◌then◌else◌,
  arith,
}
use kernel_programming_proje.Memory.State.{Machine}
use kernel_programming_proje.Memory.Opt.{Variables, opt_ref, opt_evict}
use kernel_programming_proje.Memory.Opt.Trace.{opt_init}
use kernel_programming_proje.Memory.Opt.Future.{Ranked}
use kernel_programming_proje.Memory.Opt.Choice.{Referenced}
use kernel_programming_proje.Memory.Opt.Evict.{opt_ref-Referenced, opt_evict-optimal}
use kernel_programming_proje.Memory.Opt.Record.{get_elem?}
use kernel_programming_proje.Memory.Opt.Init.{opt_init-Ranked}
use kernel_programming_proje.Memory.Examples.{scan_bytes}

-- Node 0 is the page 1, which has frame 0, and node 1 the page 2, which has no frame yet.
abbrev one_in : Variables
one_in = record {
  hashmap_size = 2;
  hashmap_ptr = λ i. if i == 0 then some 0 else none;
  vaddrs = λ g.
      if g == 0
      then record {
        virtual_addr = 4096;
        next = some 1;
        next_in_frame = none;
        frame_number = pos 0;
        occurances = 2 ∷ [];
      }
      else record {
        virtual_addr = 8192;
        next = none;
        next_in_frame = none;
        frame_number = negsuc 0;
        occurances = 1 ∷ [];
      };
  mallocs = 2;
  coremap_head = some 0;
  reference_string = λ i. if i == 1 then some 1 else some 0;
  position = 1;
}

-- Both pages have frames, and page 2 is not used again.
abbrev both_in : Variables
both_in = record one_in {
  vaddrs = λ g.
      if g == 0
      then record {
        virtual_addr = 4096;
        next = some 1;
        next_in_frame = none;
        frame_number = pos 0;
        occurances = 2 ∷ [];
      }
      else record {
        virtual_addr = 8192;
        next = none;
        next_in_frame = some 0;
        frame_number = pos 1;
        occurances = [];
      };
  coremap_head = some 1;
  position = 2;
}

one_in-Ranked : Ranked 3 one_in (0 ∷ [])
one_in-Ranked = record {
  chain = (refl, refl);
  distinct = (refl, tt);
  sorted = ((λ g i. absurd (ground arith)), tt);
  known = λ g i. ground arith;
  plan = record {
    outside = λ g lt. ground arith;
    alone = λ g h i j e. ground arith;
    planned = λ g lt. ground arith;
    referenced = λ i lt. (if i == 1 then 1 else 0, ground arith, ground arith);
  };
}

both_in-Ranked : Ranked 3 both_in (1 ∷ 0 ∷ [])
both_in-Ranked = record {
  chain = (refl, (refl, refl));
  distinct = (refl, (refl, tt));
  sorted = ((λ g i. refl), ((λ g i. absurd (ground arith)), tt));
  known = λ g i. ground arith;
  plan = record {
    outside = λ g lt. ground arith;
    alone = λ g h i j e. ground arith;
    planned = λ g lt. ground arith;
    referenced = λ i lt. (if i == 1 then 1 else 0, ground arith, ground arith);
  };
}

abbrev machine : Variables → Machine (Unit {0}) Variables
machine o = record {
  coremap = λ f. record { in_use = true; pte = some f; next = none; previous = none };
  pgdir = λ i. true;
  ptes = λ p. record { frame = p * 4096; swap_off = pos 0 };
  physmem = λ f. record { version = 0; vaddr = 0 };
  file = tt;
  swapmap = record { nbits = 0; v = λ i. 0 };
  hit_count = 0;
  miss_count = 0;
  ref_count = 0;
  evict_clean_count = 0;
  evict_dirty_count = 0;
  errors = 0;
  alg = o;
}

opt_ref-Referenced_example :
    (v : ℕ) × (one_in.reference_string 1 ≡ some v)
    × ((o : Variables) × (opt_ref 1 (machine one_in) ≡ some (tt, machine o))
        × Referenced 3 one_in (0 ∷ []) v 1 o)
opt_ref-Referenced_example =
    opt_ref-Referenced 3 (machine one_in) (0 ∷ []) 1 (omega arith) one_in-Ranked

opt_evict-optimal_example :
    ((o : Variables) × (opt_evict (machine both_in) ≡ some (1, machine o)) × Ranked 3 o (0 ∷ []))
    × ((g i : ℕ)
        → has g (0 ∷ []) ≡ true
        → 2 ≤ i
        → i < 3
        → both_in.reference_string i ≡ some 1
        → (j : ℕ) × (2 ≤ j) × (j < i) × (both_in.reference_string j ≡ some g))
opt_evict-optimal_example = opt_evict-optimal 3 (machine both_in) 1 1 (0 ∷ []) both_in-Ranked refl

opt_init-Ranked_example :
    (o : Variables) × (opt_init scan_bytes 2
        (some ((b'S' ∷ 1 ∷ []) ∷ (b'L' ∷ 2 ∷ []) ∷ (b'S' ∷ 1 ∷ []) ∷ []))
        0
        0
        one_in
      ≡ some o)
    × (o.position ≡ 0)
    × Ranked 3 o []
    × ((i : ℕ)
        → i < 3
        → (v : ℕ) × (o.reference_string i ≡ some v)
          × (get_elem? (4096 ∷ 8192 ∷ 4096 ∷ []) i ≡ some (o.vaddrs v).virtual_addr))
opt_init-Ranked_example =
    opt_init-Ranked scan_bytes 2 ((b'S' ∷ 1 ∷ []) ∷ (b'L' ∷ 2 ∷ []) ∷ (b'S' ∷ 1 ∷ []) ∷ []) 0 0
      one_in (omega arith)
