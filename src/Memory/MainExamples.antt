-- ===== src/Memory/MainExamples.antt =====
-- Runs of main of sim.c on a trace of four lines, three of them references, with 64 slots.
use kernel_programming_proje.Base.{
  ℕ, ◌+◌, ◌*◌, ◌-◌, ◌≡◌, refl, true, List, [], ◌∷◌, none, some, ℤ, negsuc, arith, ◌==◌,
  if◌then◌else◌,
}
use kernel_programming_proje.Memory.State.{Page, Pte}
use kernel_programming_proje.Memory.Bitmap.{bitmap_create}
use kernel_programming_proje.Memory.Pagetable.{
  blank_pte, find_physpage, locate, resolve, first_reference, allocate_frame, free_frame, touch,
}
use kernel_programming_proje.Memory.Pagetable.Print.{invalid, in_frame, print_entries}
use kernel_programming_proje.Memory.Opt.{opt_ref}
use kernel_programming_proje.Memory.Opt.Trace.{opt_init}
use kernel_programming_proje.Memory.Examples.{disk, scan_bytes}
use kernel_programming_proje.Memory.Sim.{access_mem, replay_trace}
use kernel_programming_proje.Memory.Main.{
  Outside, Options, no_options, read_options, Counts, main, lru_name, opt_name, fifo_name,
}
use kernel_programming_proje.Memory.Main.Finish.{Counted, main-Counted}

-- The value of a string of decimal digits.
abbrev digits : ℕ → List ℕ → ℕ
digits n [] = n
digits n (d ∷ ds) = digits (10 * n + (d - b'0')) ds

abbrev trace : List (List ℕ)
trace = (b'=' ∷ []) ∷ (b'L' ∷ 1 ∷ []) ∷ (b'S' ∷ 2 ∷ []) ∷ (b'L' ∷ 1 ∷ []) ∷ []

abbrev outside : Outside (ℤ → Page) ℕ
outside = record {
  stdin = [];
  fopen = λ name. some trace;
  strtoul = digits 0;
  scan = scan_bytes;
  mkstemp = some (λ o. record { version = 0; vaddr = 0 });
  device = disk;
  memory = true;
  physmem = λ f. record { version = 0; vaddr = 0 };
  seed = 7;
  random = λ s. (s, s + 1);
  type = 0;
  address = 0;
}

-- -f t -m 2 -s 64 -a, and the name of an algorithm.
abbrev args : List ℕ → List (ℕ × List ℕ)
args name = (b'f', b't' ∷ []) ∷ (b'm', b'2' ∷ []) ∷ (b's', b'6' ∷ b'4' ∷ []) ∷ (b'a', name) ∷ []

abbrev chosen : List ℕ → Options
chosen name = record {
  tracefile = some (b't' ∷ []);
  memsize = 2;
  replacement_alg = some name;
  swapsize = 64;
}

read_args : read_options (digits 0) (args lru_name) no_options ≡ some (chosen lru_name)
unfolding read_options
read_args = refl

main-Counted_example : Counted outside 3 (main outside (args lru_name))
main-Counted_example =
    main-Counted outside (args lru_name) (chosen lru_name) lru_name trace
      (λ o. record { version = 0; vaddr = 0 }) read_args refl refl refl refl refl
      (λ file n c. ground arith, λ idx. refl) (omega arith) (omega arith)
      (omega arith, (omega arith, (omega arith, tt))) (omega arith) (omega arith)

-- The third reference is a hit, also with opt.
abbrev two_misses : Counts
two_misses = record {
  hit_count = 1;
  miss_count = 2;
  evict_clean_count = 0;
  evict_dirty_count = 0;
  ref_count = 3;
}

paging : Unit {0}
unfolding main bitmap_create replay_trace access_mem find_physpage locate resolve first_reference
    allocate_frame free_frame touch
paging = tt

main_fifo : main outside (args fifo_name) ≡ some two_misses
unfolding paging
main_fifo = refl

main_opt : main outside (args opt_name) ≡ some two_misses
unfolding paging opt_init opt_ref
main_opt = refl

-- A name that is not in the table ends the program, and so does a missing one.
main_unknown : main outside (args (b'o' ∷ [])) ≡ none
unfolding main bitmap_create
main_unknown = refl

main_no_name : main outside [] ≡ none
unfolding main bitmap_create
main_no_name = refl

abbrev one_page : ℕ → Pte
one_page j = if j == 1 then record { frame = 4096 * 3 + 3; swap_off = negsuc 0 } else blank_pte

-- Of four entries the second one is valid and dirty, in frame 3.
printed :
    print_entries 4 0
      (λ j. if j == 1 then record { frame = 4096 * 3 + 3; swap_off = negsuc 0 } else blank_pte)
      none
    ≡ invalid 0 0 ∷ in_frame 1 true 3 ∷ invalid 2 3 ∷ []
unfolding print_entries
printed = refl
