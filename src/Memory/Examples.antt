-- ===== src/Memory/Examples.antt =====
-- The theorems at concrete bitmaps and machines.
use kernel_programming_proje.Base.{
  ℕ, ◌≡◌, refl, true, false, none, some, ℤ, After, arith, ◌==◌, if◌then◌else◌, is_zero, ◌-ℤ◌,
}
use kernel_programming_proje.Memory.Bitmap.{Bitmap, bitmap_alloc, bitmap_isset, mark_bits}
use kernel_programming_proje.Memory.Bitmap.Laws.{IsWell, mark_bits-test}
use kernel_programming_proje.Memory.Bitmap.Refine.{
  zero-test_bit, FreeFrom, Allocates, bitmap_alloc-Allocates,
}
use kernel_programming_proje.Memory.State.{Page, page, Device, Machine}
use kernel_programming_proje.Memory.Fifo.{fifo, fifo_init}
use kernel_programming_proje.Memory.Fifo.Laws.{fifo-Lawful}
use kernel_programming_proje.Memory.Pagetable.{find_physpage, blank_pte}
use kernel_programming_proje.Memory.Pagetable.Coherent.{Agree-tables, Coherent, Supply}
use kernel_programming_proje.Memory.Pagetable.Translate.{Translated, find_physpage-Translated}
use kernel_programming_proje.Base.{List, [], ◌∷◌, negsuc, ◌*◌, ◌+◌, ◌%◌}
use kernel_programming_proje.Memory.Clock.{clock_evict}
use kernel_programming_proje.Memory.Clock.Steps.{Chosen, clock_evict-Chosen}
use kernel_programming_proje.Memory.Sim.{access_mem, replay_trace}
use kernel_programming_proje.Memory.Sim.Replay.{Ready, Replayed, replay_trace-Replayed}
use kernel_programming_proje.Memory.Sim.Access.{Accessed, access_mem-Accessed}

-- Forty slots, of which slot 0 is taken.
abbrev slots : Bitmap
slots = record { nbits = 40; v = λ i. if i == 1 then mark_bits 24 8 0 else if i == 0 then 1 else 0 }

slots-IsWell : IsWell slots
slots-IsWell = record {
  small = omega arith;
  words = λ i. ground arith;
  over = λ i k a c e. ground (arith, mark_bits-test 24 8 0 k);
}

bitmap_alloc-Allocates_example : Allocates slots (bitmap_alloc slots)
bitmap_alloc-Allocates_example = bitmap_alloc-Allocates slots slots-IsWell

abbrev pub disk : Device (ℤ → Page)
disk = record {
  read = λ file offset. page (file offset);
  memalign = λ idx. true;
  write = λ file offset c. some (λ o. if is_zero (o -ℤ offset) then c else file o);
}

abbrev boot : Machine (ℤ → Page) ℤ
boot = record {
  coremap = λ f. record { in_use = false; pte = none; next = none; previous = none };
  pgdir = λ i. false;
  ptes = λ p. blank_pte;
  physmem = λ f. record { version = 0; vaddr = 0 };
  file = λ o. record { version = 0; vaddr = 0 };
  swapmap = slots;
  hit_count = 0;
  miss_count = 0;
  ref_count = 0;
  evict_clean_count = 0;
  evict_dirty_count = 0;
  errors = 0;
  alg = fifo_init;
}

boot-Coherent : Coherent 2 boot
boot-Coherent = record {
  range = λ f h. absurd (ground arith);
  held = λ f x h. absurd (ground arith);
  live = λ f x h. absurd (ground arith);
  named = λ f x h. absurd (ground arith);
  placed = λ p h. absurd (ground arith);
  back = λ p h. absurd (ground arith);
  apart = λ p h. refl;
  offsets = λ p. refl;
  offswap = λ p. refl;
  mapped = λ p h. absurd (ground arith);
}

slot_1 : bitmap_isset slots 1 ≡ false
unfolding bitmap_isset
slot_1 = refl

boot-Supply : Supply disk boot
boot-Supply = record {
  well = slots-IsWell;
  fits = omega arith;
  slot = 1;
  inside = omega arith;
  open_slot = slot_1;
}

find_physpage-Translated_example :
    After
      (Translated (fifo-Lawful 2 (omega arith)) 0x1234000 b'S' boot)
      (find_physpage 2 disk (fifo 2) 0x1234000 b'S' boot)
unfolding fifo-Lawful
find_physpage-Translated_example =
    find_physpage-Translated 2 disk (fifo 2) (fifo-Lawful 2 (omega arith)) 0x1234000 b'S' boot
      (λ file n c. ground arith, λ idx. refl) (omega arith) (omega arith) (omega arith)
      boot-Coherent refl boot-Supply

access_mem-Accessed_example :
    After
      (λ _. Accessed (fifo-Lawful 2 (omega arith)) 0x1234000 b'S' boot)
      (access_mem 2 disk (fifo 2) b'S' 0x1234000 boot)
unfolding fifo-Lawful
access_mem-Accessed_example =
    access_mem-Accessed 2 disk (fifo 2) (fifo-Lawful 2 (omega arith)) 0x1234000 b'S' boot
      (λ file n c. ground arith, λ idx. refl) (omega arith) (omega arith) (omega arith)
      boot-Coherent refl boot-Supply

-- Two frames in use, both referenced.
abbrev busy : Machine (ℤ → Page) ℤ
busy = record boot {
  coremap = λ f. record { in_use = true; pte = some f; next = none; previous = none };
  ptes = λ p. record { frame = p * 4096 + 5; swap_off = negsuc 0 };
}

clock_evict-Chosen_example :
    After (Chosen 2 (omega arith) busy refl (λ f lt. refl)) (clock_evict 2 busy)
clock_evict-Chosen_example = clock_evict-Chosen 2 (omega arith) busy refl (λ f lt. refl)

-- A reading of lines whose bytes are the kind of the reference and the number of the page.
abbrev pub scan_bytes : List ℕ → ℕ → ℕ → ℕ × ℕ
scan_bytes [] type vaddr = (type, vaddr)
scan_bytes (t ∷ []) type vaddr = (t, vaddr)
scan_bytes (t ∷ n ∷ bytes) type vaddr = (t, n * 4096)

-- The same with 64 slots, all of them free.
abbrev fresh : Bitmap
fresh = record { nbits = 64; v = λ i. 0 }

fresh-IsWell : IsWell fresh
fresh-IsWell = record {
  small = omega arith;
  words = λ i. omega arith;
  over = λ i k a c e. absurd (omega arith);
}

fresh-FreeFrom : FreeFrom 0 fresh
unfolding bitmap_isset
fresh-FreeFrom j a lt = zero-test_bit (j % 32)

abbrev roomy : Machine (ℤ → Page) ℤ
roomy = record boot { swapmap = fresh }

roomy-Ready : Ready (fifo-Lawful 2 (omega arith)) 3 roomy
unfolding fifo-Lawful
roomy-Ready = record {
  coherent = Agree-tables 2 boot roomy (λ f. false) refl refl refl boot-Coherent;
  tracks = refl;
  well = fresh-IsWell;
  fits = omega arith;
  used = 0;
  free = fresh-FreeFrom;
  room = omega arith;
}

-- A write of page 1, a line to skip and reads of pages 2 and 3.
abbrev three_pages : List (List ℕ)
three_pages = (b'S' ∷ 1 ∷ []) ∷ (b'=' ∷ []) ∷ (b'L' ∷ 2 ∷ []) ∷ (b'L' ∷ 3 ∷ []) ∷ []

replay_trace-Replayed_example :
    After
      (λ _ s'. Replayed (fifo-Lawful 2 (omega arith)) 3 roomy s')
      (replay_trace 2 disk (fifo 2) scan_bytes three_pages 0 0 roomy)
replay_trace-Replayed_example =
    replay_trace-Replayed 2 disk (fifo 2) (fifo-Lawful 2 (omega arith))
      (λ file n c. ground arith, λ idx. refl) (omega arith) (omega arith) scan_bytes three_pages 0 0
      roomy (omega arith, (omega arith, (omega arith, tt))) roomy-Ready
