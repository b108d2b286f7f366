-- ===== src/Memory/Main/Finish.antt =====
-- A run of main of sim.c from its options to the counts that it prints.
use kernel_programming_proje.Base.{
  ℕ, ◌+◌, ◌^◌, ◌≤◌, ◌<◌, ◌≡◌, refl, true, false, List, length, Option, none, some, After, arith,
  subst, sym,
}
use kernel_programming_proje.Memory.Bitmap.{Bitmap, bitmap_isset}
use kernel_programming_proje.Memory.Bitmap.Laws.{IsWell}
use kernel_programming_proje.Memory.Bitmap.Refine.{bitmap_create-IsWell}
use kernel_programming_proje.Memory.State.{Machine}
use kernel_programming_proje.Memory.Pagetable.Coherent.{Coherent, Steady, Serves, in_use}
use kernel_programming_proje.Memory.Pagetable.Allocate.{Agree-Steady}
use kernel_programming_proje.Memory.Sim.{replay_trace}
use kernel_programming_proje.Memory.Sim.Trace.{references}
use kernel_programming_proje.Memory.Sim.Replay.{Low, Ready, Replayed, replay_trace-Replayed}
use kernel_programming_proje.Memory.Main.{
  Outside, Options, no_options, Functions, Counts, read_options, open_trace, swap_init, start,
  simulate, main,
}
use kernel_programming_proje.Memory.Main.Starts.{Unused, Starts, is_paging, find_alg-Starts}

-- A run that returns, with what holds of its state.
run_of :
    {S : Type 0} (P : Unit {0} → S → Type 0) (r : Option (Unit {0} × S))
    → After P r
    → (s : S) × (r ≡ some (tt, s)) × P tt s
run_of P none h = absurd h
run_of P (some (tt, s)) h = (s, refl, h)

module _ {F G : Type 0} (w : Outside F G) where
  module _ {A : Type 0} (before : A) (file : F) (map : Bitmap) where
    start-Unused : Unused (start w before file map)
    unfolding start
    start-Unused = record { free = λ f. refl; next = λ f. refl; previous = λ f. refl }

    start-Coherent : (m : ℕ) → Coherent m (start w before file map)
    unfolding start
    start-Coherent m = record {
      range = λ f h. absurd (ground arith);
      held = λ f x h. absurd (ground arith);
      live = λ f x h. absurd (ground arith);
      named = λ f x h. absurd (ground arith);
      placed = λ p h. absurd (ground arith);
      back = λ p h. absurd (ground arith);
      apart = λ p h. refl;
      offsets = λ p. refl;
      offswap = λ p. refl;
      mapped = λ p h. absurd (ground arith);
    }

  started-Ready :
      (m : ℕ) (a : Functions F) (st : Starts m a) (n : ℕ) (file : F) (map : Bitmap)
      (s1 : Machine F a.State)
      → Steady (start w a.before file map) s1
      → st.laws.Tracks s1 (in_use s1)
      → IsWell map
      → ((j : ℕ) → j < map.nbits → bitmap_isset map j ≡ false)
      → map.nbits ≤ 2 ^ 27
      → n ≤ map.nbits
      → Ready st.laws n s1
  unfolding start
  started-Ready m a st n file map s1 steady tracks well free fits room = record {
    coherent =
        Agree-Steady m (start w a.before file map) s1 steady (λ f. false)
          (start-Coherent a.before file map m);
    tracks = tracks;
    well = subst IsWell (sym steady.swapmap_same) well;
    fits = ground (arith, steady.swapmap_same, fits);
    used = 0;
    free = λ j z lt. ground (arith, steady.swapmap_same, free j, lt);
    room = ground (arith, steady.swapmap_same, room);
  }

  -- The counts of a run, when there were `n` references.
  abbrev pub Counted : ℕ → Option Counts → Type 0
  Counted n r = (c : Counts) × (r ≡ some c) × (c.ref_count ≡ n) × (c.hit_count + c.miss_count ≡ n)

  simulate-Counted :
      (o : Options) (a : Functions F) (lines : List (List ℕ)) (file : F) (map : Bitmap)
      → Starts o.memsize a
      → Serves w.device
      → 0 < o.memsize
      → o.memsize ≤ 2 ^ 20
      → Low (references w.scan lines w.type 0)
      → IsWell map
      → ((j : ℕ) → j < map.nbits → bitmap_isset map j ≡ false)
      → map.nbits ≤ 2 ^ 27
      → length (references w.scan lines w.type 0) ≤ map.nbits
      → Counted
          (length (references w.scan lines w.type 0))
          (simulate w o a lines (start w a.before file map))
  unfolding simulate start
  simulate-Counted o a lines file map st writes some_frame memory low well free fits room =
      let n : ℕ = length (references w.scan lines w.type 0) in
      let s0 : Machine F a.State = start w a.before file map in
      let (s1, runs, steady, tracks) = st.first s0 (start-Unused a.before file map) in
      let ready : Ready st.laws n s1 =
        started-Ready o.memsize a st n file map s1 steady tracks well free fits room in
      let (s2, ends, r) =
        run_of (λ _ s'. Replayed st.laws n s1 s')
          (replay_trace o.memsize w.device a.alg w.scan lines w.type 0 s1)
          (replay_trace-Replayed o.memsize w.device a.alg st.laws writes memory some_frame w.scan
            lines w.type 0 s1 low ready) in
      rw (simulate, runs, ends)
        (
          _,
          refl,
          ground (arith, r.ref_next, steady.ref_same),
          ground (arith, r.either_next, steady.hit_same, steady.miss_same),
        )

  -- When the options are read, they name one of the algorithms rand, lru, fifo and clock, the trace
  -- and the swap file can be opened and malloc succeeds, with at least one and at most 2^20 frames,
  -- addresses below 2^36, a swap file that takes every page, memory for every page table, and at
  -- most 2^27 slots, one or more for each reference, main comes to its end. The total that it
  -- prints is the number of the lines of the trace that do not begin with '=', and the hits and
  -- misses that it prints add up to it.
  pub main-Counted :
      (args : List (ℕ × List ℕ)) (o : Options) (name : List ℕ) (lines : List (List ℕ)) (file : F)
      → read_options w.strtoul args no_options ≡ some o
      → o.replacement_alg ≡ some name
      → is_paging name ≡ true
      → open_trace w o ≡ some lines
      → w.mkstemp ≡ some file
      → w.memory ≡ true
      → Serves w.device
      → 0 < o.memsize
      → o.memsize ≤ 2 ^ 20
      → Low (references w.scan lines w.type 0)
      → length (references w.scan lines w.type 0) ≤ o.swapsize
      → o.swapsize ≤ 2 ^ 27
      → Counted (length (references w.scan lines w.type 0)) (main w args)
  unfolding main swap_init
  main-Counted args o name lines file reads alg paging opens made memory writes some_frame frames
        low room fits =
      let (map, creates, size, well, free) =
        bitmap_create-IsWell o.swapsize (omega (arith, fits)) in
      let (a, finds, st) = find_alg-Starts w o some_frame name paging in
      rw (main, reads, opens, swap_init, made, memory, creates, alg, finds)
        (simulate-Counted o a lines file map st writes some_frame frames low well
          (λ j lt. free j (omega (arith, size, lt))) (omega (arith, size, fits))
          (omega (arith, size, room)))
