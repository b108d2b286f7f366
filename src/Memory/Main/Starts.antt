-- ===== src/Memory/Main/Starts.antt =====
-- The entries of the table of sim.c, and what their init functions leave to replay_trace.
use kernel_programming_proje.Base.{
  ℕ, zero, suc, ◌+◌, ◌<◌, ◌≡◌, refl, Bool, true, false, ◌||◌, List, [], none, some, inl, inr,
  Bool-cases, str_eq, arith,
}
use kernel_programming_proje.Memory.State.{Frame, Machine}
use kernel_programming_proje.Memory.Pagetable.Coherent.{Lawful, Steady, in_use, moved-Steady}
use kernel_programming_proje.Memory.Fifo.{fifo_init}
use kernel_programming_proje.Memory.Fifo.Laws.{fifo-Lawful}
use kernel_programming_proje.Memory.Clock.{clock_init}
use kernel_programming_proje.Memory.Clock.Laws.{clock-Lawful, clock_tracks}
use kernel_programming_proje.Memory.Rand.Laws.{rand-Lawful, rand_tracks}
use kernel_programming_proje.Memory.Lru.{Ends, clear_links, lru_init, set_next, set_previous}
use kernel_programming_proje.Memory.Lru.Laws.{Ordered}
use kernel_programming_proje.Memory.Lru.Lawful.{lru-Lawful}
use kernel_programming_proje.Memory.Main.{
  Outside, Options, Functions, rand_name, lru_name, fifo_name, clock_name, algs, find_alg,
  rand_functions, lru_functions, fifo_functions, clock_functions,
}

-- No frame is in use or linked.
pub record Unused {F A : Type 0} (s : Machine F A) : Type 0 where
  pub free : (f : ℕ) → in_use s f ≡ false
  pub next : (f : ℕ) → (s.coremap f).next ≡ none
  pub previous : (f : ℕ) → (s.coremap f).previous ≡ none

-- An algorithm that keeps what pagetable.c relies on, whose init function returns with nothing but
-- its variables and the links changed, and tracks no frame then.
pub record Starts {F : Type 0} (m : ℕ) (a : Functions F) : Type 1 where
  pub laws : Lawful m a.alg
  pub first :
      (s : Machine F a.State)
      → Unused s
      → (s1 : Machine F a.State) × (a.init s ≡ some s1) × Steady s s1 × laws.Tracks s1 (in_use s1)

-- The loop of lru_init on a coremap without links.
clear_links-none :
    (n i f : ℕ) (frames : ℕ → Frame)
    → (frames f).next ≡ none
    → (frames f).previous ≡ none
    → ((clear_links n i frames f).in_use ≡ (frames f).in_use)
      × ((clear_links n i frames f).pte ≡ (frames f).pte)
      × ((clear_links n i frames f).next ≡ none)
      × ((clear_links n i frames f).previous ≡ none)
unfolding clear_links
clear_links-none zero i f frames a b = (refl, refl, a, b)
clear_links-none (suc n) i f frames a b =
    let frames' : ℕ → Frame = set_previous i none (set_next i none frames) in
    let (c, d, e, g) = clear_links-none n (i + 1) f frames' (ground arith) (ground arith) in
    (ground (arith, c), ground (arith, d), e, g)

module _ {F : Type 0} (m : ℕ) (s : Machine F Ends) (u : Unused s) where
  cleared :
      (f : ℕ)
      → ((lru_init m s).coremap f).in_use ≡ (s.coremap f).in_use
        × (((lru_init m s).coremap f).pte ≡ (s.coremap f).pte)
        × (((lru_init m s).coremap f).next ≡ none)
        × (((lru_init m s).coremap f).previous ≡ none)
  unfolding lru_init
  cleared f = clear_links-none m 0 f s.coremap (u.next f) (u.previous f)

  lru_init-Steady : Steady s (lru_init m s)
  unfolding lru_init
  lru_init-Steady = record {
    in_use_same = λ f. (cleared f).0;
    pte_same = λ f. (cleared f).1;
    pgdir_same = refl;
    physmem_same = refl;
    file_same = refl;
    swapmap_same = refl;
    hit_same = refl;
    miss_same = refl;
    ref_same = refl;
    clean_same = refl;
    dirty_same = refl;
    errors_same = refl;
    swap_off_same = λ p. refl;
    number_same = λ p. refl;
    valid_same = λ p. refl;
    dirty_flag_same = λ p. refl;
    onswap_same = λ p. refl;
  }

  lru_init-Ordered : Ordered (lru_init m s) []
  unfolding lru_init
  lru_init-Ordered = record {
    distinct = tt;
    starts = refl;
    ends = refl;
    front = none;
    front_is = inl refl;
    nexts = λ g. (cleared g).2;
    previouses = λ g. (cleared g).3;
  }

-- The names of the table but "opt".
abbrev pub is_paging : List ℕ → Bool
is_paging name =
    str_eq rand_name name
    || (str_eq lru_name name || (str_eq fifo_name name || str_eq clock_name name))

module _ {F G : Type 0} (w : Outside F G) (o : Options) (some_frame : 0 < o.memsize) where
  rand-Starts : Starts o.memsize (rand_functions w o)
  rand-Starts = record {
    laws = rand-Lawful w.seed w.random o.memsize some_frame;
    first = λ s u. (
      s,
      refl,
      moved-Steady s s.alg,
      rand_tracks w.seed w.random o.memsize some_frame s (in_use s),
    );
  }

  fifo-Starts : Starts o.memsize (fifo_functions w o)
  unfolding fifo-Lawful
  fifo-Starts = record {
    laws = fifo-Lawful o.memsize some_frame;
    first = λ s u. (record s { alg = fifo_init }, refl, moved-Steady s fifo_init, refl);
  }

  clock-Starts : Starts o.memsize (clock_functions w o)
  clock-Starts = record {
    laws = clock-Lawful o.memsize some_frame;
    first = λ s u. (
      record s { alg = clock_init },
      refl,
      moved-Steady s clock_init,
      clock_tracks o.memsize some_frame _ _ refl,
    );
  }

  lru-Starts : Starts o.memsize (lru_functions w o)
  unfolding lru-Lawful
  lru-Starts = record {
    laws = lru-Lawful o.memsize;
    first = λ s u. (
      lru_init o.memsize s,
      refl,
      lru_init-Steady o.memsize s u,
      ([], lru_init-Ordered o.memsize s u, λ f. ground (arith, cleared o.memsize s u f, u.free f)),
    );
  }

  pub find_alg-Starts :
      (name : List ℕ)
      → is_paging name ≡ true
      → (a : Functions F) × (find_alg w name (algs w o) ≡ some a) × Starts o.memsize a
  unfolding find_alg
  find_alg-Starts name h = elim (Bool-cases (str_eq rand_name name)) [
    | inl r ↦ (rand_functions w o, rw r refl, rand-Starts)
    | inr r ↦ elim (Bool-cases (str_eq lru_name name)) [
      | inl l ↦ (lru_functions w o, rw (r, l) refl, lru-Starts)
      | inr l ↦ elim (Bool-cases (str_eq fifo_name name)) [
        | inl f ↦ (fifo_functions w o, rw (r, l, f) refl, fifo-Starts)
        | inr f ↦ elim (Bool-cases (str_eq clock_name name)) [
          | inl c ↦ (clock_functions w o, rw (r, l, f, c) refl, clock-Starts)
          | inr c ↦ absurd (ground (arith, h, r, l, f, c))
        ]
      ]
    ]
  ]
