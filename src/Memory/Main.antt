-- ===== src/Memory/Main.antt =====
-- main of sim.c, with the table of the algorithms, and the functions that it starts with: swap_init
-- of swap.c and init_pagetable of pagetable.c. What the program gets from outside is one record. A
-- function returns `none` where the program exits with status 1, as in State.
pub mod Starts
pub mod Finish
use kernel_programming_proje.Base.{
  ℕ, zero, suc, ◌+◌, ◌%◌, ◌^◌, Bool, true, false, List, [], ◌∷◌, Option, none, some, ℤ, pos, negsuc,
  ◌==◌, str_eq, put,
}
use kernel_programming_proje.Memory.Bitmap.{Bitmap, bitmap_create}
use kernel_programming_proje.Memory.State.{Page, Device, Machine, Algorithm}
use kernel_programming_proje.Memory.Pagetable.{blank_pte}
use kernel_programming_proje.Memory.Fifo.{fifo, fifo_init}
use kernel_programming_proje.Memory.Clock.{clock, clock_init}
use kernel_programming_proje.Memory.Rand.{rand}
use kernel_programming_proje.Memory.Lru.{Ends, lru, lru_init}
use kernel_programming_proje.Memory.Opt.{Variables, opt_ref, opt_evict}
use kernel_programming_proje.Memory.Opt.Trace.{opt_init}
use kernel_programming_proje.Memory.Sim.{replay_trace}

-- A trace file is the list of its lines. `fopen` and `mkstemp` may fail, and so may malloc in
-- bitmap_create, by `memory`; `physmem` is what malloc leaves in the simulated memory, and `type`
-- and `address` what variables hold that are read before they are set.
pub record Outside (F G : Type 0) : Type 0 where
  pub stdin : List (List ℕ)
  pub fopen : List ℕ → Option (List (List ℕ))
  pub strtoul : List ℕ → ℕ
  pub scan : List ℕ → ℕ → ℕ → ℕ × ℕ
  pub mkstemp : Option F
  pub device : Device F
  pub memory : Bool
  pub physmem : ℕ → Page
  pub seed : G
  pub random : G → ℕ × G
  pub type : ℕ
  pub address : ℕ

-- What the options set.
pub record Options : Type 0 where
  pub tracefile : Option (List ℕ)
  pub memsize : ℕ
  pub replacement_alg : Option (List ℕ)
  pub swapsize : ℕ

abbrev pub no_options : Options
no_options = record { tracefile = none; memsize = 0; replacement_alg = none; swapsize = 4096 }

-- The values that getopt returns, each with optarg; all but f, m, a and s end the program.
unfoldable pub read_options : (List ℕ → ℕ) → List (ℕ × List ℕ) → Options → Option Options
read_options strtoul [] o = some o
read_options strtoul ((opt, optarg) ∷ rest) o = elim (opt == b'f') [
  | true ↦ read_options strtoul rest (record o { tracefile = some optarg })
  | false ↦ elim (opt == b'm') [
    | true ↦ read_options strtoul rest (record o { memsize = strtoul optarg % 2 ^ 32 })
    | false ↦ elim (opt == b'a') [
      | true ↦ read_options strtoul rest (record o { replacement_alg = some optarg })
      | false ↦ elim (opt == b's') [
        | true ↦ read_options strtoul rest (record o { swapsize = strtoul optarg % 2 ^ 32 })
        | false ↦ none
      ]
    ]
  ]
]

-- The loop of init_pagetable, for the `n` entries from `i` on.
unfoldable pub init_pagetable : ℕ → ℕ → (ℕ → Bool) → ℕ → Bool
init_pagetable zero i pgdir = pgdir
init_pagetable (suc n) i pgdir = init_pagetable n (i + 1) (put pgdir i false)

abbrev pub no_node : Variables
no_node = record {
  hashmap_size = 0;
  hashmap_ptr = λ i. none;
  vaddrs = λ v. record {
    virtual_addr = 0;
    next = none;
    next_in_frame = none;
    frame_number = pos 0;
    occurances = [];
  };
  mallocs = 0;
  coremap_head = none;
  reference_string = λ i. none;
  position = 0;
}

-- `struct functions`: the name, the algorithm's variables with their values at the start of the
-- program, and the three functions.
pub record Functions (F : Type 0) : Type 1 where
  pub name : List ℕ
  pub State : Type 0
  pub before : State
  pub init : Machine F State → Option (Machine F State)
  pub alg : Algorithm F State

abbrev pub rand_name : List ℕ
rand_name = b'r' ∷ b'a' ∷ b'n' ∷ b'd' ∷ []

abbrev pub lru_name : List ℕ
lru_name = b'l' ∷ b'r' ∷ b'u' ∷ []

abbrev pub fifo_name : List ℕ
fifo_name = b'f' ∷ b'i' ∷ b'f' ∷ b'o' ∷ []

abbrev pub clock_name : List ℕ
clock_name = b'c' ∷ b'l' ∷ b'o' ∷ b'c' ∷ b'k' ∷ []

abbrev pub opt_name : List ℕ
opt_name = b'o' ∷ b'p' ∷ b't' ∷ []

-- The numbers that main prints.
pub record Counts : Type 0 where
  pub hit_count : ℕ
  pub miss_count : ℕ
  pub evict_clean_count : ℕ
  pub evict_dirty_count : ℕ
  pub ref_count : ℕ

module _ {F G : Type 0} (w : Outside F G) where
  module _ (o : Options) where
    abbrev pub rand_functions : Functions F
    rand_functions = record {
      name = rand_name;
      State = G;
      before = w.seed;
      init = λ s. some s;
      alg = rand w.seed w.random o.memsize;
    }

    abbrev pub lru_functions : Functions F
    lru_functions = record {
      name = lru_name;
      State = Ends;
      before = record { head = none; tail = none };
      init = λ s. some (lru_init o.memsize s);
      alg = lru;
    }

    abbrev pub fifo_functions : Functions F
    fifo_functions = record {
      name = fifo_name;
      State = ℤ;
      before = pos 0;
      init = λ s. some (record s { alg = fifo_init });
      alg = fifo o.memsize;
    }

    abbrev pub clock_functions : Functions F
    clock_functions = record {
      name = clock_name;
      State = ℤ;
      before = pos 0;
      init = λ s. some (record s { alg = clock_init });
      alg = clock o.memsize;
    }

    -- opt_init opens the trace file once more; without one it is given a null pointer.
    abbrev pub opt_trace : Option (List (List ℕ))
    opt_trace = elim o.tracefile [ none ↦ none | some name ↦ w.fopen name ]

    abbrev pub opt_functions : Functions F
    opt_functions = record {
      name = opt_name;
      State = Variables;
      before = no_node;
      init = λ s. elim (opt_init w.scan o.memsize opt_trace w.type w.address s.alg) [
        | none ↦ none
        | some v ↦ some (record s { alg = v })
      ];
      alg = record { init = no_node; ref = opt_ref; evict = opt_evict };
    }

    abbrev pub algs : List (Functions F)
    algs = rand_functions ∷ lru_functions ∷ fifo_functions ∷ clock_functions ∷ opt_functions ∷ []

    -- The file that the trace is read from.
    abbrev pub open_trace : Option (List (List ℕ))
    open_trace = elim o.tracefile [ none ↦ some w.stdin | some name ↦ w.fopen name ]

  -- The loop over the table.
  unfoldable pub find_alg : List ℕ → List (Functions F) → Option (Functions F)
  find_alg name [] = none
  find_alg name (a ∷ rest) = elim (str_eq a.name name) [
    | true ↦ some a
    | false ↦ find_alg name rest
  ]

  unfoldable pub swap_init : ℕ → Option (F × Bitmap)
  swap_init swapsize = elim w.mkstemp [
    | none ↦ none
    | some file ↦ elim (bitmap_create w.memory swapsize) [
      | none ↦ none
      | some none ↦ none
      | some (some map) ↦ some (file, map)
    ]
  ]

  -- The machine before the algorithm's init function. coremap comes from calloc, and an entry of a
  -- second-level table that is not there yet is blank.
  unfoldable pub start : {A : Type 0} → A → F → Bitmap → Machine F A
  unfolding init_pagetable
  start before file map = record {
    coremap = λ f. record { in_use = false; pte = none; next = none; previous = none };
    pgdir = init_pagetable 4096 0 (λ i. false);
    ptes = λ p. blank_pte;
    physmem = w.physmem;
    file = file;
    swapmap = map;
    hit_count = 0;
    miss_count = 0;
    ref_count = 0;
    evict_clean_count = 0;
    evict_dirty_count = 0;
    errors = 0;
    alg = before;
  }

  -- From the call of the init function on.
  unfoldable pub simulate :
      (o : Options) (a : Functions F) → List (List ℕ) → Machine F a.State → Option Counts
  simulate o a lines s = elim (a.init s) [
    | none ↦ none
    | some s1 ↦ elim (replay_trace o.memsize w.device a.alg w.scan lines w.type 0 s1) [
      | none ↦ none
      | some (u, s2) ↦ some (record {
        hit_count = s2.hit_count;
        miss_count = s2.miss_count;
        evict_clean_count = s2.evict_clean_count;
        evict_dirty_count = s2.evict_dirty_count;
        ref_count = s2.ref_count;
      })
    ]
  ]

  unfoldable pub main : List (ℕ × List ℕ) → Option Counts
  unfolding read_options find_alg swap_init start simulate
  main args = elim (read_options w.strtoul args no_options) [
    | none ↦ none
    | some o ↦ elim (open_trace o) [
      | none ↦ none
      | some lines ↦ elim (swap_init o.swapsize) [
        | none ↦ none
        | some (file, map) ↦ elim o.replacement_alg [
          | none ↦ none
          | some name ↦ elim (find_alg name (algs o)) [
            | none ↦ none
            | some a ↦ simulate o a lines (start a.before file map)
          ]
        ]
      ]
    ]
  ]
