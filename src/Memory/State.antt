-- ===== src/Memory/State.antt =====
-- pagetable.h and sim.h: the data of the simulator. `F` stands for the state of the swap file, which
-- belongs to the operating system, and `A` for the variables of the replacement algorithm. A
-- function returns `none` where the C program exits, fails an assertion or follows a null pointer.
use kernel_programming_proje.Base.{ℕ, ◌/◌, Bool, true, false, Option, none, some, ℤ, put}
use kernel_programming_proje.Word.{test_bit, set_bit, clear_bit}
use kernel_programming_proje.Memory.Bitmap.{Bitmap}

-- pgtbl_entry_t: `frame` holds the frame number above the 12 status bits.
pub record Pte : Type 0 where
  pub frame : ℕ
  pub swap_off : ℤ

-- The positions of PG_VALID, PG_DIRTY, PG_REF and PG_ONSWAP.
abbrev pub pg_valid : ℕ
pg_valid = 0

abbrev pub pg_dirty : ℕ
pg_dirty = 1

abbrev pub pg_ref : ℕ
pg_ref = 2

abbrev pub pg_onswap : ℕ
pg_onswap = 3

abbrev pub has_flag : ℕ → Pte → Bool
has_flag b e = test_bit e.frame b

abbrev pub with_flag : ℕ → Pte → Pte
with_flag b e = record e { frame = set_bit e.frame b }

abbrev pub without_flag : ℕ → Pte → Pte
without_flag b e = record e { frame = clear_bit e.frame b }

-- `e->frame >> PAGE_SHIFT`.
abbrev pub frame_number : Pte → ℕ
frame_number e = e.frame / 4096

-- `struct frame`. A pointer to a page table entry is the number 4096 * i + j of entry j of the table
-- that entry i of the page directory holds; a pointer to a frame is its index in the coremap.
pub record Frame : Type 0 where
  pub in_use : Bool
  pub pte : Option ℕ
  pub next : Option ℕ
  pub previous : Option ℕ

-- The 16 bytes of a simulated page that the program reads: the version counter in the first four,
-- and the virtual address in the eight behind them.
pub record Page : Type 0 where
  pub version : ℕ
  pub vaddr : ℕ

-- What lseek and read give: a page, or the number that swap_pagein returns for a failure, -errno
-- or the count of the bytes that were there.
pub data Read : Type 0 where
  page : Page → Read
  code : ℤ → Read

-- The operating system: reading and writing a page of the swap file at a byte offset, where a write
-- that fails is `none`, and whether posix_memalign has memory for the page table of an entry of the
-- page directory.
pub record Device (F : Type 0) : Type 0 where
  pub read : F → ℤ → Read
  pub write : F → ℤ → Page → Option F
  pub memalign : ℕ → Bool

pub record Machine (F A : Type 0) : Type 0 where
  pub coremap : ℕ → Frame
  pub pgdir : ℕ → Bool
  pub ptes : ℕ → Pte
  pub physmem : ℕ → Page
  pub file : F
  pub swapmap : Bitmap
  pub hit_count : ℕ
  pub miss_count : ℕ
  pub ref_count : ℕ
  pub evict_clean_count : ℕ
  pub evict_dirty_count : ℕ
  pub errors : ℕ
  pub alg : A

abbrev pub M : (F A B : Type 0) → Type 0
M F A B = Machine F A → Option (B × Machine F A)

infixl 5 ◌>>=◌ ◌>>◌
abbrev pub ◌>>=◌ : {F A B C : Type 0} → M F A B → (B → M F A C) → M F A C
◌>>=◌ m f s = elim (m s) [ none ↦ none | some (b, s') ↦ f b s' ]

abbrev pub ◌>>◌ : {F A C : Type 0} → M F A (Unit {0}) → M F A C → M F A C
m >> n = m >>= λ _. n

abbrev pub pure : {F A B : Type 0} → B → M F A B
pure b s = some (b, s)

infix 1 when◌then◌else◌
abbrev pub when◌then◌else◌ : {F A B : Type 0} → Bool → M F A B → M F A B → M F A B
when◌then◌else◌ b m n s = elim b [ true ↦ m s | false ↦ n s ]

abbrev pub set_pte : {F A : Type 0} → ℕ → Pte → M F A (Unit {0})
set_pte p e s = some (tt, record s { ptes = put s.ptes p e })

abbrev pub get_pte : {F A : Type 0} → ℕ → M F A Pte
get_pte p s = some (s.ptes p, s)

-- `struct functions`: a replacement algorithm. `evict` returns the index of the victim's frame.
pub record Algorithm (F A : Type 0) : Type 0 where
  pub init : A
  pub ref : ℕ → M F A (Unit {0})
  pub evict : M F A ℕ
