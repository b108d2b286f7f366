-- ===== src/Memory/Pagetable/Coherent.antt =====
-- What the coremap and the page tables always agree on, what a replacement algorithm owes to
-- pagetable.c, and what evicting needs of the swap file.
use kernel_programming_proje.Base.{
  ℤ, negsuc, ℕ, ◌/◌, ◌≤◌, ◌<◌, ◌≡◌, refl, ◌∙◌, arith, put, ◌≢◌, Bool, true, false, not, ◌&&◌, ◌||◌,
  Option, none, some, ltb, ◌==◌, After, pos, ◌^◌,
}
use kernel_programming_proje.Memory.Bitmap.{bitmap_isset}
use kernel_programming_proje.Memory.Bitmap.Laws.{IsWell}
use kernel_programming_proje.Memory.State.{
  Pte, pg_valid, pg_dirty, pg_onswap, has_flag, frame_number, Page, Device, Machine, Algorithm,
}

abbrev pub is_some : Option ℕ → Bool
is_some none = false
is_some (some a) = true

abbrev pub target : Option ℕ → ℕ
target none = 0
target (some p) = p

-- The page table entry that frame `f` points at.
abbrev pub owner : {F A : Type 0} → Machine F A → ℕ → ℕ
owner s f = target (s.coremap f).pte

abbrev pub in_use : {F A : Type 0} → Machine F A → ℕ → Bool
in_use s f = (s.coremap f).in_use

-- INVALID_SWAP or an offset.
abbrev pub is_offset : ℤ → Bool
is_offset (pos n) = true
is_offset (negsuc n) = n == 0

-- A frame in use points at the valid entry that names the frame, and a valid entry names a frame in
-- use that points back; no entry has PG_ONSWAP; a page directory entry that is not valid has no
-- valid page. `except` leaves out the frame that is being filled.
pub record Agree {F A : Type 0} (m : ℕ) (s : Machine F A) (except : ℕ → Bool) : Type 0 where
  pub range : (f : ℕ) → in_use s f ≡ true → f < m
  pub held : (f : ℕ) → except f ≡ false → in_use s f ≡ true → is_some (s.coremap f).pte ≡ true
  pub live :
      (f : ℕ) → except f ≡ false → in_use s f ≡ true → has_flag pg_valid (s.ptes (owner s f)) ≡ true
  pub named : (f : ℕ) → except f ≡ false → in_use s f ≡ true → frame_number (s.ptes (owner s f)) ≡ f
  pub placed :
      (p : ℕ) → has_flag pg_valid (s.ptes p) ≡ true → in_use s (frame_number (s.ptes p)) ≡ true
  pub back :
      (p : ℕ)
      → has_flag pg_valid (s.ptes p) ≡ true
      → (s.coremap (frame_number (s.ptes p))).pte ≡ some p
  pub apart :
      (p : ℕ) → has_flag pg_valid (s.ptes p) ≡ true → except (frame_number (s.ptes p)) ≡ false
  pub offsets : (p : ℕ) → is_offset (s.ptes p).swap_off ≡ true
  pub offswap : (p : ℕ) → has_flag pg_onswap (s.ptes p) ≡ false
  pub mapped : (p : ℕ) → has_flag pg_valid (s.ptes p) ≡ true → s.pgdir (p / 4096) ≡ true

abbrev pub Coherent : {F A : Type 0} → ℕ → Machine F A → Type 0
Coherent m s = Agree m s (λ f. false)

-- Agreement is about the coremap and the page tables only.
pub Agree-tables :
    {F A : Type 0} (m : ℕ) (s s' : Machine F A) (x : ℕ → Bool)
    → s'.coremap ≡ s.coremap
    → s'.pgdir ≡ s.pgdir
    → s'.ptes ≡ s.ptes
    → Agree m s x
    → Agree m s' x
Agree-tables m s s' x frames tables entries a = record {
  range = λ f h. ground (arith, frames, a.range f);
  held = λ f y h. ground (arith, frames, a.held f);
  live = λ f y h. ground (arith, frames, entries, a.live f);
  named = λ f y h. ground (arith, frames, entries, a.named f);
  placed = λ p h. ground (arith, frames, entries, a.placed p);
  back = λ p h. ground (arith, frames, entries, a.back p);
  apart = λ p h. ground (arith, entries, a.apart p);
  offsets = λ p. ground (arith, entries, a.offsets p);
  offswap = λ p. ground (arith, entries, a.offswap p);
  mapped = λ p h. ground (arith, tables, entries, a.mapped p);
}

-- Every frame agrees with the page tables but `f`, which is kept for the entry `p`.
pub record Reserved {F A : Type 0} (m : ℕ) (s : Machine F A) (f p : ℕ) : Type 0 where
  pub agree : Agree m s (λ g. g == f)
  pub busy : in_use s f ≡ true
  pub mine : (s.coremap f).pte ≡ some p
  pub absent : has_flag pg_valid (s.ptes p) ≡ false

-- What the functions of a replacement algorithm leave alone: all but PG_REF, the links of the
-- coremap and their own variables.
pub record Steady {F A : Type 0} (s s' : Machine F A) : Type 0 where
  pub in_use_same : (f : ℕ) → (s'.coremap f).in_use ≡ (s.coremap f).in_use
  pub pte_same : (f : ℕ) → (s'.coremap f).pte ≡ (s.coremap f).pte
  pub pgdir_same : s'.pgdir ≡ s.pgdir
  pub physmem_same : s'.physmem ≡ s.physmem
  pub file_same : s'.file ≡ s.file
  pub swapmap_same : s'.swapmap ≡ s.swapmap
  pub hit_same : s'.hit_count ≡ s.hit_count
  pub miss_same : s'.miss_count ≡ s.miss_count
  pub ref_same : s'.ref_count ≡ s.ref_count
  pub clean_same : s'.evict_clean_count ≡ s.evict_clean_count
  pub dirty_same : s'.evict_dirty_count ≡ s.evict_dirty_count
  pub errors_same : s'.errors ≡ s.errors
  pub swap_off_same : (p : ℕ) → (s'.ptes p).swap_off ≡ (s.ptes p).swap_off
  pub number_same : (p : ℕ) → frame_number (s'.ptes p) ≡ frame_number (s.ptes p)
  pub valid_same : (p : ℕ) → has_flag pg_valid (s'.ptes p) ≡ has_flag pg_valid (s.ptes p)
  pub dirty_flag_same : (p : ℕ) → has_flag pg_dirty (s'.ptes p) ≡ has_flag pg_dirty (s.ptes p)
  pub onswap_same : (p : ℕ) → has_flag pg_onswap (s'.ptes p) ≡ has_flag pg_onswap (s.ptes p)

-- An algorithm that sets its own variables alone is steady.
pub moved-Steady : {F A : Type 0} (s : Machine F A) (a : A) → Steady s (record s { alg = a })
moved-Steady s a = record {
  in_use_same = λ f. refl;
  pte_same = λ f. refl;
  pgdir_same = refl;
  physmem_same = refl;
  file_same = refl;
  swapmap_same = refl;
  hit_same = refl;
  miss_same = refl;
  ref_same = refl;
  clean_same = refl;
  dirty_same = refl;
  errors_same = refl;
  swap_off_same = λ p. refl;
  number_same = λ p. refl;
  valid_same = λ p. refl;
  dirty_flag_same = λ p. refl;
  onswap_same = λ p. refl;
}

pub Steady-trans : {F A : Type 0} (s s1 s2 : Machine F A) → Steady s s1 → Steady s1 s2 → Steady s s2
Steady-trans s s1 s2 d d' = record {
  in_use_same = λ f. d'.in_use_same f ∙ d.in_use_same f;
  pte_same = λ f. d'.pte_same f ∙ d.pte_same f;
  pgdir_same = d'.pgdir_same ∙ d.pgdir_same;
  physmem_same = d'.physmem_same ∙ d.physmem_same;
  file_same = d'.file_same ∙ d.file_same;
  swapmap_same = d'.swapmap_same ∙ d.swapmap_same;
  hit_same = d'.hit_same ∙ d.hit_same;
  miss_same = d'.miss_same ∙ d.miss_same;
  ref_same = d'.ref_same ∙ d.ref_same;
  clean_same = d'.clean_same ∙ d.clean_same;
  dirty_same = d'.dirty_same ∙ d.dirty_same;
  errors_same = d'.errors_same ∙ d.errors_same;
  swap_off_same = λ p. d'.swap_off_same p ∙ d.swap_off_same p;
  number_same = λ p. d'.number_same p ∙ d.number_same p;
  valid_same = λ p. d'.valid_same p ∙ d.valid_same p;
  dirty_flag_same = λ p. d'.dirty_flag_same p ∙ d.dirty_flag_same p;
  onswap_same = λ p. d'.onswap_same p ∙ d.onswap_same p;
}

-- An entry whose PG_REF alone changes.
pub entry-Steady :
    {F A : Type 0} (s : Machine F A) (a : A) (p : ℕ) (e : Pte)
    → e.swap_off ≡ (s.ptes p).swap_off
    → frame_number e ≡ frame_number (s.ptes p)
    → has_flag pg_valid e ≡ has_flag pg_valid (s.ptes p)
    → has_flag pg_dirty e ≡ has_flag pg_dirty (s.ptes p)
    → has_flag pg_onswap e ≡ has_flag pg_onswap (s.ptes p)
    → Steady s (record s { alg = a; ptes = put s.ptes p e })
entry-Steady s a p e o n v d w = record {
  in_use_same = λ f. refl;
  pte_same = λ f. refl;
  pgdir_same = refl;
  physmem_same = refl;
  file_same = refl;
  swapmap_same = refl;
  hit_same = refl;
  miss_same = refl;
  ref_same = refl;
  clean_same = refl;
  dirty_same = refl;
  errors_same = refl;
  swap_off_same = λ q. ground (arith, o);
  number_same = λ q. ground (arith, n);
  valid_same = λ q. ground (arith, v);
  dirty_flag_same = λ q. ground (arith, d);
  onswap_same = λ q. ground (arith, w);
}

-- The links of the coremap and the algorithm's variables, as one machine left them to the next.
pub record SameLinks {F A : Type 0} (s s' : Machine F A) : Type 0 where
  pub alg_same : s'.alg ≡ s.alg
  pub next_same : (f : ℕ) → (s'.coremap f).next ≡ (s.coremap f).next
  pub previous_same : (f : ℕ) → (s'.coremap f).previous ≡ (s.coremap f).previous

-- What pagetable.c relies on: an algorithm keeps track of a set of frames, evicts one of them when
-- all `m` frames are tracked, and tracks the frame of each page that is referenced.
pub record Lawful {F A : Type 0} (m : ℕ) (alg : Algorithm F A) : Type 1 where
  pub Tracks : Machine F A → (ℕ → Bool) → Type 0
  pub stable :
      (s s' : Machine F A) (t t' : ℕ → Bool)
      → SameLinks s s'
      → ((f : ℕ) → t' f ≡ t f)
      → Tracks s t
      → Tracks s' t'
  pub evict_law :
      (s : Machine F A) (t : ℕ → Bool)
      → 0 < m
      → Tracks s t
      → ((f : ℕ) → t f ≡ ltb f m)
      → ((f : ℕ) → f < m → is_some (s.coremap f).pte ≡ true)
      → ((f : ℕ) → f < m → frame_number (s.ptes (owner s f)) ≡ f)
      → After (λ f s'. (f < m) × Steady s s' × Tracks s' (λ g. t g && not (g == f))) (alg.evict s)
  pub ref_law :
      (s : Machine F A) (t : ℕ → Bool) (p : ℕ)
      → Tracks s t
      → frame_number (s.ptes p) < m
      → ((f : ℕ) → t f ≡ true → f < m)
      → After
          (λ _ s'. Steady s s' × Tracks s' (λ g. t g || (g == frame_number (s.ptes p))))
          (alg.ref p s)

-- The swap file takes every page, and the bitmap has a free slot, at an offset that fits an `int`.
pub record Supply {F A : Type 0} (dev : Device F) (s : Machine F A) : Type 0 where
  pub well : IsWell s.swapmap
  pub fits : s.swapmap.nbits ≤ 2 ^ 27
  pub slot : ℕ
  pub inside : slot < s.swapmap.nbits
  pub open_slot : bitmap_isset s.swapmap slot ≡ false

-- The swap file takes every page, and there is memory for every page table.
abbrev pub Serves : {F : Type 0} → Device F → Type 0
Serves {F} dev =
    ((file : F) (n : ℕ) (c : Page) → dev.write file (pos n) c ≢ none)
    × ((idx : ℕ) → dev.memalign idx ≡ true)
