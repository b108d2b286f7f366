-- ===== src/Memory/Pagetable.antt =====
-- pagetable.c, lines 9 to 207: address translation with demand paging over a two-level page table.
-- `m` is memsize. The pointer that find_physpage returns is the frame that it points at.
pub mod Coherent
pub mod Evict
pub mod Allocate
pub mod Flags
pub mod Locate
pub mod FirstReference
pub mod Translate
pub mod Print
use kernel_programming_proje.Base.{
  ℕ, zero, suc, ◌+◌, ◌*◌, ◌/◌, ◌%◌, ◌^◌, Bool, true, not, ◌&&◌, ◌||◌, Option, none, some, ℤ, ltb,
  ◌==◌, if◌then◌else◌, put,
}
use kernel_programming_proje.Memory.State.{
  Pte, pg_valid, pg_dirty, pg_ref, pg_onswap, has_flag, with_flag, without_flag, frame_number,
  Frame, Device, M, ◌>>=◌, ◌>>◌, pure, when◌then◌else◌, set_pte, get_pte, Algorithm,
}
use kernel_programming_proje.Memory.Swap.{invalid_swap, is_invalid, swap_pagein, swap_pageout}

-- PGDIR_INDEX into an `unsigned`, and PGTBL_INDEX.
abbrev pub pgdir_index : ℕ → ℕ
pgdir_index vaddr = vaddr / 2 ^ 24 % 2 ^ 32

abbrev pub pgtbl_index : ℕ → ℕ
pgtbl_index vaddr = vaddr / 2 ^ 12 % 4096

-- The search for a free frame, among the `n` frames from `i` on.
unfoldable pub free_frame : ℕ → ℕ → (ℕ → Frame) → Option ℕ
free_frame zero i c = none
free_frame (suc n) i c = if (c i).in_use then free_frame n (i + 1) c else some i

-- The entry of a new second-level table.
abbrev pub blank_pte : Pte
blank_pte = record { frame = 0; swap_off = invalid_swap }

-- The references that write.
abbrev pub is_write : ℕ → Bool
is_write type = (type == b'S') || (type == b'M')

module _ {F A : Type 0} where
  abbrev pub count_clean : M F A (Unit {0})
  count_clean s = some (tt, record s { evict_clean_count = s.evict_clean_count + 1 })

  abbrev pub count_dirty : M F A (Unit {0})
  count_dirty s = some (tt, record s { evict_dirty_count = s.evict_dirty_count + 1 })

  abbrev pub count_hit : M F A (Unit {0})
  count_hit s = some (tt, record s { hit_count = s.hit_count + 1; ref_count = s.ref_count + 1 })

  abbrev pub count_miss : M F A (Unit {0})
  count_miss s = some (tt, record s { miss_count = s.miss_count + 1; ref_count = s.ref_count + 1 })

  abbrev pub set_swap_off : ℕ → ℤ → M F A (Unit {0})
  set_swap_off p o = do e ← get_pte p; set_pte p (record e { swap_off = o })

  abbrev pub add_flag : ℕ → ℕ → M F A (Unit {0})
  add_flag b p = do e ← get_pte p; set_pte p (with_flag b e)

  abbrev pub drop_flag : ℕ → ℕ → M F A (Unit {0})
  drop_flag b p = do e ← get_pte p; set_pte p (without_flag b e)

  -- `p->frame = frame_number << PAGE_SHIFT`.
  abbrev pub set_frame : ℕ → ℕ → M F A (Unit {0})
  set_frame p f = do e ← get_pte p; set_pte p (record e { frame = f * 4096 % 2 ^ 32 })

  -- The end of allocate_frame.
  abbrev pub occupy : ℕ → ℕ → M F A ℕ
  occupy f p s = some (
    f,
    record s { coremap = put s.coremap f (record (s.coremap f) { in_use = true; pte = some p }) },
  )

  -- Without memory for the table the program exits.
  unfoldable pub init_second_level : Device F → ℕ → M F A (Unit {0})
  init_second_level dev idx s =
      if not (dev.memalign idx)
      then none
      else some (
        tt,
        record s {
          pgdir = put s.pgdir idx true;
          ptes = λ p. if p / 4096 == idx then blank_pte else s.ptes p;
        },
      )

  unfoldable pub init_frame : ℕ → ℕ → M F A (Unit {0})
  init_frame f vaddr s =
      some (tt, record s { physmem = put s.physmem f (record { version = 0; vaddr = vaddr }) })

  -- The entry of the page directory is made on its first use; past the array the access is invalid.
  unfoldable pub locate : Device F → ℕ → M F A ℕ
  unfolding init_second_level
  locate dev vaddr s =
      let idx = pgdir_index vaddr in
      let p = idx * 4096 + pgtbl_index vaddr in
      if not (ltb idx 4096)
      then none
      else if s.pgdir idx
      then some (p, s)
      else (init_second_level dev idx >> pure p) s

module _ {F A : Type 0} (m : ℕ) (dev : Device F) (alg : Algorithm F A) where
  -- What allocate_frame does with the victim's page.
  unfoldable pub write_back : ℕ → ℕ → M F A (Unit {0})
  unfolding swap_pageout
  write_back f v = do
    e ← get_pte v
    (when has_flag pg_onswap e && not (has_flag pg_dirty e) then count_clean else (do
      (when has_flag pg_dirty e then drop_flag pg_dirty v else pure tt)
      success ← swap_pageout dev f e.swap_off
      count_dirty
      when is_invalid success then (λ s. none) else set_swap_off v success))
    drop_flag pg_valid v

  unfoldable pub evict_page : M F A ℕ
  evict_page = do
    f ← alg.evict
    (λ s. elim (s.coremap f).pte [ none ↦ none | some v ↦ (write_back f v >> pure f) s ])

  unfoldable pub allocate_frame : ℕ → M F A ℕ
  allocate_frame p s = elim (free_frame m 0 s.coremap) [
    | some f ↦ occupy f p s
    | none ↦ (evict_page >>= λ f. occupy f p) s
  ]

  -- The first reference to a page.
  unfoldable pub first_reference : ℕ → ℕ → M F A (Unit {0})
  unfolding init_frame
  first_reference p vaddr = do
    f ← allocate_frame p
    init_frame f vaddr
    set_frame p f
    add_flag pg_dirty p
    count_miss

  -- A reference to a page on swap. The page is read into the frame number that the entry held
  -- before, and the offset becomes what swap_pagein returns.
  unfoldable pub page_in : ℕ → M F A (Unit {0})
  unfolding swap_pagein
  page_in p = do
    f ← allocate_frame p
    e ← get_pte p
    success ← swap_pagein dev (frame_number e) e.swap_off
    when is_invalid success
        then (λ s. none)
        else do set_swap_off p success; set_frame p f; add_flag pg_onswap p; count_miss

  unfoldable pub resolve : ℕ → ℕ → M F A (Unit {0})
  resolve p vaddr = do
    e ← get_pte p
    when not (has_flag pg_valid e) && not (has_flag pg_onswap e)
        then first_reference p vaddr
        else when not (has_flag pg_valid e) && has_flag pg_onswap e
        then page_in p
        else count_hit

  unfoldable pub touch : ℕ → ℕ → M F A ℕ
  touch p type = do
    add_flag pg_valid p
    add_flag pg_ref p
    (when is_write type then add_flag pg_dirty p else pure tt)
    alg.ref p
    e ← get_pte p
    pure (frame_number e)

  unfoldable pub find_physpage : ℕ → ℕ → M F A ℕ
  find_physpage vaddr type = do p ← locate dev vaddr; resolve p vaddr; touch p type
