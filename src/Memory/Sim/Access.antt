-- ===== src/Memory/Sim/Access.antt =====
-- One access of access_mem, sim.c.
use kernel_programming_proje.Base.{
  ℕ, ◌+◌, ◌%◌, ◌^◌, ◌≤◌, ◌<◌, ◌≡◌, true, false, not, ◌&&◌, ◌||◌, ◌==◌, After, After-bind, arith,
  inl, inr, Bool-cases, refl, subst, if◌then◌else◌,
}
use kernel_programming_proje.Memory.Bitmap.Laws.{IsWell}
use kernel_programming_proje.Memory.Bitmap.Refine.{Consumes, Consumes-ends}
use kernel_programming_proje.Memory.State.{
  Page, pg_valid, pg_dirty, has_flag, frame_number, Device, Machine, Algorithm, pure,
  when◌then◌else◌,
}
use kernel_programming_proje.Memory.Pagetable.{is_write, find_physpage}
use kernel_programming_proje.Memory.Pagetable.Coherent.{
  Agree-tables, in_use, Coherent, Lawful, Supply, Serves,
}
use kernel_programming_proje.Memory.Pagetable.Locate.{entry_of}
use kernel_programming_proje.Memory.Pagetable.Translate.{Translated, find_physpage-Translated}
use kernel_programming_proje.Memory.Sim.{access_mem, check_page, count_version}

-- The page that a write leaves.
abbrev pub written : ℕ → Page → Page
written type c = record c {
  version = if is_write type then (c.version + 1) % 2 ^ 32 else c.version;
}

-- What an access leaves: the entry of the address, the frame's page, the errors and the count.
pub record Accessed {F A : Type 0} {m : ℕ} {alg : Algorithm F A} (laws : Lawful m alg)
    (vaddr type : ℕ) (s s' : Machine F A) : Type 0 where
  pub frame : ℕ
  pub range : frame < m
  pub coherent : Coherent m s'
  pub tracks : laws.Tracks s' (in_use s')
  pub number : frame_number (s'.ptes (entry_of vaddr)) ≡ frame
  pub valid : has_flag pg_valid (s'.ptes (entry_of vaddr)) ≡ true
  pub dirty : (not (is_write type) || has_flag pg_dirty (s'.ptes (entry_of vaddr))) ≡ true
  pub others : (f : ℕ) → (f == frame) ≡ false → s'.physmem f ≡ s.physmem f
  pub content :
      s'.physmem frame
      ≡ written type (
          if has_flag pg_valid (s.ptes (entry_of vaddr))
          then s.physmem frame
          else record { version = 0; vaddr = vaddr })
  pub report :
      s'.errors
      ≡ s.errors
        + (if has_flag pg_valid (s.ptes (entry_of vaddr)) && not ((s.physmem frame).vaddr == vaddr)
            then 1
            else 0)
  pub ref_next : s'.ref_count ≡ s.ref_count + 1
  pub either_next : s'.hit_count + s'.miss_count ≡ s.hit_count + s.miss_count + 1
  pub well : IsWell s'.swapmap
  pub size_same : s'.swapmap.nbits ≡ s.swapmap.nbits
  pub taken : Consumes s.swapmap s'.swapmap

module _ {F A : Type 0} (m : ℕ) (dev : Device F) (alg : Algorithm F A) (laws : Lawful m alg)
    (vaddr type : ℕ) (s : Machine F A) where
  -- The machine behind the access.
  module _ (f : ℕ) (s1 s' : Machine F A) (t : Translated laws vaddr type s f s1)
      (rest : s' ≡ record s1 { physmem = s'.physmem; errors = s'.errors })
      (others : (g : ℕ) → (g == f) ≡ false → s'.physmem g ≡ s1.physmem g)
      (page : s'.physmem f ≡ written type (s1.physmem f))
      (count : s'.errors ≡ s1.errors + (if (s1.physmem f).vaddr == vaddr then 0 else 1)) where
    settled : Accessed laws vaddr type s s'
    settled = record {
      frame = f;
      range = t.range;
      coherent =
          Agree-tables m s1 s' (λ g. false) (ground (arith, rest)) (ground (arith, rest))
            (ground (arith, rest)) t.coherent;
      tracks =
          laws.stable s1 s' _ _
            (record {
              alg_same = ground (arith, rest);
              next_same = λ g. ground (arith, rest);
              previous_same = λ g. ground (arith, rest);
            })
            (λ g. ground (arith, rest)) t.tracks;
      number = ground (arith, rest, t.number);
      valid = ground (arith, rest, t.valid);
      dirty = ground (arith, rest, t.dirty);
      others = λ g ne. ground (arith, others g ne, t.physmem_next);
      content = ground (arith, page, t.physmem_next);
      report = ground (arith, count, t.physmem_next, t.errors_same);
      ref_next = ground (arith, rest, t.ref_next);
      either_next = ground (arith, rest, t.hit_next, t.miss_next);
      well = subst IsWell (ground (arith, rest)) t.well;
      size_same = ground (arith, rest, t.size_same);
      taken = Consumes-ends refl (ground (arith, rest)) t.taken;
    }

  -- The machine behind the check of the page.
  abbrev Checked : ℕ → Machine F A → Unit {0} → Machine F A → Type 0
  Checked f s1 u s2 =
      s2 ≡ record s1 { errors = s1.errors + (if (s1.physmem f).vaddr == vaddr then 0 else 1) }

  counted-Accessed :
      (f : ℕ) (s1 s2 : Machine F A)
      → Translated laws vaddr type s f s1
      → Checked f s1 tt s2
      → After
          (λ _. Accessed laws vaddr type s)
          ((when is_write type then count_version f else pure tt) s2)
  counted-Accessed f s1 s2 t e = elim (Bool-cases (is_write type)) [
    | inl w ↦ rw w (
        settled f s1 _ t (ground (arith, e)) (λ g ne. ground (arith, e)) (ground (arith, e))
          (ground (arith, e)))
    | inr w ↦ rw w (
        settled f s1 _ t (ground (arith, e)) (λ g ne. ground (arith, e)) (ground (arith, e))
          (ground (arith, e)))
  ]

  -- With at least one and at most 2^20 frames, a lawful algorithm that tracks the frames in use, a
  -- coremap and page tables that agree, a free swap slot and a swap file that takes every page,
  -- memory for every page table, an access below 2^36 returns with the agreement and the tracking
  -- kept. The valid entry of the address names a frame whose version counts a write, filled anew on
  -- a miss; no other frame changes; the entry is dirty behind a write; and an error is reported
  -- exactly on a hit of a page that holds another address.
  pub access_mem-Accessed :
      Serves dev
      → m ≤ 2 ^ 20
      → 0 < m
      → vaddr < 2 ^ 36
      → Coherent m s
      → laws.Tracks s (in_use s)
      → Supply dev s
      → After (λ _. Accessed laws vaddr type s) (access_mem m dev alg type vaddr s)
  unfolding access_mem
  access_mem-Accessed writes memory some_frame lt a t room =
      After-bind (Translated laws vaddr type s) (λ _. Accessed laws vaddr type s)
        (find_physpage m dev alg vaddr type s) _
        (find_physpage-Translated m dev alg laws vaddr type s writes memory some_frame lt a t room)
        λ f s1 h.
          After-bind (Checked f s1) (λ _. Accessed laws vaddr type s) (check_page f vaddr s1) _
            (ground arith) λ u s2 e. counted-Accessed f s1 s2 h e
