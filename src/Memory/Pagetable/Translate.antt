-- ===== src/Memory/Pagetable/Translate.antt =====
-- find_physpage of pagetable.c (lines 152 to 210) as a whole.
use kernel_programming_proje.Base.{
  ℕ, ◌+◌, ◌^◌, ◌≤◌, ◌<◌, ◌≡◌, refl, true, false, not, ◌&&◌, ◌||◌, Option, none, some, ◌==◌, After,
  After-map, After-bind, arith, inl, inr, Bool-cases, put, if◌then◌else◌, sym, subst,
}
use kernel_programming_proje.Memory.Bitmap.Laws.{IsWell}
use kernel_programming_proje.Memory.Bitmap.Refine.{Consumes, Consumes-same, Consumes-ends}
use kernel_programming_proje.Memory.State.{
  pg_valid, pg_dirty, has_flag, frame_number, Device, Machine, Algorithm, ◌>>◌,
}
use kernel_programming_proje.Memory.Pagetable.{
  touch, is_write, locate, resolve, first_reference, find_physpage, count_hit,
}
use kernel_programming_proje.Memory.Pagetable.Evict.{Supply-same}
use kernel_programming_proje.Memory.Pagetable.Flags.{Touched, touch-Touched}
use kernel_programming_proje.Memory.Pagetable.Coherent.{
  Agree-tables, in_use, Coherent, Lawful, Supply, Serves,
}
use kernel_programming_proje.Memory.Pagetable.Locate.{entry_of, Located, locate-Located}
use kernel_programming_proje.Memory.Pagetable.FirstReference.{Filled, first_reference-Filled}

-- What a reference leaves: the frame that it returns, below memsize, which the entry of the address
-- names, valid and dirty if it was written or came in; the frame unchanged on a hit and zero-filled
-- with the address in it on a miss; the counters.
pub record Translated {F A : Type 0} {m : ℕ} {alg : Algorithm F A} (laws : Lawful m alg)
    (vaddr type : ℕ) (s : Machine F A) (f : ℕ) (s' : Machine F A) : Type 0 where
  pub coherent : Coherent m s'
  pub tracks : laws.Tracks s' (in_use s')
  pub range : f < m
  pub number : frame_number (s'.ptes (entry_of vaddr)) ≡ f
  pub valid : has_flag pg_valid (s'.ptes (entry_of vaddr)) ≡ true
  pub dirty : has_flag pg_dirty (s'.ptes (entry_of vaddr)) ≡ (
      is_write type
      || not (has_flag pg_valid (s.ptes (entry_of vaddr)))
      || has_flag pg_dirty (s.ptes (entry_of vaddr)))
  pub physmem_next : s'.physmem ≡ (
      if has_flag pg_valid (s.ptes (entry_of vaddr))
      then s.physmem
      else put s.physmem f (record { version = 0; vaddr = vaddr }))
  pub hit_next :
      s'.hit_count ≡ s.hit_count + (if has_flag pg_valid (s.ptes (entry_of vaddr)) then 1 else 0)
  pub miss_next :
      s'.miss_count ≡ s.miss_count + (if has_flag pg_valid (s.ptes (entry_of vaddr)) then 0 else 1)
  pub ref_next : s'.ref_count ≡ s.ref_count + 1
  pub clean_same : s'.evict_clean_count ≡ s.evict_clean_count
  pub errors_same : s'.errors ≡ s.errors
  pub dirty_next : s'.evict_dirty_count ≤ s.evict_dirty_count + 1
  pub well : IsWell s'.swapmap
  pub size_same : s'.swapmap.nbits ≡ s.swapmap.nbits
  pub taken : Consumes s.swapmap s'.swapmap

module _ {F A : Type 0} (m : ℕ) (dev : Device F) (alg : Algorithm F A) (laws : Lawful m alg)
    (writes : Serves dev) (memory : m ≤ 2 ^ 20) (some_frame : 0 < m) (vaddr type : ℕ)
    (s s0 : Machine F A) (t : laws.Tracks s (in_use s)) (room : Supply dev s)
    (l : Located m vaddr s (entry_of vaddr) s0) where
  again : laws.Tracks s0 (in_use s0)
  again =
      laws.stable s s0 _ _
        (record {
          alg_same = ground (arith, l.rest);
          next_same = λ g. ground (arith, l.rest);
          previous_same = λ g. ground (arith, l.rest);
        })
        (λ g. ground (arith, l.rest)) t

  -- The mark of the entry behind `resolve`.
  abbrev marking : Option (Unit {0} × Machine F A) → Option (ℕ × Machine F A)
  marking r = elim r [ none ↦ none | some (u, s2) ↦ touch m dev alg (entry_of vaddr) type s2 ]

  abbrev counted : Machine F A
  counted = record s0 { hit_count = s0.hit_count + 1; ref_count = s0.ref_count + 1 }

  counted-Coherent : Coherent m counted
  counted-Coherent = Agree-tables m s0 counted (λ f. false) refl refl refl l.coherent

  module _ (v : has_flag pg_valid (s0.ptes (entry_of vaddr)) ≡ true) where
    resolve_hit : resolve m dev alg (entry_of vaddr) vaddr s0 ≡ count_hit s0
    unfolding resolve
    resolve_hit = rw v refl

    counted-Touched :
        After
          (Touched laws type (entry_of vaddr) counted)
          (touch m dev alg (entry_of vaddr) type counted)
    counted-Touched =
        touch-Touched m dev alg laws type (entry_of vaddr) counted (λ g. false) (in_use s0)
          counted-Coherent (l.coherent.range _ (l.coherent.placed _ v)) (l.coherent.placed _ v)
          (l.coherent.back _ v) (λ g h. absurd (ground arith)) l.table
          (laws.stable s0 counted _ _
            (record { alg_same = refl; next_same = λ g. refl; previous_same = λ g. refl })
            (λ g. refl) again)
          (λ g. ground (arith, l.coherent.placed _ v))

    hit-Translated : After (Translated laws vaddr type s) (marking (count_hit s0))
    hit-Translated =
        After-map (Touched laws type (entry_of vaddr) counted) (Translated laws vaddr type s)
          (touch m dev alg (entry_of vaddr) type counted) counted-Touched
          λ f s' h. record {
            coherent = h.coherent;
            tracks = h.tracks;
            range = ground (arith, h.frame, l.coherent.range _ (l.coherent.placed _ v));
            number = h.number;
            valid = h.valid;
            dirty = ground (arith, h.dirty, l.valid_same, l.resident);
            physmem_next = ground (arith, h.physmem_same, l.valid_same, l.rest);
            hit_next = ground (arith, h.hit_same, l.valid_same, l.rest);
            miss_next = ground (arith, h.miss_same, l.valid_same, l.rest);
            ref_next = ground (arith, h.ref_same, l.rest);
            clean_same = ground (arith, h.clean_same, l.rest);
            errors_same = ground (arith, h.errors_same, l.rest);
            dirty_next = ground (arith, h.dirty_same, l.rest);
            well = subst IsWell (ground (arith, h.swapmap_same, l.rest)) room.well;
            size_same = ground (arith, h.swapmap_same, l.rest);
            taken = Consumes-same s.swapmap _ (ground (arith, h.swapmap_same, l.rest));
          }

  module _ (v : has_flag pg_valid (s0.ptes (entry_of vaddr)) ≡ false) where
    resolve_miss :
        resolve m dev alg (entry_of vaddr) vaddr s0
        ≡ first_reference m dev alg (entry_of vaddr) vaddr s0
    unfolding resolve
    resolve_miss = rw (v, l.coherent.offswap (entry_of vaddr)) refl

    enter-Touched :
        (s2 : Machine F A)
        → Filled laws s0 (entry_of vaddr) vaddr s2
        → After (Touched laws type (entry_of vaddr) s2) (touch m dev alg (entry_of vaddr) type s2)
    enter-Touched s2 r =
        touch-Touched m dev alg laws type (entry_of vaddr) s2 (λ g. g == r.frame)
          (λ g. in_use s2 g && not (g == r.frame)) r.agree (ground (arith, r.range, r.number))
          (ground (arith, r.busy, r.number)) (ground (arith, r.mine, r.number))
          (λ g h. ground (arith, r.number)) (ground (arith, r.pgdir_same, l.table)) r.tracks
          (λ g. ground (arith, r.busy, r.number))

    enter-Translated :
        (s2 : Machine F A)
        → Filled laws s0 (entry_of vaddr) vaddr s2
        → After (Translated laws vaddr type s) (touch m dev alg (entry_of vaddr) type s2)
    enter-Translated s2 r =
        After-map (Touched laws type (entry_of vaddr) s2) (Translated laws vaddr type s)
          (touch m dev alg (entry_of vaddr) type s2) (enter-Touched s2 r)
          λ f s' h. record {
            coherent = h.coherent;
            tracks = h.tracks;
            range = ground (arith, h.frame, r.range, r.number);
            number = h.number;
            valid = h.valid;
            dirty = ground (arith, h.dirty, l.valid_same, r.dirty);
            physmem_next =
                ground
                  (arith, h.physmem_same, l.valid_same, l.rest, r.physmem_next, h.frame, r.number);
            hit_next = ground (arith, h.hit_same, r.hit_same, l.valid_same, l.rest);
            miss_next = ground (arith, h.miss_same, r.miss_next, l.valid_same, l.rest);
            ref_next = ground (arith, h.ref_same, r.ref_next, l.rest);
            clean_same = ground (arith, h.clean_same, r.clean_same, l.rest);
            errors_same = ground (arith, h.errors_same, r.errors_same, l.rest);
            dirty_next = ground (arith, h.dirty_same, r.dirty_next, l.rest);
            well = subst IsWell (sym h.swapmap_same) r.well;
            size_same = ground (arith, h.swapmap_same, r.size_same, l.rest);
            taken = Consumes-ends (ground (arith, l.rest)) h.swapmap_same r.taken;
          }

    miss-Translated :
        After
          (Translated laws vaddr type s)
          (marking (first_reference m dev alg (entry_of vaddr) vaddr s0))
    miss-Translated =
        After-bind (λ _. Filled laws s0 (entry_of vaddr) vaddr) (Translated laws vaddr type s)
          (first_reference m dev alg (entry_of vaddr) vaddr s0)
          (λ _ s2. touch m dev alg (entry_of vaddr) type s2)
          (first_reference-Filled m dev alg laws writes memory some_frame s0 (entry_of vaddr) vaddr
            l.coherent again (Supply-same dev writes s s0 (ground (arith, l.rest)) room) v)
          λ _ s2 r. enter-Translated s2 r

  resolve-Translated :
      After (Translated laws vaddr type s) (marking (resolve m dev alg (entry_of vaddr) vaddr s0))
  resolve-Translated = elim (Bool-cases (has_flag pg_valid (s0.ptes (entry_of vaddr)))) [
    | inl v ↦
        subst (λ r. After (Translated laws vaddr type s) (marking r)) (sym (resolve_hit v))
          (hit-Translated v)
    | inr v ↦
        subst (λ r. After (Translated laws vaddr type s) (marking r)) (sym (resolve_miss v))
          (miss-Translated v)
  ]

module _ {F A : Type 0} (m : ℕ) (dev : Device F) (alg : Algorithm F A) (laws : Lawful m alg)
    (vaddr type : ℕ) (s : Machine F A) where
  -- With at least one and at most 2^20 frames, a lawful algorithm that tracks the frames in use, a
  -- coremap and page tables that agree, a free swap slot and a swap file that takes every page,
  -- memory for every page table, a reference below 2^36 returns a frame below memsize that the
  -- address's valid entry names, and the agreement and the tracking hold again. A hit changes no
  -- memory, a miss fills the frame with zeros and the address; the hits, misses and references are
  -- counted; the entry is dirty behind a write or a miss, and otherwise as before; no eviction
  -- counts as clean, and at most one as dirty.
  pub find_physpage-Translated :
      Serves dev
      → m ≤ 2 ^ 20
      → 0 < m
      → vaddr < 2 ^ 36
      → Coherent m s
      → laws.Tracks s (in_use s)
      → Supply dev s
      → After (Translated laws vaddr type s) (find_physpage m dev alg vaddr type s)
  unfolding find_physpage
  find_physpage-Translated writes memory some_frame lt a t room =
      After-bind (Located m vaddr s) (Translated laws vaddr type s) (locate dev vaddr s) _
        (locate-Located m vaddr dev writes s a (omega arith))
        λ p s0 l.
          subst
            (λ q.
              Located m vaddr s q s0
              → After (Translated laws vaddr type s)
                  ((resolve m dev alg q vaddr >> touch m dev alg q type) s0))
            (sym l.entry)
            (resolve-Translated m dev alg laws writes memory some_frame vaddr type s s0 t room) l
