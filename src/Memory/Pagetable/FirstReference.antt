-- ===== src/Memory/Pagetable/FirstReference.antt =====
-- The first reference to a page (pagetable.c, lines 169 to 176).
use kernel_programming_proje.Base.{
  ℕ, ◌+◌, ◌^◌, ◌≤◌, ◌<◌, ◌≡◌, refl, Bool, true, false, not, ◌&&◌, some, ◌==◌, After, After-bind,
  arith, put, ==_refl,
}
use kernel_programming_proje.Memory.Bitmap.Laws.{IsWell}
use kernel_programming_proje.Memory.Bitmap.Refine.{Consumes}
use kernel_programming_proje.Memory.State.{
  pg_valid, pg_dirty, pg_onswap, has_flag, frame_number, Device, Machine, Algorithm,
}
use kernel_programming_proje.Memory.Pagetable.{first_reference, init_frame}
use kernel_programming_proje.Memory.Pagetable.Allocate.{Allocated, allocate_frame-Allocated}
use kernel_programming_proje.Memory.Pagetable.Coherent.{
  is_offset, owner, in_use, Agree, Coherent, Lawful, Supply, Serves,
}

-- Writing to an entry that is not valid and stays so.
entered :
    {F A : Type 0} (m p : ℕ) (s s' : Machine F A) (x : ℕ → Bool)
    → Agree m s x
    → has_flag pg_valid (s.ptes p) ≡ false
    → s'.coremap ≡ s.coremap
    → s'.pgdir ≡ s.pgdir
    → ((q : ℕ) → (p == q) ≡ false → s'.ptes q ≡ s.ptes q)
    → has_flag pg_valid (s'.ptes p) ≡ false
    → has_flag pg_onswap (s'.ptes p) ≡ false
    → is_offset (s'.ptes p).swap_off ≡ true
    → Agree m s' x
entered m p s s' x a absent frames tables others out off offset = record {
  range = λ g h. ground (arith, frames, a.range g);
  held = λ g y h. ground (arith, frames, a.held g);
  live = λ g y h. ground (arith, frames, a.live g, others (owner s g));
  named = λ g y h. ground (arith, frames, a.live g, a.named g, others (owner s g));
  placed = λ q h. ground (arith, frames, a.placed q, others q, out);
  back = λ q h. ground (arith, frames, a.back q, others q, out);
  apart = λ q h. ground (arith, a.apart q, others q, out);
  offsets = λ q. ground (arith, a.offsets q, others q, offset);
  offswap = λ q. ground (arith, a.offswap q, others q, off);
  mapped = λ q h. ground (arith, tables, a.mapped q, others q, out);
}

-- The machine behind the first reference to the page of the entry `p`.
pub record Filled {F A : Type 0} {m : ℕ} {alg : Algorithm F A} (laws : Lawful m alg)
    (s : Machine F A) (p vaddr : ℕ) (s' : Machine F A) : Type 0 where
  pub frame : ℕ
  pub range : frame < m
  pub agree : Agree m s' (λ g. g == frame)
  pub busy : in_use s' frame ≡ true
  pub mine : (s'.coremap frame).pte ≡ some p
  pub number : frame_number (s'.ptes p) ≡ frame
  pub dirty : has_flag pg_dirty (s'.ptes p) ≡ true
  pub tracks : laws.Tracks s' (λ g. in_use s' g && not (g == frame))
  pub pgdir_same : s'.pgdir ≡ s.pgdir
  pub physmem_next : s'.physmem ≡ put s.physmem frame (record { version = 0; vaddr = vaddr })
  pub hit_same : s'.hit_count ≡ s.hit_count
  pub miss_next : s'.miss_count ≡ s.miss_count + 1
  pub ref_next : s'.ref_count ≡ s.ref_count + 1
  pub clean_same : s'.evict_clean_count ≡ s.evict_clean_count
  pub errors_same : s'.errors ≡ s.errors
  pub dirty_next : s'.evict_dirty_count ≤ s.evict_dirty_count + 1
  pub well : IsWell s'.swapmap
  pub size_same : s'.swapmap.nbits ≡ s.swapmap.nbits
  pub taken : Consumes s.swapmap s'.swapmap

module _ {F A : Type 0} (m : ℕ) (dev : Device F) (alg : Algorithm F A) (laws : Lawful m alg)
    (writes : Serves dev) (memory : m ≤ 2 ^ 20) (some_frame : 0 < m) where
  module _ (s : Machine F A) (p vaddr : ℕ) (a : Coherent m s) (t : laws.Tracks s (in_use s))
      (room : Supply dev s) (absent : has_flag pg_valid (s.ptes p) ≡ false) where
    pub first_reference-Filled :
        After (λ _. Filled laws s p vaddr) (first_reference m dev alg p vaddr s)
    unfolding first_reference init_frame
    first_reference-Filled =
        After-bind (Allocated laws s p) (λ _. Filled laws s p vaddr) _ _
          (allocate_frame-Allocated m dev alg laws writes s p a t room absent some_frame)
          λ f s1 al. record {
            frame = f;
            range = al.range;
            agree =
                entered m p s1 _ (λ g. g == f) al.reserved.agree al.reserved.absent refl refl
                  (λ q ne. ground arith) (rw (==_refl p) (ground arith))
                  (rw (==_refl p) (ground arith)) (rw (==_refl p) (al.reserved.agree.offsets p));
            busy = ground (arith, al.reserved.busy);
            mine = ground (arith, al.reserved.mine);
            number = rw (==_refl p) (omega arith);
            dirty = rw (==_refl p) (ground arith);
            tracks =
                laws.stable s1 _ _ _
                  (record { alg_same = refl; next_same = λ g. refl; previous_same = λ g. refl })
                  (λ g. refl) al.tracks;
            pgdir_same = ground (arith, al.pgdir_same);
            physmem_next = rw al.physmem_same refl;
            hit_same = ground (arith, al.hit_same);
            miss_next = ground (arith, al.miss_same);
            ref_next = ground (arith, al.ref_same);
            clean_same = ground (arith, al.clean_same);
            errors_same = ground (arith, al.errors_same);
            dirty_next = ground (arith, al.dirty_next);
            well = al.well;
            size_same = ground (arith, al.size_same);
            taken = al.taken;
          }
