-- ===== src/Memory/Pagetable/Locate.antt =====
-- The start of find_physpage (pagetable.c, lines 154 to 166): the entry of an address.
use kernel_programming_proje.Base.{
  ℕ, ◌+◌, ◌*◌, ◌/◌, ◌<◌, ◌≡◌, refl, true, false, ◌==◌, After, arith, inl, inr, Bool-cases, put,
  if◌then◌else◌, ==_refl, lt→ltb, sym,
}
use kernel_programming_proje.Memory.State.{pg_valid, has_flag, Device, Machine}
use kernel_programming_proje.Memory.Pagetable.{
  locate, init_second_level, pgdir_index, pgtbl_index, blank_pte,
}
use kernel_programming_proje.Memory.Pagetable.Coherent.{owner, Coherent, Serves}

-- The entry that the two indices of an address lead to.
abbrev pub entry_of : ℕ → ℕ
entry_of vaddr = pgdir_index vaddr * 4096 + pgtbl_index vaddr

pub quotient : (vaddr : ℕ) → entry_of vaddr / 4096 ≡ pgdir_index vaddr
quotient vaddr = omega arith

-- The machine `s'` is `s` with the second-level table of `vaddr` in place.
pub record Located {F A : Type 0} (m vaddr : ℕ) (s : Machine F A) (p : ℕ) (s' : Machine F A)
    : Type 0 where
  pub entry : p ≡ entry_of vaddr
  pub coherent : Coherent m s'
  pub table : s'.pgdir (p / 4096) ≡ true
  pub valid_same : has_flag pg_valid (s'.ptes p) ≡ has_flag pg_valid (s.ptes p)
  pub resident : has_flag pg_valid (s.ptes p) ≡ true → s'.ptes p ≡ s.ptes p
  pub rest : s' ≡ record s { ptes = s'.ptes; pgdir = s'.pgdir }

module _ {F A : Type 0} (m idx : ℕ) (s : Machine F A) (a : Coherent m s) where
  -- The machine with a blank second-level table behind entry `idx` of the page directory.
  abbrev tabled : Machine F A
  tabled = record s {
    pgdir = put s.pgdir idx true;
    ptes = λ p. if p / 4096 == idx then blank_pte else s.ptes p;
  }

  module _ (new : s.pgdir idx ≡ false) where
    elsewhere : (q : ℕ) → has_flag pg_valid (s.ptes q) ≡ true → (q / 4096 == idx) ≡ false
    elsewhere q h = ground (arith, a.mapped q h)

    tabled-Coherent : Coherent m tabled
    tabled-Coherent = record {
      range = a.range;
      held = a.held;
      live = λ g x h. ground (arith, a.live g x h, elsewhere (owner s g));
      named = λ g x h. ground (arith, a.live g x h, a.named g x h, elsewhere (owner s g));
      placed = λ q h. ground (arith, a.placed q, elsewhere q);
      back = λ q h. ground (arith, a.back q, elsewhere q);
      apart = λ q h. refl;
      offsets = λ q. ground (arith, a.offsets q);
      offswap = λ q. ground (arith, a.offswap q);
      mapped = λ q h. ground (arith, a.mapped q);
    }

    blank : (j : ℕ) → j < 4096 → has_flag pg_valid (s.ptes (idx * 4096 + j)) ≡ false
    blank j lt = elim (Bool-cases (has_flag pg_valid (s.ptes (idx * 4096 + j)))) [
      | inl v ↦ absurd (ground (arith, a.mapped (idx * 4096 + j) v))
      | inr v ↦ v
    ]

module _ {F A : Type 0} (m vaddr : ℕ) (dev : Device F) (serves : Serves dev) (s : Machine F A)
    (a : Coherent m s) (small : pgdir_index vaddr < 4096) where
  within : entry_of vaddr / 4096 ≡ pgdir_index vaddr
  within = quotient vaddr

  pub locate-Located : After (Located m vaddr s) (locate dev vaddr s)
  unfolding locate init_second_level
  locate-Located = rw (lt→ltb _ _ small) (elim (Bool-cases (s.pgdir (pgdir_index vaddr))) [
    | inl y ↦ rw y (record {
      entry = refl;
      coherent = a;
      table = rw (within) y;
      valid_same = refl;
      resident = λ v. refl;
      rest = refl;
    })
    | inr y ↦
        let unused = blank m (pgdir_index vaddr) s a y (pgtbl_index vaddr) (omega arith) in
        rw (y, init_second_level, serves.1 (pgdir_index vaddr))
          (record {
            entry = refl;
            coherent = tabled-Coherent m (pgdir_index vaddr) s a y;
            table = ground (arith, within);
            valid_same = rw (within, ==_refl (pgdir_index vaddr)) (sym unused);
            resident = λ v. absurd (ground (arith, unused, v));
            rest = refl;
          })
  ])
