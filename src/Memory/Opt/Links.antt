-- ===== src/Memory/Opt/Links.antt =====
-- add_to_coremap and remove_from_coremap of opt.c on the list of the nodes.
use kernel_programming_proje.Base.{
  ℕ, ◌≤◌, ◌≡◌, refl, sym, ap, subst, true, false, List, [], ◌∷◌, Option, some, has, Distinct,
  length, ◌==◌, arith, inl, inr, Bool-cases, Option-cases,
}
use kernel_programming_proje.Memory.Opt.{
  Variables, push, insert_behind, bypass, goes_first, add_to_coremap, remove_from_coremap,
}
use kernel_programming_proje.Memory.Opt.Chain.{
  Chain, frame, farther, place, next_use, Untied, seek-Chain, seek_address-Chain,
}
use kernel_programming_proje.Memory.Lru.Order.{remove}

-- Nothing but the links and the head of the list differs.
pub record Relinked (o o' : Variables) : Type 0 where
  pub size_same : o'.hashmap_size ≡ o.hashmap_size
  pub map_same : o'.hashmap_ptr ≡ o.hashmap_ptr
  pub mallocs_same : o'.mallocs ≡ o.mallocs
  pub references_same : o'.reference_string ≡ o.reference_string
  pub position_same : o'.position ≡ o.position
  pub address_same : (g : ℕ) → (o'.vaddrs g).virtual_addr ≡ (o.vaddrs g).virtual_addr
  pub next_same : (g : ℕ) → (o'.vaddrs g).next ≡ (o.vaddrs g).next
  pub frame_same : (g : ℕ) → (o'.vaddrs g).frame_number ≡ (o.vaddrs g).frame_number
  pub occurances_same : (g : ℕ) → (o'.vaddrs g).occurances ≡ (o.vaddrs g).occurances

-- The step ends, and leads to the list `xs`.
abbrev pub Relinks : Variables → Option Variables → List ℕ → Type 0
Relinks o r xs =
    (o' : Variables) × (r ≡ some o') × Chain o'.vaddrs o'.coremap_head xs × Relinked o o'

push-Chain :
    (o : Variables) (v : ℕ) (xs : List ℕ)
    → Chain o.vaddrs o.coremap_head xs
    → has v xs ≡ false
    → Chain (push v o).vaddrs (some v) (v ∷ xs)
push-Chain o v xs chain out = (
  refl,
  subst (λ q. Chain (push v o).vaddrs q xs) (sym after)
      (frame o.vaddrs (push v o).vaddrs o.coremap_head xs (λ g i. ground arith) chain),
)
  where
    after : ((push v o).vaddrs v).next_in_frame ≡ o.coremap_head
    after = ground arith

push-Relinked : (o : Variables) (v : ℕ) → Relinked o (push v o)
push-Relinked o v = record {
  size_same = refl;
  map_same = refl;
  mallocs_same = refl;
  references_same = refl;
  position_same = refl;
  address_same = λ g. ground arith;
  next_same = λ g. ground arith;
  frame_same = λ g. ground arith;
  occurances_same = λ g. ground arith;
}

behind-Relinked :
    (o : Variables) (v c : ℕ) → Relinked o (record o { vaddrs = insert_behind v c o.vaddrs })
behind-Relinked o v c = record {
  size_same = refl;
  map_same = refl;
  mallocs_same = refl;
  references_same = refl;
  position_same = refl;
  address_same = λ g. ground arith;
  next_same = λ g. ground arith;
  frame_same = λ g. ground arith;
  occurances_same = λ g. ground arith;
}

bypass-Relinked :
    (o : Variables) (v c b : ℕ) → Relinked o (record o { vaddrs = bypass v c b o.vaddrs })
bypass-Relinked o v c b = record {
  size_same = refl;
  map_same = refl;
  mallocs_same = refl;
  references_same = refl;
  position_same = refl;
  address_same = λ g. ground arith;
  next_same = λ g. ground arith;
  frame_same = λ g. ground arith;
  occurances_same = λ g. ground arith;
}

module _ (o : Variables) (v : ℕ) where
  -- add_to_coremap puts a node that is not in the list at its place.
  pub add_to_coremap-Relinks :
      (xs : List ℕ)
      → Chain o.vaddrs o.coremap_head xs
      → Distinct xs
      → has v xs ≡ false
      → length xs ≤ o.mallocs
      → ((y : ℕ) → next_use o.vaddrs v ≡ some y → Untied (next_use o.vaddrs) y xs)
      → Relinks o (add_to_coremap v o) (place (next_use o.vaddrs) v xs)
  unfolding add_to_coremap
  add_to_coremap-Relinks [] chain d out le apart =
      (push v o, ground (arith, chain), push-Chain o v [] chain out, push-Relinked o v)
  add_to_coremap-Relinks (x ∷ xs) (start, chain) d out le apart =
      elim (Option-cases (next_use o.vaddrs v)) [
        | inl never ↦
            let first : farther (next_use o.vaddrs v) (next_use o.vaddrs x) ≡ true =
              ground (arith, never) in
            (
              push v o,
              ground (arith, start, never),
              rw first (push-Chain o v (x ∷ xs) (start, chain) out),
              push-Relinked o v,
            )
        | inr (y, at) ↦ elim (Bool-cases (goes_first (next_use o.vaddrs x) y)) [
          | inl before ↦
              let first : farther (next_use o.vaddrs v) (next_use o.vaddrs x) ≡ true =
                ground (arith, at) in
              (
                push v o,
                ground (arith, start, at, before),
                rw first (push-Chain o v (x ∷ xs) (start, chain) out),
                push-Relinked o v,
              )
          | inr behind ↦
              let walks : farther (next_use o.vaddrs v) (next_use o.vaddrs x) ≡ false =
                ground (arith, at) in
              let (c, runs, inside, chain') =
                seek-Chain o.vaddrs o.mallocs v y x xs (omega arith) at (refl, chain) d out
                  (λ g i. apart y at g (ground arith)) in
              (
                record o { vaddrs = insert_behind v c o.vaddrs },
                ground (arith, start, at, behind, runs),
                rw walks (start, chain'.1),
                behind-Relinked o v c,
              )
        ]
      ]

  -- remove_from_coremap takes a node out of the list, if no other node of the list has its address.
  pub remove_from_coremap-Relinks :
      (xs : List ℕ)
      → Chain o.vaddrs o.coremap_head xs
      → Distinct xs
      → has v xs ≡ true
      → length xs ≤ o.mallocs
      → ((g : ℕ) → has g xs ≡ true → (o.vaddrs g).virtual_addr ≡ (o.vaddrs v).virtual_addr → g ≡ v)
      → Relinks o (remove_from_coremap v o) (remove v xs)
  unfolding remove_from_coremap
  remove_from_coremap-Relinks [] chain d inside le alone = absurd (ground arith)
  remove_from_coremap-Relinks (x ∷ xs) (start, chain) d inside le alone =
      elim (Bool-cases (x == v)) [
        | inl here ↦
            let e : x ≡ v = ground arith in
            let same : ((o.vaddrs x).virtual_addr == (o.vaddrs v).virtual_addr) ≡ true =
              ground (arith, ap (λ g. (o.vaddrs g).virtual_addr) e) in
            (
              record o { coremap_head = (o.vaddrs x).next_in_frame },
              ground (arith, start, same),
              rw here chain,
              record {
                size_same = refl;
                map_same = refl;
                mallocs_same = refl;
                references_same = refl;
                position_same = refl;
                address_same = λ g. refl;
                next_same = λ g. refl;
                frame_same = λ g. refl;
                occurances_same = λ g. refl;
              },
            )
        | inr there ↦
            let other : ((o.vaddrs x).virtual_addr == (o.vaddrs v).virtual_addr) ≡ false =
              ground (arith, alone x (ground arith)) in
            let (c, runs, found, apart, chain') =
              seek_address-Chain o.vaddrs o.mallocs v x xs (omega arith) (refl, chain) d
                (ground arith) (ground arith) (λ g i. alone g (ground arith)) in
            (
              record o { vaddrs = bypass v c v o.vaddrs },
              ground (arith, start, other, runs),
              rw there (start, chain'.1),
              bypass-Relinked o v c v,
            )
      ]
