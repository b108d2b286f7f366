-- ===== src/Memory/Opt/Chain.antt =====
-- The linked list of opt.c and its order: the list of the nodes that the links lead through.
use kernel_programming_proje.Base.{
  ℕ, zero, suc, ◌<◌, ◌≡◌, refl, sym, ap, subst, ◌∙◌, Bool, true, false, ◌||◌, List, [], ◌∷◌, Option,
  none, some, has, Distinct, length, ltb, ◌==◌, if◌then◌else◌, arith, inl, inr, Bool-cases,
}
use kernel_programming_proje.Memory.Opt.{
  Vaddr, head, insert_behind, stays_ahead, seek, seek_address, bypass,
}
use kernel_programming_proje.Memory.Lru.Order.{remove}

-- From `p` on the links lead through the nodes `xs` to a null pointer.
abbrev pub Chain : (ℕ → Vaddr) → Option ℕ → List ℕ → Type 0
Chain s p [] = p ≡ none
Chain s p (x ∷ xs) = (p ≡ some x) × Chain s (s x).next_in_frame xs

-- A change of other nodes.
pub frame :
    (s s' : ℕ → Vaddr) (p : Option ℕ) (xs : List ℕ)
    → ((g : ℕ) → has g xs ≡ true → (s' g).next_in_frame ≡ (s g).next_in_frame)
    → Chain s p xs
    → Chain s' p xs
frame s s' p [] same c = c
frame s s' p (x ∷ xs) same (e, c) = (
  e,
  subst (λ q. Chain s' q xs) (sym (same x (ground arith)))
      (frame s s' (s x).next_in_frame xs (λ g i. same g (ground arith)) c),
)

-- Whether the page with the first use is used after the one with the second; `none` is never.
abbrev pub farther : Option ℕ → Option ℕ → Bool
farther none b = true
farther (some x) none = false
farther (some x) (some y) = ltb y x

-- The list with `v` before the first node whose next use is not after its own.
abbrev pub place : (ℕ → Option ℕ) → ℕ → List ℕ → List ℕ
place use_of v [] = v ∷ []
place use_of v (x ∷ xs) =
    let rest = place use_of v xs in if farther (use_of v) (use_of x) then v ∷ x ∷ xs else x ∷ rest

abbrev pub next_use : (ℕ → Vaddr) → ℕ → Option ℕ
next_use s g = head (s g).occurances

pub place-has :
    (u : ℕ → Option ℕ) (v : ℕ) (xs : List ℕ) (g : ℕ) → has g (place u v xs) ≡ ((v == g) || has g xs)
place-has u v [] g = refl
place-has u v (x ∷ xs) g = ground (arith, place-has u v xs g)

pub place-Distinct :
    (u : ℕ → Option ℕ) (v : ℕ) (xs : List ℕ)
    → Distinct xs
    → has v xs ≡ false
    → Distinct (place u v xs)
place-Distinct u v [] d out = (refl, tt)
place-Distinct u v (x ∷ xs) d out = elim (Bool-cases (farther (u v) (u x))) [
  | inl here ↦ rw here (out, d)
  | inr there ↦
      rw there
        (ground (arith, place-has u v xs x, d.0, out), place-Distinct u v xs d.1 (ground arith))
]

-- No two nodes of the list are used next at the same position, and one is not in it.
abbrev pub Untied : (ℕ → Option ℕ) → ℕ → List ℕ → Type 0
Untied u y xs = (g : ℕ) → has g xs ≡ true → (u g ≡ some y) → ⊥

pub insert_behind-Chain :
    (s : ℕ → Vaddr) (v c : ℕ) (xs : List ℕ)
    → Chain s (some c) (c ∷ xs)
    → Distinct (c ∷ xs)
    → has v (c ∷ xs) ≡ false
    → Chain (insert_behind v c s) (some c) (c ∷ v ∷ xs)
insert_behind-Chain s v c xs (e, chain) d out = (
  refl,
  (
    ground arith,
    subst (λ q. Chain (insert_behind v c s) q xs) (sym after)
        (frame s (insert_behind v c s) (s c).next_in_frame xs (λ g i. ground (arith, d.0)) chain),
  ),
)
  where
    after : (insert_behind v c s v).next_in_frame ≡ (s c).next_in_frame
    after = ground arith

-- The loop of add_to_coremap ends at a node of the list behind which the place is.
pub seek-Chain :
    (s : ℕ → Vaddr) (n v y c : ℕ) (xs : List ℕ)
    → length xs < n
    → next_use s v ≡ some y
    → Chain s (some c) (c ∷ xs)
    → Distinct (c ∷ xs)
    → has v (c ∷ xs) ≡ false
    → Untied (next_use s) y xs
    → (b : ℕ) × (seek n y c s ≡ some b)
      × (has b (c ∷ xs) ≡ true)
      × Chain (insert_behind v b s) (some c) (c ∷ place (next_use s) v xs)
unfolding seek
seek-Chain s zero v y c xs lt e chain d out apart = absurd (omega arith)
seek-Chain s (suc n) v y c [] lt e (start, next) d out apart =
    (c, rw (seek, next) refl, ground arith, insert_behind-Chain s v c [] (start, next) d out)
seek-Chain s (suc n) v y c (b ∷ ys) lt e (start, (next, chain)) d out apart =
    elim (Bool-cases (stays_ahead (next_use s b) y)) [
      | inr here ↦
          let stands : farther (next_use s v) (next_use s b) ≡ true =
            ground (arith, e, apart b (ground arith)) in
          (
            c,
            rw (seek, next, here) refl,
            ground arith,
            rw stands (insert_behind-Chain s v c (b ∷ ys) (start, (next, chain)) d out),
          )
      | inl there ↦
          let walks : farther (next_use s v) (next_use s b) ≡ false = ground (arith, e) in
          let (at, runs, inside, chain') =
            seek-Chain s n v y b ys (omega arith) e (refl, chain) d.1 (ground arith)
              (λ g i. apart g (ground arith)) in
          (
            at,
            rw (seek, next, there) runs,
            ground arith,
            rw walks (
              refl,
              subst (λ q. Chain (insert_behind v at s) q (b ∷ place (next_use s) v ys))
                  (sym (stays at inside)) chain',
            ),
          )
    ]
  where
    stays : (at : ℕ) → has at (b ∷ ys) ≡ true → (insert_behind v at s c).next_in_frame ≡ some b
    stays at inside = ground (arith, next, d.0, inside)

-- The links without a node of the list that is not the first.
bypass_first-Chain :
    (s : ℕ → Vaddr) (c v : ℕ) (xs : List ℕ)
    → Chain s (some c) (c ∷ v ∷ xs)
    → Distinct (c ∷ v ∷ xs)
    → Chain (bypass v c v s) (some c) (c ∷ xs)
bypass_first-Chain s c v xs (start, (next, chain)) d = (
  refl,
  subst (λ q. Chain (bypass v c v s) q xs) (sym after)
      (frame s (bypass v c v s) (s v).next_in_frame xs (λ g i. ground (arith, d.0, d.1.0)) chain),
)
  where
    after : (bypass v c v s c).next_in_frame ≡ (s v).next_in_frame
    after = ground (arith, d.0)

-- The loop of remove_from_coremap finds the node, if no other node of the list has its address.
pub seek_address-Chain :
    (s : ℕ → Vaddr) (n v c : ℕ) (xs : List ℕ)
    → length xs < n
    → Chain s (some c) (c ∷ xs)
    → Distinct (c ∷ xs)
    → (v == c) ≡ false
    → has v xs ≡ true
    → ((g : ℕ) → has g xs ≡ true → (s g).virtual_addr ≡ (s v).virtual_addr → g ≡ v)
    → (b : ℕ) × (seek_address n (s v).virtual_addr c s ≡ some (b, v))
      × (has b (c ∷ xs) ≡ true)
      × ((b == v) ≡ false)
      × Chain (bypass v b v s) (some c) (c ∷ remove v xs)
unfolding seek_address
seek_address-Chain s zero v c xs lt chain d away inside alone = absurd (omega arith)
seek_address-Chain s (suc n) v c [] lt chain d away inside alone = absurd (ground arith)
seek_address-Chain s (suc n) v c (b ∷ ys) lt (start, (next, chain)) d away inside alone =
    elim (Bool-cases (b == v)) [
      | inl here ↦
          let e : b ≡ v = ground arith in
          let same : ((s b).virtual_addr == (s v).virtual_addr) ≡ true =
            ground (arith, ap (λ g. (s g).virtual_addr) e) in
          (
            c,
            rw (seek_address, next, same) (ap (λ g. some (c, g)) e),
            ground arith,
            ground arith,
            rw here (
                bypass_first-Chain s c v ys
                  (refl, (next ∙ ap some e, subst (λ g. Chain s (s g).next_in_frame ys) e chain))
                  (subst (λ g. Distinct (c ∷ g ∷ ys)) e d)),
          )
      | inr there ↦
          let other : ((s b).virtual_addr == (s v).virtual_addr) ≡ false =
            ground (arith, alone b (ground arith)) in
          let (at, runs, found, apart, chain') =
            seek_address-Chain s n v b ys (omega arith) (refl, chain) d.1 (ground arith)
              (ground arith) (λ g i. alone g (ground arith)) in
          (
            at,
            rw (seek_address, next, other) runs,
            ground arith,
            apart,
            rw there (
              refl,
              subst (λ q. Chain (bypass v at v s) q (b ∷ remove v ys)) (sym (stays at found))
                  chain',
            ),
          )
    ]
  where
    stays : (at : ℕ) → has at (b ∷ ys) ≡ true → (bypass v at v s c).next_in_frame ≡ some b
    stays at found = ground (arith, next, d.0, found)
