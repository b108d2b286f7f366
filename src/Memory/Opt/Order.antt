-- ===== src/Memory/Opt/Order.antt =====
-- The order of the linked list of opt.c, and the positions at which the reference string uses a page.
use kernel_programming_proje.Base.{
  ℕ, zero, suc, ◌+◌, ◌<◌, ◌≤◌, ◌≡◌, refl, ap, subst, true, false, List, [], ◌∷◌, ◌++◌, Option, none,
  some, has, Distinct, length, ◌==◌, if◌then◌else◌, arith, inl, inr, Bool-cases,
}
use kernel_programming_proje.Memory.Opt.{head}
use kernel_programming_proje.Memory.Opt.Chain.{farther, place, place-has, Untied}
use kernel_programming_proje.Memory.Lru.Order.{remove, remove-has, remove-Distinct, is_at}

-- No page of the list is used after one that stands before it.
abbrev pub Sorted : (ℕ → Option ℕ) → List ℕ → Type 0
Sorted u [] = Unit {0}
Sorted u (x ∷ xs) = ((g : ℕ) → has g xs ≡ true → farther (u x) (u g) ≡ true) × Sorted u xs

pub Sorted-same :
    (u u' : ℕ → Option ℕ) (xs : List ℕ)
    → ((g : ℕ) → has g xs ≡ true → u' g ≡ u g)
    → Sorted u xs
    → Sorted u' xs
Sorted-same u u' [] same s = tt
Sorted-same u u' (x ∷ xs) same (s, rest) = (
  λ g i. ground (arith, same g (ground arith), same x (ground arith), s g i),
  Sorted-same u u' xs (λ g i. same g (ground arith)) rest,
)

pub remove-Sorted :
    (u : ℕ → Option ℕ) (v : ℕ) (xs : List ℕ) → Distinct xs → Sorted u xs → Sorted u (remove v xs)
remove-Sorted u v [] d s = tt
remove-Sorted u v (x ∷ xs) d (s, rest) = elim (Bool-cases (x == v)) [
  | inl here ↦ rw here rest
  | inr there ↦
      rw there (λ g i. s g (ground (arith, remove-has xs v g d.1)), remove-Sorted u v xs d.1 rest)
]

-- Trichotomy of the next uses: one is farther, or they are the same position.
farther-or :
    (a b : Option ℕ)
    → farther a b ≡ false
    → ((y : ℕ) → a ≡ some y → b ≡ some y → ⊥)
    → farther b a ≡ true
farther-or none b nearer apart = absurd (ground arith)
farther-or (some x) none nearer apart = refl
farther-or (some x) (some y) nearer apart = ground (arith, apart x refl)

farther_trans : (a b c : Option ℕ) → farther a b ≡ true → farther b c ≡ true → farther a c ≡ true
farther_trans none b c p q = refl
farther_trans (some x) none c p q = absurd (ground arith)
farther_trans (some x) (some y) none p q = q
farther_trans (some x) (some y) (some z) p q = ground arith

pub place-Sorted :
    (u : ℕ → Option ℕ) (v : ℕ) (xs : List ℕ)
    → ((y : ℕ) → u v ≡ some y → Untied u y xs)
    → Sorted u xs
    → Sorted u (place u v xs)
place-Sorted u v [] apart s = ((λ g i. absurd (ground arith)), tt)
place-Sorted u v (x ∷ xs) apart (s, rest) = elim (Bool-cases (farther (u v) (u x))) [
  | inl here ↦ rw here (
    λ g i. elim (Bool-cases (x == g)) [
      | inl e ↦ ground arith
      | inr ne ↦ farther_trans (u v) (u x) (u g) here (s g (ground arith))
    ],
    (s, rest),
  )
  | inr there ↦ rw there (
    λ g i. elim (Bool-cases (v == g)) [
      | inl e ↦
          let e' : v ≡ g = ground arith in
          subst (λ h. farther (u x) (u h) ≡ true) e'
            (farther-or (u v) (u x) there (λ y a b. apart y a x (ground arith) b))
      | inr ne ↦ s g (ground (arith, place-has u v xs g))
    ],
    place-Sorted u v xs (λ y a g i. apart y a g (ground arith)) rest,
  )
]

pub length-remove : (xs : List ℕ) (v : ℕ) → has v xs ≡ true → suc (length (remove v xs)) ≡ length xs
length-remove [] v i = absurd (ground arith)
length-remove (x ∷ xs) v i = elim (Bool-cases (x == v)) [
  | inl here ↦ rw here refl
  | inr there ↦ rw there (ap suc (length-remove xs v (ground arith)))
]

-- A list without repetitions of numbers below n has no more than n.
pub length-le :
    (n : ℕ) (xs : List ℕ) → Distinct xs → ((g : ℕ) → has g xs ≡ true → g < n) → length xs ≤ n
length-le zero [] d below = omega arith
length-le zero (x ∷ xs) d below = absurd (ground (arith, below x))
length-le (suc n) xs d below = elim (Bool-cases (has n xs)) [
  | inl top ↦
      let rest : length (remove n xs) ≤ n =
        length-le n (remove n xs) (remove-Distinct xs n d)
          (λ g i. ground (arith, remove-has xs n g d, below g)) in
      omega (arith, length-remove xs n top)
  | inr absent ↦
      let rest : length xs ≤ n = length-le n xs d (λ g i. ground (arith, below g i)) in omega arith
]

-- The positions among the `m` from `k` on at which the reference string has the node `g`.
abbrev pub uses : (ℕ → Option ℕ) → ℕ → ℕ → ℕ → List ℕ
uses refs g zero k = []
uses refs g (suc m) k =
    let rest = uses refs g m (k + 1) in if is_at (refs k) g then k ∷ rest else rest

is_at-some : (o : Option ℕ) (g : ℕ) → is_at o g ≡ true → o ≡ some g
is_at-some none g h = absurd (ground arith)
is_at-some (some x) g h = ground arith

pub head-uses :
    (refs : ℕ → Option ℕ) (g m k b : ℕ)
    → head (uses refs g m k) ≡ some b
    → (k ≤ b) × (b < k + m) × (refs b ≡ some g)
head-uses refs g zero k b h = absurd (ground arith)
head-uses refs g (suc m) k b h = elim (Bool-cases (is_at (refs k) g)) [
  | inl here ↦
      let e : k ≡ b = ground (arith, h, here) in
      (omega arith, omega arith, subst (λ i. refs i ≡ some g) e (is_at-some (refs k) g here))
  | inr there ↦
      let (lo, hi, e) = head-uses refs g m (k + 1) b (ground (arith, h, there)) in
      (omega arith, omega arith, e)
]

pub uses-hits :
    (refs : ℕ → Option ℕ) (g m k i : ℕ)
    → k ≤ i
    → i < k + m
    → refs i ≡ some g
    → (b : ℕ) × (head (uses refs g m k) ≡ some b) × (b ≤ i)
uses-hits refs g zero k i lo hi e = absurd (omega arith)
uses-hits refs g (suc m) k i lo hi e = elim (Bool-cases (is_at (refs k) g)) [
  | inl here ↦ (k, rw here refl, lo)
  | inr there ↦ elim (Bool-cases (k == i)) [
    | inl at ↦ let at' : k ≡ i = ground arith in absurd (ground (arith, ap refs at', e, there))
    | inr past ↦
        let (b, h, le) = uses-hits refs g m (k + 1) i (ground arith) (omega arith) e in
        (b, rw there h, le)
  ]
]

pub uses-end :
    (refs : ℕ → Option ℕ) (g m k j : ℕ)
    → j ≡ k + m
    → uses refs g (suc m) k ≡ uses refs g m k ++ (if is_at (refs j) g then j ∷ [] else [])
uses-end refs g zero k j e =
    let e' : k ≡ j = omega arith in ap (λ i. if is_at (refs i) g then i ∷ [] else []) e'
uses-end refs g (suc m) k j e = elim (Bool-cases (is_at (refs k) g)) [
  | inl here ↦ rw here (ap (λ l. k ∷ l) (uses-end refs g m (k + 1) j (omega arith)))
  | inr there ↦ rw there (uses-end refs g m (k + 1) j (omega arith))
]

pub uses-same :
    (refs refs' : ℕ → Option ℕ) (g m k : ℕ)
    → ((i : ℕ) → i < k + m → refs' i ≡ refs i)
    → uses refs' g m k ≡ uses refs g m k
uses-same refs refs' g zero k same = refl
uses-same refs refs' g (suc m) k same =
    ground
      (arith, same k (omega arith), uses-same refs refs' g m (k + 1) (λ i lt. same i (omega arith)))
