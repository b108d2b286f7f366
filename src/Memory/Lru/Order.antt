-- ===== src/Memory/Lru/Order.antt =====
-- Neighbours in a list without repetitions, for the linked list of lru.c.
use kernel_programming_proje.Base.{
  ℕ, ◌≡◌, refl, sym, ap, subst, Bool, true, false, not, ◌&&◌, List, [], ◌∷◌, ◌++◌, Option, none,
  some, has, Distinct, ◌==◌, if◌then◌else◌, arith, inl, inr, Bool-cases,
}

abbrev pub first : List ℕ → Option ℕ
first [] = none
first (x ∷ xs) = some x

abbrev pub last_of : ℕ → List ℕ → ℕ
last_of x [] = x
last_of x (y ∷ ys) = last_of y ys

-- What stands behind `g` in the list, and before it, where `p` stands before the list.
abbrev pub after : List ℕ → ℕ → Option ℕ
after [] g = none
after (x ∷ xs) g = let rest = after xs g in if x == g then first xs else rest

abbrev pub before : Option ℕ → List ℕ → ℕ → Option ℕ
before p [] g = none
before p (x ∷ xs) g = let rest = before (some x) xs g in if x == g then p else rest

abbrev pub remove : ℕ → List ℕ → List ℕ
remove f [] = []
remove f (x ∷ xs) = let rest = remove f xs in if x == f then xs else x ∷ rest

abbrev pub is_at : Option ℕ → ℕ → Bool
is_at none g = false
is_at (some x) g = x == g

pub last-has : (x : ℕ) (xs : List ℕ) → has (last_of x xs) (x ∷ xs) ≡ true
last-has x [] = ground arith
last-has x (y ∷ ys) = ground (arith, last-has y ys)

pub after-none : (xs : List ℕ) (g : ℕ) → has g xs ≡ false → after xs g ≡ none
after-none [] g out = refl
after-none (x ∷ xs) g out = ground (arith, after-none xs g (ground arith))

pub before-none : (p : Option ℕ) (xs : List ℕ) (g : ℕ) → has g xs ≡ false → before p xs g ≡ none
before-none p [] g out = refl
before-none p (x ∷ xs) g out = ground (arith, before-none (some x) xs g (ground arith))

pub after-append :
    (x : ℕ) (xs : List ℕ) (f g : ℕ)
    → Distinct (x ∷ xs)
    → has f (x ∷ xs) ≡ false
    → after ((x ∷ xs) ++ f ∷ []) g
      ≡ (if g == f then none else if g == last_of x xs then some f else after (x ∷ xs) g)
after-append x [] f g d out = ground arith
after-append x (y ∷ ys) f g d out =
    ground (arith, after-append y ys f g d.1 (ground arith), last-has y ys, d.0)

pub before-append :
    (p : Option ℕ) (x : ℕ) (xs : List ℕ) (f g : ℕ)
    → has f (x ∷ xs) ≡ false
    → before p ((x ∷ xs) ++ f ∷ []) g
      ≡ (if g == f then some (last_of x xs) else before p (x ∷ xs) g)
before-append p x [] f g out = ground arith
before-append p x (y ∷ ys) f g out = ground (arith, before-append (some x) y ys f g (ground arith))

-- The element before an element is in the list or is `p`.
pub before-has :
    (p : ℕ) (xs : List ℕ) (f g : ℕ) → before (some p) xs f ≡ some g → has g (p ∷ xs) ≡ true
before-has p [] f g e = absurd (ground arith)
before-has p (x ∷ xs) f g e = elim (Bool-cases (x == f)) [
  | inl here ↦ ground arith
  | inr there ↦ ground (arith, before-has x xs f g (rw there at e))
]

pub after-has : (xs : List ℕ) (f g : ℕ) → after xs f ≡ some g → has g xs ≡ true
after-has [] f g e = absurd (ground arith)
after-has (x ∷ []) f g e = absurd (ground arith)
after-has (x ∷ y ∷ ys) f g e = elim (Bool-cases (x == f)) [
  | inl here ↦ ground arith
  | inr there ↦ ground (arith, after-has (y ∷ ys) f g (rw there at e))
]

-- Moving `f`, which stands behind the first and before the last element, to the end.
pub after-move :
    (p : ℕ) (xs : List ℕ) (f g : ℕ)
    → Distinct (p ∷ xs)
    → has f xs ≡ true
    → (last_of p xs == f) ≡ false
    → after (p ∷ (remove f xs ++ f ∷ [])) g ≡ (
        if g == f
        then none
        else if g == last_of p xs
        then some f
        else if is_at (before (some p) xs f) g
        then after xs f
        else after (p ∷ xs) g)
after-move p [] f g d in_list not_last = absurd (ground arith)
after-move p (x ∷ []) f g d in_list not_last = absurd (ground arith)
after-move p (x ∷ b ∷ vs) f g d in_list not_last = elim (Bool-cases (x == f)) [
  | inl here ↦
      let e : x ≡ f = ground arith in
      let out : has f (b ∷ vs) ≡ false = subst (λ y. has y (b ∷ vs) ≡ false) e d.1.0 in
      let tail = after-append b vs f g d.1.1 out in
      rw here (ground (arith, tail, d.0, last-has b vs))
  | inr there ↦
      let inner : has f (b ∷ vs) ≡ true = ground arith in
      let tail = after-move x (b ∷ vs) f g d.1 inner not_last in
      let bound = before-has x (b ∷ vs) f p in
      rw there (ground (arith, tail, d.0, last-has b vs, bound))
]

pub before-move :
    (o : Option ℕ) (p : ℕ) (xs : List ℕ) (f g : ℕ)
    → Distinct (p ∷ xs)
    → has f xs ≡ true
    → (last_of p xs == f) ≡ false
    → before o (p ∷ (remove f xs ++ f ∷ [])) g ≡ (
        if g == f
        then some (last_of p xs)
        else if is_at (after xs f) g
        then before (some p) xs f
        else before o (p ∷ xs) g)
before-move o p [] f g d in_list not_last = absurd (ground arith)
before-move o p (x ∷ []) f g d in_list not_last = absurd (ground arith)
before-move o p (x ∷ b ∷ vs) f g d in_list not_last = elim (Bool-cases (x == f)) [
  | inl here ↦
      let e : x ≡ f = ground arith in
      let out : has f (b ∷ vs) ≡ false = subst (λ y. has y (b ∷ vs) ≡ false) e d.1.0 in
      let tail = before-append (some p) b vs f g out in
      rw here (ground (arith, tail, d.0, last-has b vs))
  | inr there ↦
      let inner : has f (b ∷ vs) ≡ true = ground arith in
      let tail = before-move (some p) x (b ∷ vs) f g d.1 inner not_last in
      let bound = after-has (b ∷ vs) f p in
      rw there (ground (arith, tail, d.0, last-has b vs, bound))
]

pub after-some :
    (x : ℕ) (xs : List ℕ) (f : ℕ)
    → has f (x ∷ xs) ≡ true
    → (last_of x xs == f) ≡ false
    → (b : ℕ) × (after (x ∷ xs) f ≡ some b)
after-some x [] f in_list not_last = absurd (ground arith)
after-some x (y ∷ ys) f in_list not_last = elim (Bool-cases (x == f)) [
  | inl here ↦ (y, rw here refl)
  | inr there ↦ let (b, e) = after-some y ys f (ground arith) not_last in (b, rw there e)
]

pub before-some :
    (p : ℕ) (xs : List ℕ) (f : ℕ) → has f xs ≡ true → (a : ℕ) × (before (some p) xs f ≡ some a)
before-some p [] f in_list = absurd (ground arith)
before-some p (x ∷ xs) f in_list = elim (Bool-cases (x == f)) [
  | inl here ↦ (p, rw here refl)
  | inr there ↦ let (a, e) = before-some x xs f (ground arith) in (a, rw there e)
]

pub remove-has :
    (xs : List ℕ) (f g : ℕ) → Distinct xs → has g (remove f xs) ≡ (has g xs && not (g == f))
remove-has [] f g d = refl
remove-has (x ∷ xs) f g d = elim (Bool-cases (x == f)) [
  | inl here ↦ rw here (ground (arith, d.0))
  | inr there ↦ rw there (ground (arith, remove-has xs f g d.1))
]

pub remove-Distinct : (xs : List ℕ) (f : ℕ) → Distinct xs → Distinct (remove f xs)
remove-Distinct [] f d = tt
remove-Distinct (x ∷ xs) f d = elim (Bool-cases (x == f)) [
  | inl here ↦ rw here d.1
  | inr there ↦ rw there (ground (arith, remove-has xs f x d.1, d.0), remove-Distinct xs f d.1)
]

pub remove-absent : (xs : List ℕ) (f : ℕ) → has f xs ≡ false → remove f xs ≡ xs
remove-absent [] f out = refl
remove-absent (x ∷ xs) f out =
    let there : (x == f) ≡ false = ground arith in
    rw there (ap (λ l. x ∷ l) (remove-absent xs f (ground arith)))

pub remove-last :
    (x : ℕ) (xs : List ℕ) (f : ℕ)
    → Distinct (x ∷ xs)
    → (last_of x xs == f) ≡ true
    → remove f (x ∷ xs) ++ f ∷ [] ≡ x ∷ xs
remove-last x [] f d final = let e : x ≡ f = ground arith in rw final (ap (λ y. y ∷ []) (sym e))
remove-last x (y ∷ ys) f d final =
    let there : (x == f) ≡ false = ground (arith, last-has y ys, d.0) in
    rw there (ap (λ l. x ∷ l) (remove-last y ys f d.1 final))
