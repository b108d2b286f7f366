-- ===== src/Memory/Lru/Laws.antt =====
-- The linked list of lru.c is the list of the frames in the order of their last use.
use kernel_programming_proje.Base.{
  ℕ, ◌≡◌, refl, sym, ap, ◌∙◌, true, false, List, [], ◌∷◌, ◌++◌, Option, none, some, has, has-append,
  Distinct, ◌==◌, if◌then◌else◌, arith, ◌⊎◌, inl,
}
use kernel_programming_proje.Memory.State.{Machine}
use kernel_programming_proje.Memory.Lru.{
  Ends, behind, put_at_tail, new_page, move_head, move_middle, set_next, set_previous,
}
use kernel_programming_proje.Memory.Lru.Order.{
  first, last_of, after, before, remove, after-append, before-append, after-move, before-move,
  after-some, before-some, remove-has, remove-Distinct,
}

abbrev pub last : List ℕ → Option ℕ
last [] = none
last (x ∷ xs) = some (last_of x xs)

-- The links and the ends of a machine are those of the list; before its first frame there is
-- nothing, or the frame itself.
pub record Ordered {F : Type 0} (s : Machine F Ends) (xs : List ℕ) : Type 0 where
  pub distinct : Distinct xs
  pub starts : s.alg.head ≡ first xs
  pub ends : s.alg.tail ≡ last xs
  pub front : Option ℕ
  pub front_is : (front ≡ none) ⊎ (front ≡ first xs)
  pub nexts : (g : ℕ) → (s.coremap g).next ≡ after xs g
  pub previouses : (g : ℕ) → (s.coremap g).previous ≡ before front xs g

-- A frame that is used goes to the end.
abbrev pub used : ℕ → List ℕ → List ℕ
used f xs = remove f xs ++ f ∷ []

pub behind-links :
    {F : Type 0} (s : Machine F Ends) (f t g : ℕ)
    → (((behind f t s).coremap g).next
        ≡ (if g == f then none else if g == t then some f else (s.coremap g).next))
      × (((behind f t s).coremap g).previous ≡ (if g == f then some t else (s.coremap g).previous))
behind-links s f t g = ground arith

pub Distinct-append :
    (xs : List ℕ) (f : ℕ) → Distinct xs → has f xs ≡ false → Distinct (xs ++ f ∷ [])
Distinct-append [] f d out = (refl, tt)
Distinct-append (x ∷ xs) f d out =
    (ground (arith, has-append x xs (f ∷ []), d.0), Distinct-append xs f d.1 (ground arith))

last-append : (x : ℕ) (xs : List ℕ) (f : ℕ) → last_of x (xs ++ f ∷ []) ≡ f
last-append x [] f = refl
last-append x (y ∷ ys) f = last-append y ys f

pub put_at_tail-is :
    {F : Type 0} (s : Machine F Ends) (f t : ℕ)
    → s.alg.tail ≡ some t
    → put_at_tail f s ≡ some (tt, behind f t s)
put_at_tail-is s f t e = ap (λ o. elim o [ none ↦ none | some u ↦ some (tt, behind f u s) ]) e

pub new_page-is :
    {F : Type 0} (s : Machine F Ends) (f h : ℕ)
    → s.alg.head ≡ some h
    → new_page f s ≡ put_at_tail f s
new_page-is s f h e =
    ap
      (λ o. elim o [
        | none ↦ some (tt, record s { alg = record { head = some f; tail = some f } })
        | some u ↦ put_at_tail f s
      ])
      e

move_middle-is :
    {F : Type 0} (s : Machine F Ends) (f a b : ℕ)
    → (s.coremap f).next ≡ some b
    → (s.coremap f).previous ≡ some a
    → move_middle f s
      ≡ put_at_tail f
          (record s { coremap = set_next a (some b) (set_previous b (some a) s.coremap) })
move_middle-is s f a b next previous =
    ap
      (λ n. elim n [
        | none ↦ none
        | some c ↦ elim (s.coremap f).previous [
          | none ↦ none
          | some e ↦
              put_at_tail f
                (record s { coremap = set_next e (some c) (set_previous c (some e) s.coremap) })
        ]
      ])
      next
    ∙ ap
        (λ n. elim n [
          | none ↦ none
          | some e ↦
              put_at_tail f
                (record s { coremap = set_next e (some b) (set_previous b (some e) s.coremap) })
        ])
        previous

-- A frame that is not in the list.
pub new-Ordered :
    {F : Type 0} (s : Machine F Ends) (xs : List ℕ) (f : ℕ)
    → Ordered s xs
    → has f xs ≡ false
    → (s' : Machine F Ends) × (new_page f s ≡ some (tt, s')) × Ordered s' (xs ++ f ∷ [])
new-Ordered s [] f o out = (
  record s { alg = record { head = some f; tail = some f } },
  rw (new_page, o.starts) refl,
  record {
    distinct = (refl, tt);
    starts = refl;
    ends = refl;
    front = none;
    front_is = inl refl;
    nexts = λ g. ground (arith, o.nexts g);
    previouses = λ g. ground (arith, o.previouses g);
  },
)
new-Ordered s (x ∷ xs) f o out =
    let t : ℕ = last_of x xs in
    (
      behind f t s,
      new_page-is s f x o.starts ∙ put_at_tail-is s f t o.ends,
      record {
        distinct = Distinct-append (x ∷ xs) f o.distinct out;
        starts = o.starts;
        ends = ap some (sym (last-append x xs f));
        front = o.front;
        front_is = o.front_is;
        nexts = λ g.
            (behind-links s f t g).0
            ∙ ground (arith, after-append x xs f g o.distinct out, o.nexts g);
        previouses = λ g.
            (behind-links s f t g).1
            ∙ ground (arith, before-append o.front x xs f g out, o.previouses g);
      },
    )

-- The head of the list, with another frame behind it.
pub head-Ordered :
    {F : Type 0} (s : Machine F Ends) (f b : ℕ) (xs : List ℕ)
    → Ordered s (f ∷ b ∷ xs)
    → (s' : Machine F Ends) × (move_head f s ≡ some (tt, s')) × Ordered s' ((b ∷ xs) ++ f ∷ [])
head-Ordered s f b xs o =
    let t : ℕ = last_of b xs in
    let s1 = record s {
      coremap = set_previous b none s.coremap;
      alg = record s.alg { head = some b };
    } in
    let next_is : (s.coremap f).next ≡ some b = o.nexts f ∙ ground arith in
    (
      behind f t s1,
      ap
            (λ n. elim n [
              | none ↦ none
              | some c ↦ put_at_tail f (record s {
                coremap = set_previous c none s.coremap;
                alg = record s.alg { head = some c };
              })
            ])
            next_is
          ∙ put_at_tail-is s1 f t o.ends,
      record {
        distinct = Distinct-append (b ∷ xs) f o.distinct.1 o.distinct.0;
        starts = refl;
        ends = ap some (sym (last-append b xs f));
        front = none;
        front_is = inl refl;
        nexts = λ g.
            (behind-links s1 f t g).0
            ∙ ground (arith, after-append b xs f g o.distinct.1 o.distinct.0, o.nexts g);
        previouses = λ g.
            (behind-links s1 f t g).1
            ∙ ground
                (arith, before-append none b xs f g o.distinct.0, o.previouses g, o.distinct.0);
      },
    )

-- A frame that is neither the first nor the last.
pub middle-Ordered :
    {F : Type 0} (s : Machine F Ends) (p f : ℕ) (xs : List ℕ)
    → Ordered s (p ∷ xs)
    → (p == f) ≡ false
    → has f xs ≡ true
    → (last_of p xs == f) ≡ false
    → (s' : Machine F Ends) × (move_middle f s ≡ some (tt, s'))
      × Ordered s' (p ∷ (remove f xs ++ f ∷ []))
middle-Ordered s p f xs o away inside not_last =
    let (b, behind_f) = after-some p xs f (ground arith) not_last in
    let (a, before_f) = before-some p xs f inside in
    let t : ℕ = last_of p xs in
    let s1 = record s { coremap = set_next a (some b) (set_previous b (some a) s.coremap) } in
    let next_is : (s.coremap f).next ≡ some b = o.nexts f ∙ behind_f in
    let previous_is : (s.coremap f).previous ≡ some a = o.previouses f ∙ rw away before_f in
    let tail_next : after xs f ≡ some b = ground arith in
    (
      behind f t s1,
      move_middle-is s f a b next_is previous_is ∙ put_at_tail-is s1 f t o.ends,
      record {
        distinct =
            Distinct-append (p ∷ remove f xs) f
              (
                ground (arith, remove-has xs f p o.distinct.1, o.distinct.0),
                remove-Distinct xs f o.distinct.1,
              )
              (ground (arith, remove-has xs f f o.distinct.1));
        starts = o.starts;
        ends = ap some (sym (last-append p (remove f xs) f));
        front = o.front;
        front_is = o.front_is;
        nexts = λ g.
            (behind-links s1 f t g).0
            ∙ ground (
              arith,
              after-move p xs f g o.distinct inside not_last,
              o.nexts g,
              before_f,
              tail_next,
            );
        previouses = λ g.
            (behind-links s1 f t g).1
            ∙ ground (
              arith,
              before-move o.front p xs f g o.distinct inside not_last,
              o.previouses g,
              before_f,
              tail_next,
            );
      },
    )
