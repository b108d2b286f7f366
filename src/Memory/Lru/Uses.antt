-- ===== src/Memory/Lru/Uses.antt =====
-- lru_ref, lru_evict and lru_init of lru.c on the list of the frames in the order of their last use.
use kernel_programming_proje.Base.{
  ℕ, zero, suc, ◌+◌, ◌<◌, ◌≤◌, ◌≡◌, refl, sym, ap, subst, ◌∙◌, true, false, ◌&&◌, List, [], ◌∷◌,
  ◌++◌, Option, none, some, has, ◌==◌, arith, ◌⊎◌, inl, inr, Bool-cases, ==_refl, leb,
}
use kernel_programming_proje.Memory.State.{Frame, Machine, frame_number}
use kernel_programming_proje.Memory.Lru.{
  Ends, behind, new_page, move_head, move_middle, set_next, set_previous, is_null, same_frame,
  lru_use, lru_ref, lru_evict, lru_init, clear_links, drop_head,
}
use kernel_programming_proje.Memory.Lru.Order.{
  last_of, remove, last-has, after-none, before-none, before-some, remove-absent, remove-last,
}
use kernel_programming_proje.Memory.Lru.Laws.{
  Ordered, used, put_at_tail-is, new_page-is, behind-links, new-Ordered, head-Ordered,
  middle-Ordered,
}

module _ {F : Type 0} (s : Machine F Ends) (f : ℕ) where
  use_new :
      (is_null (s.coremap f).next && is_null (s.coremap f).previous) ≡ true
      → lru_use f s ≡ new_page f s
  unfolding lru_use
  use_new e = rw (lru_use, e) refl

  use_only :
      (is_null (s.coremap f).next && is_null (s.coremap f).previous) ≡ false
      → same_frame s.alg.head s.alg.tail ≡ true
      → lru_use f s ≡ some (tt, s)
  unfolding lru_use
  use_only e h = rw (lru_use, e, h) refl

  use_head :
      (is_null (s.coremap f).next && is_null (s.coremap f).previous) ≡ false
      → same_frame s.alg.head s.alg.tail ≡ false
      → same_frame s.alg.head (some f) ≡ true
      → lru_use f s ≡ move_head f s
  unfolding lru_use
  use_head e h i = rw (lru_use, e, h, i) refl

  use_tail :
      (is_null (s.coremap f).next && is_null (s.coremap f).previous) ≡ false
      → same_frame s.alg.head s.alg.tail ≡ false
      → same_frame s.alg.head (some f) ≡ false
      → same_frame s.alg.tail (some f) ≡ true
      → lru_use f s ≡ some (tt, s)
  unfolding lru_use
  use_tail e h i j = rw (lru_use, e, h, i, j) refl

  use_middle :
      (is_null (s.coremap f).next && is_null (s.coremap f).previous) ≡ false
      → same_frame s.alg.head s.alg.tail ≡ false
      → same_frame s.alg.head (some f) ≡ false
      → same_frame s.alg.tail (some f) ≡ false
      → lru_use f s ≡ move_middle f s
  unfolding lru_use
  use_middle e h i j = rw (lru_use, e, h, i, j) refl

-- The machine that a step leads to, with the list that it keeps.
abbrev Leads : {F : Type 0} → Option (Unit {0} × Machine F Ends) → List ℕ → Type 0
Leads {F} r xs = (s' : Machine F Ends) × (r ≡ some (tt, s')) × Ordered s' xs

-- The only frame of the list: its links are empty, or it stands before itself.
only-Ordered :
    {F : Type 0} (s : Machine F Ends) (f : ℕ) → Ordered s (f ∷ []) → Leads (lru_use f s) (f ∷ [])
only-Ordered s f o = elim o.front_is [
  | inl empty ↦ (
    behind f f s,
    use_new s f (ground (arith, o.nexts f, o.previouses f, empty))
        ∙ new_page-is s f f o.starts
        ∙ put_at_tail-is s f f o.ends,
    record {
      distinct = (refl, tt);
      starts = o.starts;
      ends = refl;
      front = some f;
      front_is = inr refl;
      nexts = λ g. (behind-links s f f g).0 ∙ ground (arith, o.nexts g);
      previouses = λ g. (behind-links s f f g).1 ∙ ground (arith, o.previouses g);
    },
  )
  | inr itself ↦ (
    s,
    use_only s f (ground (arith, o.nexts f, o.previouses f, itself))
        (ground (arith, o.starts, o.ends)),
    o,
  )
]

first-Ordered :
    {F : Type 0} (s : Machine F Ends) (x y : ℕ) (ys : List ℕ)
    → Ordered s (x ∷ y ∷ ys)
    → Leads (lru_use x s) (used x (x ∷ y ∷ ys))
first-Ordered s x y ys o =
    let self : (x == x) ≡ true = ==_refl x in
    let next_is : (s.coremap x).next ≡ some y = o.nexts x ∙ rw self refl in
    let apart : same_frame s.alg.head s.alg.tail ≡ false =
      ground (arith, o.starts, o.ends, last-has y ys, o.distinct.0) in
    let (s', runs, o') = head-Ordered s x y ys o in
    (s', use_head s x (ground (arith, next_is)) apart (ground (arith, o.starts)) ∙ runs, rw self o')

two-Ordered :
    {F : Type 0} (s : Machine F Ends) (x y : ℕ) (ys : List ℕ) (f : ℕ)
    → Ordered s (x ∷ y ∷ ys)
    → has f (x ∷ y ∷ ys) ≡ true
    → Leads (lru_use f s) (used f (x ∷ y ∷ ys))
two-Ordered s x y ys f o inside =
    let apart : same_frame s.alg.head s.alg.tail ≡ false =
      ground (arith, o.starts, o.ends, last-has y ys, o.distinct.0) in
    elim (Bool-cases (x == f)) [
      | inl here ↦
          let e : x ≡ f = ground arith in
          subst (λ g. Leads (lru_use g s) (used g (x ∷ y ∷ ys))) e (first-Ordered s x y ys o)
      | inr there ↦
          let (a, e) = before-some x (y ∷ ys) f (ground arith) in
          let previous_is : (s.coremap f).previous ≡ some a = o.previouses f ∙ rw there e in
          let linked : (is_null (s.coremap f).next && is_null (s.coremap f).previous) ≡ false =
            ground arith in
          let no_head : same_frame s.alg.head (some f) ≡ false = ground (arith, o.starts) in
          elim (Bool-cases (last_of y ys == f)) [
            | inl final ↦ (
              s,
              use_tail s f linked apart no_head (ground (arith, o.ends)),
              subst (Ordered s) (sym (remove-last x (y ∷ ys) f o.distinct final)) o,
            )
            | inr inner ↦
                let (s', runs, o') = middle-Ordered s x f (y ∷ ys) o there (ground arith) inner in
                (
                  s',
                  use_middle s f linked apart no_head (ground (arith, o.ends)) ∙ runs,
                  rw there o',
                )
          ]
    ]

present-Ordered :
    {F : Type 0} (s : Machine F Ends) (xs : List ℕ) (f : ℕ)
    → Ordered s xs
    → has f xs ≡ true
    → Leads (lru_use f s) (used f xs)
present-Ordered s [] f o inside = absurd (ground arith)
present-Ordered s (x ∷ []) f o inside =
    let e : x ≡ f = ground arith in
    subst (λ g. Leads (lru_use g s) (used g (x ∷ []))) e (rw (==_refl x) (only-Ordered s x o))
present-Ordered s (x ∷ y ∷ ys) f o inside = two-Ordered s x y ys f o inside

lru_use-Ordered :
    {F : Type 0} (s : Machine F Ends) (xs : List ℕ) (f : ℕ)
    → Ordered s xs
    → Leads (lru_use f s) (used f xs)
lru_use-Ordered s xs f o = elim (Bool-cases (has f xs)) [
  | inr absent ↦
      let nulls : (is_null (s.coremap f).next && is_null (s.coremap f).previous) ≡ true = ground (
        arith,
        o.nexts f,
        o.previouses f,
        after-none xs f absent,
        before-none o.front xs f absent,
      ) in
      let (s', runs, o') = new-Ordered s xs f o absent in
      (
        s',
        use_new s f nulls ∙ runs,
        subst (λ l. Ordered s' (l ++ f ∷ [])) (sym (remove-absent xs f absent)) o',
      )
  | inl inside ↦ present-Ordered s xs f o inside
]

-- If the linked list has the frames `xs` in their order, lru_ref of a page table entry ends, and the
-- list has them in the order with the entry's frame at the end, once.
pub lru_ref-Ordered :
    {F : Type 0} (s : Machine F Ends) (xs : List ℕ) (p : ℕ)
    → Ordered s xs
    → (s' : Machine F Ends) × (lru_ref p s ≡ some (tt, s'))
      × Ordered s' (remove (frame_number (s.ptes p)) xs ++ frame_number (s.ptes p) ∷ [])
unfolding lru_ref
lru_ref-Ordered s xs p o = lru_use-Ordered s xs (frame_number (s.ptes p)) o

-- The links of a frame are emptied.
abbrev pub forget : {F : Type 0} → ℕ → Machine F Ends → Machine F Ends
forget x s = record s { coremap = set_previous x none (set_next x none s.coremap) }

drop_only :
    {F : Type 0} (s : Machine F Ends) (h : ℕ)
    → same_frame s.alg.head s.alg.tail ≡ true
    → drop_head h s ≡ some (tt, record s { alg = record { head = none; tail = none } })
drop_only s h e = rw (drop_head, e) refl

drop_first :
    {F : Type 0} (s : Machine F Ends) (h b : ℕ)
    → same_frame s.alg.head s.alg.tail ≡ false
    → (s.coremap h).next ≡ some b
    → drop_head h s
      ≡ some (
        tt,
        record s { coremap = set_previous b none s.coremap; alg = record s.alg { head = some b } },
      )
drop_first s h b e next =
    rw (drop_head, e)
      (ap
        (λ n. elim n [
          | none ↦ none
          | some c ↦ some (
            tt,
            record s {
              coremap = set_previous c none s.coremap;
              alg = record s.alg { head = some c };
            },
          )
        ])
        next)

evict_with :
    {F : Type 0} (s s' : Machine F Ends) (x p : ℕ)
    → s.alg.head ≡ some x
    → (s.coremap x).pte ≡ some p
    → frame_number (s.ptes p) ≡ x
    → drop_head x s ≡ some (tt, s')
    → lru_evict s ≡ some (x, forget x s')
unfolding lru_evict
evict_with s s' x p e pte named dropped = rw (lru_evict, e, pte, dropped, named) refl

-- If the linked list has the frames `x ∷ xs` in their order, and the page table entry of `x` names
-- that frame, lru_evict returns `x`, the frame whose last use is the oldest, and the list has the
-- frames `xs`.
pub lru_evict-Ordered :
    {F : Type 0} (s : Machine F Ends) (x p : ℕ) (xs : List ℕ)
    → Ordered s (x ∷ xs)
    → (s.coremap x).pte ≡ some p
    → frame_number (s.ptes p) ≡ x
    → (s' : Machine F Ends) × (lru_evict s ≡ some (x, s')) × Ordered s' xs
lru_evict-Ordered s x p [] o pte named =
    let s1 = record s { alg = record { head = none; tail = none } } in
    (
      forget x s1,
      evict_with s s1 x p o.starts pte named (drop_only s x (ground (arith, o.starts, o.ends))),
      record {
        distinct = tt;
        starts = refl;
        ends = refl;
        front = none;
        front_is = inl refl;
        nexts = λ g. ground (arith, o.nexts g);
        previouses = λ g. ground (arith, o.previouses g);
      },
    )
lru_evict-Ordered s x p (y ∷ ys) o pte named =
    let s1 = record s {
      coremap = set_previous y none s.coremap;
      alg = record s.alg { head = some y };
    } in
    (
      forget x s1,
      evict_with s s1 x p o.starts pte named (
          drop_first s x y (ground (arith, o.starts, o.ends, last-has y ys, o.distinct.0))
            (o.nexts x ∙ rw (==_refl x) refl)),
      record {
        distinct = o.distinct.1;
        starts = refl;
        ends = o.ends;
        front = none;
        front_is = inl refl;
        nexts = λ g. ground (arith, o.nexts g, o.distinct.0, after-none (y ∷ ys) x o.distinct.0);
        previouses = λ g.
            ground (arith, o.previouses g, o.distinct.0, before-none none (y ∷ ys) x o.distinct.0);
      },
    )

clear_links-null :
    (n i : ℕ) (frames : ℕ → Frame) (g : ℕ)
    → ((i ≤ g) × (g < i + n)) ⊎ (((frames g).next ≡ none) × ((frames g).previous ≡ none))
    → ((clear_links n i frames g).next ≡ none) × ((clear_links n i frames g).previous ≡ none)
unfolding clear_links
clear_links-null zero i frames g (inl (le, lt)) = absurd (omega arith)
clear_links-null zero i frames g (inr null) = null
clear_links-null (suc n) i frames g start = elim (Bool-cases (g == i)) [
  | inl here ↦
      clear_links-null n (i + 1) (set_previous i none (set_next i none frames)) g
        (inr (ground arith, ground arith))
  | inr there ↦
      clear_links-null n (i + 1) (set_previous i none (set_next i none frames)) g (elim start [
        | inl (le, lt) ↦ inl (ground arith, omega arith)
        | inr (a, b) ↦ inr (ground (arith, a), ground (arith, b))
      ])
]

-- After lru_init no frame is in the list, if the links behind the last frame are empty.
pub lru_init-Ordered :
    {F : Type 0} (m : ℕ) (s : Machine F Ends)
    → ((g : ℕ) → m ≤ g → (s.coremap g).next ≡ none)
    → ((g : ℕ) → m ≤ g → (s.coremap g).previous ≡ none)
    → Ordered (lru_init m s) []
unfolding lru_init
lru_init-Ordered m s no_next no_previous =
    let null : (g : ℕ)
        → ((clear_links m 0 s.coremap g).next ≡ none)
          × ((clear_links m 0 s.coremap g).previous ≡ none) =
      λ g. clear_links-null m 0 s.coremap g (elim (Bool-cases (leb m g)) [
        | inl past ↦ inr (no_next g (ground arith), no_previous g (ground arith))
        | inr inside ↦ inl (omega arith, ground arith)
      ]) in
    record {
      distinct = tt;
      starts = refl;
      ends = refl;
      front = none;
      front_is = inl refl;
      nexts = λ g. (null g).0;
      previouses = λ g. (null g).1;
    }
