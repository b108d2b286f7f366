-- ===== src/Memory/Lru/Lawful.antt =====
-- lru.c keeps what pagetable.c relies on: the frames it tracks are those of its linked list.
use kernel_programming_proje.Base.{
  ℕ, ◌<◌, ◌≡◌, refl, sym, ap, subst, ◌∙◌, Bool, true, not, ◌&&◌, ◌||◌, List, [], ◌∷◌, ◌++◌, Option,
  none, some, has, has-append, ◌==◌, ==_refl, arith, After, After-map, ltb,
}
use kernel_programming_proje.Memory.State.{Machine, frame_number}
use kernel_programming_proje.Memory.Pagetable.Coherent.{
  Lawful, SameLinks, Steady, is_some, target, owner,
}
use kernel_programming_proje.Memory.Lru.{Ends, lru, lru_ref, lru_evict}
use kernel_programming_proje.Memory.Lru.Order.{remove, remove-has}
use kernel_programming_proje.Memory.Lru.Laws.{Ordered}
use kernel_programming_proje.Memory.Lru.Uses.{lru_ref-Ordered, lru_evict-Ordered}
use kernel_programming_proje.Memory.Lru.Keeps.{Keeps, lru_ref-Keeps, lru_evict-Keeps}

-- The linked list has the frames of `t`.
abbrev pub Lists : {F : Type 0} → Machine F Ends → (ℕ → Bool) → Type 0
Lists s t = (xs : List ℕ) × Ordered s xs × ((f : ℕ) → has f xs ≡ t f)

-- A run that returns `b` and leads to a machine of which `Q` holds.
pub runs-After :
    {F B : Type 0} (s s' : Machine F Ends) (r : Option (B × Machine F Ends)) (b : B)
    (P : B → Machine F Ends → Type 0)
    → r ≡ some (b, s')
    → Keeps s r
    → (Steady s s' → P b s')
    → After P r
runs-After s s' r b P e keeps holds = subst (After P) (sym e) (holds (subst (Keeps s) e keeps))

pub relinked-Ordered :
    {F : Type 0} (s s' : Machine F Ends) (xs : List ℕ)
    → SameLinks s s'
    → Ordered s xs
    → Ordered s' xs
relinked-Ordered s s' xs d o = record {
  distinct = o.distinct;
  starts = ap (λ e. e.head) d.alg_same ∙ o.starts;
  ends = ap (λ e. e.tail) d.alg_same ∙ o.ends;
  front = o.front;
  front_is = o.front_is;
  nexts = λ g. d.next_same g ∙ o.nexts g;
  previouses = λ g. d.previous_same g ∙ o.previouses g;
}

pointed : (o : Option ℕ) → is_some o ≡ true → o ≡ some (target o)
pointed none h = absurd (ground arith)
pointed (some p) h = refl

pub lru_evict-Lists :
    {F : Type 0} (s : Machine F Ends) (m : ℕ) (xs : List ℕ)
    → 0 < m
    → Ordered s xs
    → ((f : ℕ) → has f xs ≡ ltb f m)
    → ((f : ℕ) → f < m → is_some (s.coremap f).pte ≡ true)
    → ((f : ℕ) → f < m → frame_number (s.ptes (owner s f)) ≡ f)
    → After (λ f s'. (f < m) × Steady s s' × Lists s' (λ g. ltb g m && not (g == f))) (lru_evict s)
lru_evict-Lists s m [] lt o full held named = absurd (ground (arith, full 0))
lru_evict-Lists s m (x ∷ xs) lt o full held named =
    let inside : x < m = ground (arith, full x, ==_refl x) in
    let (s', runs, o') =
      lru_evict-Ordered s x (owner s x) xs o (pointed (s.coremap x).pte (held x inside))
        (named x inside) in
    runs-After s s' (lru_evict s) x
      (λ f u. (f < m) × Steady s u × Lists u (λ g. ltb g m && not (g == f))) runs
      (lru_evict-Keeps s)
      (λ steady. (inside, steady, (xs, o', λ g. ground (arith, full g, o.distinct.0))))

-- A run that tracks what `t` says tracks what an equal `t'` says.
pub Lists-same :
    {F : Type 0} (s : Machine F Ends) (t t' : ℕ → Bool)
    → ((f : ℕ) → t' f ≡ t f)
    → Lists s t
    → Lists s t'
Lists-same s t t' same (xs, o, h) = (xs, o, λ f. h f ∙ sym (same f))

pub lru_ref-Lists :
    {F : Type 0} (s : Machine F Ends) (t : ℕ → Bool) (p : ℕ) (xs : List ℕ)
    → Ordered s xs
    → ((f : ℕ) → has f xs ≡ t f)
    → After
        (λ _ s'. Steady s s' × Lists s' (λ g. t g || (g == frame_number (s.ptes p))))
        (lru_ref p s)
lru_ref-Lists s t p xs o h =
    let f : ℕ = frame_number (s.ptes p) in
    let (s', runs, o') = lru_ref-Ordered s xs p o in
    runs-After s s' (lru_ref p s) tt (λ _ u. Steady s u × Lists u (λ g. t g || (g == f))) runs
      (lru_ref-Keeps s p)
      (λ steady. (
        steady,
        (
          remove f xs ++ f ∷ [],
          o',
          λ g.
              has-append g (remove f xs) (f ∷ [])
              ∙ ground (arith, remove-has xs f g o.distinct, h g),
        ),
      ))

module _ {F : Type 0} (m : ℕ) where
  unfoldable pub lru-Lawful : Lawful m (lru {F = F})
  lru-Lawful = record {
    Tracks = Lists;
    stable =
        λ s s' t t' d same (xs, o, h). (xs, relinked-Ordered s s' xs d o, λ f. h f ∙ sym (same f));
    evict_law = λ s t lt (xs, o, h) full held named.
        After-map _ _ (lru_evict s) (lru_evict-Lists s m xs lt o (λ f. h f ∙ full f) held named)
          (λ f s' (inside, steady, l).
            (inside, steady, Lists-same s' _ _ (λ g. ap (λ b. b && not (g == f)) (full g)) l));
    ref_law = λ s t p (xs, o, h) lt inside. lru_ref-Lists s t p xs o h;
  }
