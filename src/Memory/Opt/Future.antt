-- ===== src/Memory/Opt/Future.antt =====
-- opt_ref and opt_evict of opt.c: the linked list has the pages in frames in the order of their
-- next uses in the trace.
use kernel_programming_proje.Base.{
  ℕ, suc, ◌+◌, ◌-◌, ◌<◌, ◌≡◌, sym, ap, ◌∙◌, Bool, true, false, not, ◌||◌, List, ◌∷◌, Option, some,
  has, Distinct, ◌==◌, if◌then◌else◌, arith,
}
use kernel_programming_proje.Memory.Opt.{Variables, head, is_outside, step_position, add_to_coremap}
use kernel_programming_proje.Memory.Opt.Chain.{Chain, place, place-has, place-Distinct, next_use}
use kernel_programming_proje.Memory.Opt.Order.{
  Sorted, Sorted-same, place-Sorted, length-le, uses, head-uses,
}
use kernel_programming_proje.Memory.Opt.Links.{Relinked, add_to_coremap-Relinks}
use kernel_programming_proje.Memory.Lru.Order.{is_at}

-- The position from `k` on, of `n` in all, at which the reference string uses the node.
abbrev pub ahead : (ℕ → Option ℕ) → ℕ → ℕ → ℕ → Option ℕ
ahead refs n k g = head (uses refs g (n - k) k)

-- A node has a frame exactly if it is `inside`; no two nodes have one address; the occurances of a
-- node are its positions in the rest of the reference string, which has `n` nodes.
pub record Planned (n : ℕ) (o : Variables) (inside : ℕ → Bool) : Type 0 where
  pub outside : (g : ℕ) → g < o.mallocs → is_outside (o.vaddrs g).frame_number ≡ not (inside g)
  pub alone :
      (g h : ℕ)
      → g < o.mallocs
      → h < o.mallocs
      → (o.vaddrs g).virtual_addr ≡ (o.vaddrs h).virtual_addr
      → g ≡ h
  pub planned :
      (g : ℕ)
      → g < o.mallocs
      → (o.vaddrs g).occurances ≡ uses o.reference_string g (n - o.position) o.position
  pub referenced : (i : ℕ) → i < n → (v : ℕ) × (o.reference_string i ≡ some v) × (v < o.mallocs)

-- The linked list has the nodes `xs`, each once, in the order of their next uses.
pub record Listed (n : ℕ) (o : Variables) (xs : List ℕ) (inside : ℕ → Bool) : Type 0 where
  pub chain : Chain o.vaddrs o.coremap_head xs
  pub distinct : Distinct xs
  pub sorted : Sorted (next_use o.vaddrs) xs
  pub known : (g : ℕ) → has g xs ≡ true → g < o.mallocs
  pub plan : Planned n o inside

-- The nodes of the list are those that have a frame.
abbrev pub Ranked : ℕ → Variables → List ℕ → Type 0
Ranked n o xs = Listed n o xs (λ g. has g xs)

pub Planned-Relinked :
    (n : ℕ) (o o' : Variables) (b b' : ℕ → Bool)
    → Relinked o o'
    → ((g : ℕ) → b' g ≡ b g)
    → Planned n o b
    → Planned n o' b'
Planned-Relinked n o o' b b' r same l = record {
  outside = λ g lt. ground (arith, r.frame_same g, same g, r.mallocs_same, l.outside g);
  alone = λ g h i j e.
      l.alone g h (ground (arith, r.mallocs_same)) (ground (arith, r.mallocs_same))
        (sym (r.address_same g) ∙ e ∙ r.address_same h);
  planned = λ g lt.
      r.occurances_same g
      ∙ l.planned g (ground (arith, r.mallocs_same))
      ∙ ap (λ refs. uses refs g (n - o.position) o.position) (sym r.references_same)
      ∙ ap (λ k. uses o'.reference_string g (n - k) k) (sym r.position_same);
  referenced = λ i lt.
      let (v, e, known) = l.referenced i lt in
      (v, ap (λ refs. refs i) r.references_same ∙ e, ground (arith, r.mallocs_same));
}

-- Two nodes are not used at one position.
untied :
    (n : ℕ) (o : Variables) (xs : List ℕ) (b : ℕ → Bool) (v : ℕ)
    → Listed n o xs b
    → v < o.mallocs
    → has v xs ≡ false
    → (y : ℕ) → next_use o.vaddrs v ≡ some y
    → (g : ℕ) → has g xs ≡ true
    → next_use o.vaddrs g ≡ some y
    → ⊥
untied n o xs b v l lt out y e g inside e' =
    let a =
      head-uses o.reference_string v (n - o.position) o.position y
        (sym (ap head (l.plan.planned v lt)) ∙ e) in
    let c =
      head-uses o.reference_string g (n - o.position) o.position y
        (sym (ap head (l.plan.planned g (l.known g inside))) ∙ e') in
    ground (arith, a.2, c.2)

-- add_to_coremap for a node that has a frame and is not in the list.
pub add-Ranked :
    (n : ℕ) (o : Variables) (xs : List ℕ) (v : ℕ)
    → Listed n o xs (λ g. (v == g) || has g xs)
    → v < o.mallocs
    → has v xs ≡ false
    → (o' : Variables) × (add_to_coremap v o ≡ some o')
      × Relinked o o'
      × Ranked n o' (place (next_use o.vaddrs) v xs)
add-Ranked n o xs v l lt out =
    let apart = untied n o xs (λ g. (v == g) || has g xs) v l lt out in
    let (o', runs, chain, r) =
      add_to_coremap-Relinks o v xs l.chain l.distinct out
        (length-le o.mallocs xs l.distinct l.known) apart in
    (
      o',
      runs,
      r,
      record {
        chain = chain;
        distinct = place-Distinct (next_use o.vaddrs) v xs l.distinct out;
        sorted =
            Sorted-same (next_use o.vaddrs) (next_use o'.vaddrs) (place (next_use o.vaddrs) v xs)
              (λ g i. ap head (r.occurances_same g))
              (place-Sorted (next_use o.vaddrs) v xs apart l.sorted);
        known =
            λ g i. ground (arith, r.mallocs_same, place-has (next_use o.vaddrs) v xs g, l.known g);
        plan =
            Planned-Relinked n o o' (λ g. (v == g) || has g xs)
              (λ g. has g (place (next_use o.vaddrs) v xs)) r
              (λ g. place-has (next_use o.vaddrs) v xs g) l.plan;
      },
    )

-- The first of the positions that are left is passed.
uses-next :
    (refs : ℕ → Option ℕ) (n k g : ℕ)
    → k < n
    → uses refs g (n - k) k ≡ (
        if is_at (refs k) g
        then k ∷ uses refs g (n - (k + 1)) (k + 1)
        else uses refs g (n - (k + 1)) (k + 1))
uses-next refs n k g lt =
    let e : n - k ≡ suc (n - (k + 1)) = omega arith in ap (λ m. uses refs g m k) e

-- step_position keeps the plan.
pub step-Planned :
    (n : ℕ) (o : Variables) (v : ℕ) (b : ℕ → Bool)
    → o.position < n
    → o.reference_string o.position ≡ some v
    → Planned n o b
    → Planned n (step_position v o) b
step-Planned n o v b lt at l = record {
  outside = λ g i. ground (arith, l.outside g);
  alone = λ g h i j e. l.alone g h i j (ground arith);
  planned =
      λ g i. ground (arith, l.planned g i, uses-next o.reference_string n o.position g lt, at);
  referenced = l.referenced;
}
