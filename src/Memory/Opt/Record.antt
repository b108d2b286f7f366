-- ===== src/Memory/Opt/Record.antt =====
-- vaddr_record of opt.c: the nodes of the addresses that were read, and their positions.
use kernel_programming_proje.Base.{
  ℕ, zero, suc, ◌+◌, ◌%◌, ◌<◌, ◌≤◌, ◌≡◌, refl, sym, ap, subst, ◌∙◌, true, false, ◌&&◌, ◌||◌, List,
  [], ◌∷◌, ◌++◌, Option, none, some, has, Distinct, length, length-append, ltb, ◌==◌, if◌then◌else◌,
  arith, inl, inr, Bool-cases,
}
use kernel_programming_proje.Memory.Opt.{Variables, is_outside}
use kernel_programming_proje.Memory.Opt.Order.{uses, uses-end, uses-same}
use kernel_programming_proje.Memory.Opt.Trace.{refer}
use kernel_programming_proje.Memory.Opt.Buckets.{Bucket}
use kernel_programming_proje.Memory.Lru.Order.{is_at}

abbrev pub get_elem? : List ℕ → ℕ → Option ℕ
get_elem? [] i = none
get_elem? (x ∷ xs) zero = some x
get_elem? (x ∷ xs) (suc i) = get_elem? xs i

get_elem?-append-old :
    (xs : List ℕ) (a i : ℕ) → i < length xs → get_elem? (xs ++ a ∷ []) i ≡ get_elem? xs i
get_elem?-append-old [] a i lt = absurd (omega arith)
get_elem?-append-old (x ∷ xs) a zero lt = refl
get_elem?-append-old (x ∷ xs) a (suc i) lt = get_elem?-append-old xs a i (omega arith)

get_elem?-append-new : (xs : List ℕ) (a : ℕ) → get_elem? (xs ++ a ∷ []) (length xs) ≡ some a
get_elem?-append-new [] a = refl
get_elem?-append-new (x ∷ xs) a = get_elem?-append-new xs a

-- Each bucket has the nodes whose addresses have its hash, each once.
pub record Hashed (o : Variables) (buckets : ℕ → List ℕ) : Type 0 where
  pub chains : (i : ℕ) → i < o.hashmap_size → Bucket o.vaddrs (o.hashmap_ptr i) (buckets i)
  pub distinct : (i : ℕ) → Distinct (buckets i)
  pub members :
      (g i : ℕ)
      → has g (buckets i) ≡ (ltb g o.mallocs && ((o.vaddrs g).virtual_addr % o.hashmap_size == i))

-- The variables behind the lines with the addresses of `trace`.
pub record Recorded (o : Variables) (trace : List ℕ) : Type 0 where
  pub size : 0 < o.hashmap_size
  pub moved : o.position ≡ length trace
  pub no_head : o.coremap_head ≡ none
  pub buckets : ℕ → List ℕ
  pub hashed : Hashed o buckets
  pub alone :
      (g h : ℕ)
      → g < o.mallocs
      → h < o.mallocs
      → (o.vaddrs g).virtual_addr ≡ (o.vaddrs h).virtual_addr
      → g ≡ h
  pub outside : (g : ℕ) → g < o.mallocs → is_outside (o.vaddrs g).frame_number ≡ true
  pub planned :
      (g : ℕ) → g < o.mallocs → (o.vaddrs g).occurances ≡ uses o.reference_string g (length trace) 0
  pub referenced :
      (i : ℕ)
      → i < length trace
      → (v : ℕ) × (o.reference_string i ≡ some v)
        × (v < o.mallocs)
        × (get_elem? trace i ≡ some (o.vaddrs v).virtual_addr)

-- What vaddr_record makes of the variables: `v` is the node of the address, old or new.
pub record Noted (o : Variables) (a v : ℕ) (o' : Variables) : Type 0 where
  pub size_same : o'.hashmap_size ≡ o.hashmap_size
  pub position_same : o'.position ≡ o.position
  pub references_same : o'.reference_string ≡ o.reference_string
  pub head_same : o'.coremap_head ≡ o.coremap_head
  pub buckets : ℕ → List ℕ
  pub hashed : Hashed o' buckets
  pub grows : o.mallocs ≤ o'.mallocs
  pub inside : v < o'.mallocs
  pub nodes : (g : ℕ) → g < o'.mallocs → (ltb g o.mallocs || (v == g)) ≡ true
  pub address : (o'.vaddrs v).virtual_addr ≡ a
  pub others : (g : ℕ) → g < o.mallocs → (o'.vaddrs g).virtual_addr ≡ (o.vaddrs g).virtual_addr
  pub only : (g : ℕ) → g < o'.mallocs → (o'.vaddrs g).virtual_addr ≡ a → g ≡ v
  pub outside : (g : ℕ) → g < o'.mallocs → is_outside (o'.vaddrs g).frame_number ≡ true
  pub noted :
      (g : ℕ)
      → g < o'.mallocs
      → (o'.vaddrs g).occurances
        ≡ (if ltb g o.mallocs then (o.vaddrs g).occurances else [])
          ++ (if v == g then o.position ∷ [] else [])

uses-none :
    (refs : ℕ → Option ℕ) (g m k : ℕ)
    → ((i : ℕ) → i < k + m → is_at (refs i) g ≡ false)
    → uses refs g m k ≡ []
uses-none refs g zero k away = refl
uses-none refs g (suc m) k away =
    ground (arith, away k (omega arith), uses-none refs g m (k + 1) (λ i lt. away i (omega arith)))

-- A node that is not used yet.
unused :
    (o : Variables) (trace : List ℕ) (g : ℕ)
    → Recorded o trace
    → o.mallocs ≤ g
    → uses o.reference_string g (length trace) 0 ≡ []
unused o trace g r le =
    uses-none o.reference_string g (length trace) 0
      (λ i lt. let (v, at, known, _) = r.referenced i (omega arith) in ground (arith, at))

module _ (o : Variables) (trace : List ℕ) (a v : ℕ) (o' : Variables) (r : Recorded o trace)
    (e : Noted o a v o') where
  -- A node with another address was there before.
  was_there : (g : ℕ) → g < o'.mallocs → ((o'.vaddrs g).virtual_addr == a) ≡ false → g < o.mallocs
  was_there g i away = elim (Bool-cases (v == g)) [
    | inl here ↦
        let at : v ≡ g = ground arith in
        absurd (ground (arith, ap (λ x. (o'.vaddrs x).virtual_addr) at, e.address, away))
    | inr there ↦ ground (arith, e.nodes g i)
  ]

  -- The occurances before the line are the positions before it.
  earlier :
      (g : ℕ)
      → g < o'.mallocs
      → (if ltb g o.mallocs then (o.vaddrs g).occurances else [])
        ≡ uses o.reference_string g (length trace) 0
  earlier g i = elim (Bool-cases (ltb g o.mallocs)) [
    | inl old ↦ rw old (r.planned g (ground arith))
    | inr young ↦ rw young (sym (unused o trace g r (ground arith)))
  ]

  string_at :
      (i : ℕ)
      → (refer v o').reference_string i
        ≡ (if i == length trace then some v else o.reference_string i)
  string_at i = ground (arith, e.position_same, r.moved, ap (λ f. f i) e.references_same)

  later :
      (g : ℕ)
      → g < o'.mallocs
      → (o'.vaddrs g).occurances ≡ uses (refer v o').reference_string g (suc (length trace)) 0
  later g i =
      let k : ℕ = length trace in
      let refs = (refer v o').reference_string in
      e.noted g i
      ∙ ap (λ l. l ++ (if v == g then o.position ∷ [] else [])) (earlier g i)
      ∙ ap (λ l. l ++ (if v == g then o.position ∷ [] else []))
          (sym (uses-same o.reference_string refs g k 0 (λ j lt. ground (arith, string_at j))))
      ∙ ap (λ l. uses refs g k 0 ++ l) (ground (arith, string_at k, r.moved))
      ∙ sym (uses-end refs g k 0 k (omega arith))

  longer : length (trace ++ a ∷ []) ≡ suc (length trace)
  longer = omega (arith, length-append trace (a ∷ []))

  referenced_now :
      (i : ℕ)
      → i < length (trace ++ a ∷ [])
      → (w : ℕ) × ((refer v o').reference_string i ≡ some w)
        × (w < o'.mallocs)
        × (get_elem? (trace ++ a ∷ []) i ≡ some (o'.vaddrs w).virtual_addr)
  referenced_now i lt = elim (Bool-cases (i == length trace)) [
    | inl here ↦
        let at : length trace ≡ i = ground arith in
        (
          v,
          ground (arith, string_at i),
          e.inside,
          subst (λ j. get_elem? (trace ++ a ∷ []) j ≡ some (o'.vaddrs v).virtual_addr) at
              (get_elem?-append-new trace a ∙ ap some (sym e.address)),
        )
    | inr there ↦
        let old : i < length trace = ground (arith, longer) in
        let (w, at, known, address) = r.referenced i old in
        let grows : o.mallocs ≤ o'.mallocs = e.grows in
        (
          w,
          ground (arith, string_at i, at),
          omega arith,
          get_elem?-append-old trace a i old ∙ address ∙ ap some (sym (e.others w known)),
        )
  ]

  -- The reference string gets the node of the next address.
  pub refer-Recorded : Recorded (refer v o') (trace ++ a ∷ [])
  refer-Recorded = record {
    size = ground (arith, e.size_same, r.size);
    moved = omega (arith, e.position_same, r.moved, longer);
    no_head = e.head_same ∙ r.no_head;
    buckets = e.buckets;
    hashed = record {
      chains = e.hashed.chains;
      distinct = e.hashed.distinct;
      members = e.hashed.members;
    };
    alone = λ g h i j same. elim (Bool-cases ((o'.vaddrs g).virtual_addr == a)) [
      | inl at ↦ e.only g i (ground arith) ∙ sym (e.only h j (ground arith))
      | inr away ↦
          let g_old : g < o.mallocs = was_there g i away in
          let h_old : h < o.mallocs = was_there h j (ground arith) in
          r.alone g h g_old h_old (sym (e.others g g_old) ∙ same ∙ e.others h h_old)
    ];
    outside = e.outside;
    planned = λ g i. later g i ∙ ap (λ m. uses (refer v o').reference_string g m 0) (sym longer);
    referenced = referenced_now;
  }
