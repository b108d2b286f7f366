-- ===== src/Memory/Opt/Note.antt =====
-- vaddr_record and opt_init of opt.c build the reference string of the trace.
use native.Mathlib.Nat.{mod-lt}
use mathlib.Core.List.{append-nil}
use kernel_programming_proje.Base.{
  ℕ, ◌+◌, ◌%◌, ◌<◌, ◌≡◌, refl, ap, subst, ◌∙◌, true, false, ◌&&◌, List, [], ◌∷◌, ◌++◌, none, some,
  negsuc, has, has-append, Distinct, ltb, ◌==◌, if◌then◌else◌, put, arith, inl, inr, Bool-cases,
}
use kernel_programming_proje.Memory.Opt.{Variables}
use kernel_programming_proje.Memory.Opt.Order.{length-le}
use kernel_programming_proje.Memory.Opt.Trace.{
  add_occurance_sequence, new_vaddr, set_next, vaddr_record,
}
use kernel_programming_proje.Memory.Opt.Buckets.{
  Bucket, bucket_frame, Absent, Outcome, scan_bucket-finds,
}
use kernel_programming_proje.Memory.Opt.Record.{Recorded, Noted}
use kernel_programming_proje.Memory.Lru.Laws.{Distinct-append}

-- The variables with a new node, whose bucket is `index`.
record Extends (o : Variables) (a index : ℕ) (bucket : List ℕ) (o' : Variables) : Type 0 where
  size_same : o'.hashmap_size ≡ o.hashmap_size
  position_same : o'.position ≡ o.position
  references_same : o'.reference_string ≡ o.reference_string
  head_same : o'.coremap_head ≡ o.coremap_head
  one_more : o'.mallocs ≡ o.mallocs + 1
  address :
      (g : ℕ)
      → (o'.vaddrs g).virtual_addr ≡ (if g == o.mallocs then a else (o.vaddrs g).virtual_addr)
  frame :
      (g : ℕ)
      → (o'.vaddrs g).frame_number
        ≡ (if g == o.mallocs then negsuc 0 else (o.vaddrs g).frame_number)
  noted :
      (g : ℕ)
      → (o'.vaddrs g).occurances
        ≡ (if g == o.mallocs then o.position ∷ [] else (o.vaddrs g).occurances)
  pointers : (i : ℕ) → (i == index) ≡ false → o'.hashmap_ptr i ≡ o.hashmap_ptr i
  links : (g : ℕ) → g < o.mallocs → has g bucket ≡ false → (o'.vaddrs g).next ≡ (o.vaddrs g).next
  chain : Bucket o'.vaddrs (o'.hashmap_ptr index) (bucket ++ o.mallocs ∷ [])

module _ (o : Variables) (trace : List ℕ) (a : ℕ) (r : Recorded o trace) where
  abbrev index : ℕ
  index = a % o.hashmap_size

  index_lt : index < o.hashmap_size
  index_lt = mod-lt _ r.size

  member_lt : (g i : ℕ) → has g (r.buckets i) ≡ true → g < o.mallocs
  member_lt g i inside = ground (arith, r.hashed.members g i)

  -- No node has the address, if none of its bucket has it.
  nowhere :
      ((g : ℕ) → has g (r.buckets index) ≡ true → ((o.vaddrs g).virtual_addr == a) ≡ false)
      → (g : ℕ) → g < o.mallocs
      → ((o.vaddrs g).virtual_addr == a) ≡ false
  nowhere missing g lt = elim (Bool-cases ((o.vaddrs g).virtual_addr == a)) [
    | inr away ↦ away
    | inl at ↦
        let e : (o.vaddrs g).virtual_addr ≡ a = ground arith in
        let hashes : ((o.vaddrs g).virtual_addr % o.hashmap_size == index) ≡ true =
          ground (arith, ap (λ x. x % o.hashmap_size) e) in
        missing g (ground (arith, r.hashed.members g index))
  ]

  hash_of :
      (o' : Variables)
      → Extends o a index (r.buckets index) o'
      → (g : ℕ)
      → (o'.vaddrs g).virtual_addr % o'.hashmap_size
        ≡ (if g == o.mallocs then index else (o.vaddrs g).virtual_addr % o.hashmap_size)
  hash_of o' e g = elim (Bool-cases (g == o.mallocs)) [
    | inl new ↦
        rw new (
          ap (λ x. x % o'.hashmap_size) (ground (arith, e.address g)) ∙ ap (λ n. a % n) e.size_same)
    | inr old ↦ rw old (
        ap (λ x. x % o'.hashmap_size) (ground (arith, e.address g))
        ∙ ap (λ n. (o.vaddrs g).virtual_addr % n) e.size_same)
  ]

  noted_of :
      (o' : Variables)
      → Extends o a index (r.buckets index) o'
      → (g : ℕ) → g < o'.mallocs
      → (o'.vaddrs g).occurances
        ≡ (if ltb g o.mallocs then (o.vaddrs g).occurances else [])
          ++ (if o.mallocs == g then o.position ∷ [] else [])
  noted_of o' e g lt = elim (Bool-cases (g == o.mallocs)) [
    | inl new ↦ ground (arith, e.noted g)
    | inr old ↦
        let lower : ltb g o.mallocs ≡ true = ground (arith, e.one_more) in
        let apart : (o.mallocs == g) ≡ false = ground arith in
        rw (lower, apart) (ground (arith, e.noted g, append-nil (o.vaddrs g).occurances))
  ]

  members_of :
      (o' : Variables)
      → Extends o a index (r.buckets index) o'
      → (g i : ℕ)
      → has g (put r.buckets index (r.buckets index ++ o.mallocs ∷ []) i)
        ≡ (ltb g o'.mallocs && ((o'.vaddrs g).virtual_addr % o'.hashmap_size == i))
  members_of o' e g i = ground (
    arith,
    has-append g (r.buckets index) (o.mallocs ∷ []),
    r.hashed.members g index,
    r.hashed.members g i,
    hash_of o' e g,
    e.one_more,
  )

  Extends-Noted :
      (o' : Variables)
      → Extends o a index (r.buckets index) o'
      → ((g : ℕ) → has g (r.buckets index) ≡ true → ((o.vaddrs g).virtual_addr == a) ≡ false)
      → Noted o a o.mallocs o'
  Extends-Noted o' e missing = record {
    size_same = e.size_same;
    position_same = e.position_same;
    references_same = e.references_same;
    head_same = e.head_same;
    buckets = put r.buckets index (r.buckets index ++ o.mallocs ∷ []);
    hashed = record {
      chains = λ i lt. elim (Bool-cases (i == index)) [
        | inl here ↦
            let at : index ≡ i = ground arith in
            subst
              (λ j.
                Bucket o'.vaddrs (o'.hashmap_ptr j)
                  (put r.buckets index (r.buckets index ++ o.mallocs ∷ []) j))
              at (ground (arith, e.chain))
        | inr there ↦
            rw (there, e.pointers i there)
              (bucket_frame o.vaddrs o'.vaddrs (o.hashmap_ptr i) (r.buckets i)
                (λ g inside.
                  e.links g (member_lt g i inside)
                    (ground (arith, r.hashed.members g i, r.hashed.members g index)))
                (r.hashed.chains i (ground (arith, e.size_same))))
      ];
      distinct = λ i. elim (Bool-cases (i == index)) [
        | inl here ↦ rw here (
            Distinct-append (r.buckets index) o.mallocs (r.hashed.distinct index)
              (ground (arith, r.hashed.members o.mallocs index)))
        | inr there ↦ rw there (r.hashed.distinct i)
      ];
      members = members_of o' e;
    };
    grows = omega (arith, e.one_more);
    inside = omega (arith, e.one_more);
    nodes = λ g lt. ground (arith, e.one_more);
    address = ground (arith, e.address o.mallocs);
    others = λ g lt. ground (arith, e.address g);
    only = λ g lt at. ground (arith, e.one_more, e.address g, nowhere missing g);
    outside = λ g lt. ground (arith, e.frame g, e.one_more, r.outside g);
    noted = noted_of o' e;
  }

  -- A node that the address has already.
  found-Noted :
      (c : ℕ)
      → c < o.mallocs
      → (o.vaddrs c).virtual_addr ≡ a
      → Noted o a c (add_occurance_sequence c o.position o)
  found-Noted c lt at = record {
    size_same = refl;
    position_same = refl;
    references_same = refl;
    head_same = refl;
    buckets = r.buckets;
    hashed = record {
      chains = λ i i_lt.
          bucket_frame o.vaddrs (add_occurance_sequence c o.position o).vaddrs (o.hashmap_ptr i)
            (r.buckets i) (λ g inside. ground arith) (r.hashed.chains i i_lt);
      distinct = r.hashed.distinct;
      members = λ g i. r.hashed.members g i ∙ ground arith;
    };
    grows = omega arith;
    inside = lt;
    nodes = λ g g_lt. ground arith;
    address = ground (arith, at);
    others = λ g g_lt. ground arith;
    only = λ g g_lt e. r.alone g c g_lt lt (ground (arith, e, at));
    outside = λ g g_lt. ground (arith, r.outside g);
    noted = λ g g_lt. elim (Bool-cases (g == c)) [
      | inl here ↦
          let e : g ≡ c = ground arith in ground (arith, ap (λ x. (o.vaddrs x).occurances) e)
      | inr there ↦
          let old : ltb g o.mallocs ≡ true = ground arith in
          let apart : (c == g) ≡ false = ground arith in
          rw (old, apart) (ground (arith, append-nil (o.vaddrs g).occurances))
    ];
  }

  abbrev first_node : Variables
  first_node = record (new_vaddr o.position a o) {
    hashmap_ptr = put o.hashmap_ptr index (some o.mallocs);
  }

  first-Extends : r.buckets index ≡ [] → Extends o a index (r.buckets index) first_node
  first-Extends empty = record {
    size_same = refl;
    position_same = refl;
    references_same = refl;
    head_same = refl;
    one_more = refl;
    address = λ g. ground arith;
    frame = λ g. ground arith;
    noted = λ g. ground arith;
    pointers = λ i away. ground arith;
    links = λ g lt out. ground arith;
    chain = rw empty (ground arith, ground arith);
  }

  abbrev later_node : ℕ → Variables
  later_node b = record (new_vaddr o.position a o) {
    vaddrs = set_next b (some o.mallocs) (new_vaddr o.position a o).vaddrs;
  }

  later-Extends :
      (c b : ℕ) (xs : List ℕ)
      → r.buckets index ≡ c ∷ xs
      → o.hashmap_ptr index ≡ some c
      → has b (c ∷ xs) ≡ true
      → Absent o.vaddrs a c b xs
      → Extends o a index (r.buckets index) (later_node b)
  later-Extends c b xs list start at absent =
      let member : (g : ℕ) → has g (c ∷ xs) ≡ true → g < o.mallocs =
        λ g i. member_lt g index (rw list i) in
      let old : b < o.mallocs = member b at in
      record {
        size_same = refl;
        position_same = refl;
        references_same = refl;
        head_same = refl;
        one_more = refl;
        address = λ g. ground arith;
        frame = λ g. ground arith;
        noted = λ g. ground arith;
        pointers = λ i away. refl;
        links = λ g lt out. ground (arith, ap (has g) list, at);
        chain =
            rw (list, start)
              (absent.appends (new_vaddr o.position a o).vaddrs o.mallocs
                (λ g i. ground (arith, member g i)) (ground (arith, member o.mallocs))
                (ground arith));
      }

  -- The node that vaddr_record finds, or the new one.
  Noted-in :
      (l : List ℕ)
      → r.buckets index ≡ l
      → (v : ℕ) × (o' : Variables) × (vaddr_record o.position a index o ≡ some (v, o'))
        × Noted o a v o'
  unfolding vaddr_record Outcome
  Noted-in [] list =
      let chain : o.hashmap_ptr index ≡ none =
        subst (Bucket o.vaddrs (o.hashmap_ptr index)) list (r.hashed.chains index index_lt) in
      (
        o.mallocs,
        first_node,
        ground (arith, chain),
        Extends-Noted first_node (first-Extends list)
            (λ g i. absurd (ground (arith, ap (has g) list))),
      )
  Noted-in (c ∷ xs) list =
      let chain : Bucket o.vaddrs (o.hashmap_ptr index) (c ∷ xs) =
        subst (Bucket o.vaddrs (o.hashmap_ptr index)) list (r.hashed.chains index index_lt) in
      let distinct : Distinct (c ∷ xs) = subst Distinct list (r.hashed.distinct index) in
      let member : (g : ℕ) → has g (c ∷ xs) ≡ true → g < o.mallocs =
        λ g i. member_lt g index (rw list i) in
      let (b, runs, at, found) =
        scan_bucket-finds o.vaddrs o.mallocs a c xs (length-le o.mallocs (c ∷ xs) distinct member)
          (refl, chain.1) distinct in
      elim (Bool-cases ((o.vaddrs b).virtual_addr == a)) [
        | inl here ↦ (
          b,
          add_occurance_sequence b o.position o,
          ground (arith, chain.0, runs, here),
          found-Noted b (member b at) (ground arith),
        )
        | inr away ↦
            let absent : Absent o.vaddrs a c b xs = subst (Outcome o.vaddrs a c b xs) away found in
            (
              o.mallocs,
              later_node b,
              ground (arith, chain.0, runs, away),
              Extends-Noted (later_node b) (later-Extends c b xs list chain.0 at absent)
                  (λ g i. absent.missing g (subst (λ l. has g l ≡ true) list i)),
            )
      ]

  pub vaddr_record-Noted :
      (v : ℕ) × (o' : Variables) × (vaddr_record o.position a (a % o.hashmap_size) o ≡ some (v, o'))
      × Noted o a v o'
  vaddr_record-Noted = Noted-in (r.buckets index) refl
