-- ===== src/Memory/Opt/Init.antt =====
-- opt_init of opt.c: the reference string of the trace.
use mathlib.Core.List.{append-nil, append_assoc}
use kernel_programming_proje.Base.{
  ℕ, zero, suc, ◌+◌, ◌%◌, ◌<◌, ◌≤◌, ◌≡◌, refl, sym, ap, subst, ◌∙◌, List, [], ◌∷◌, ◌++◌, Option,
  none, some, length, ◌==◌, put, arith, inl, inr, Bool-cases, ◌⊎◌,
}
use kernel_programming_proje.Memory.Opt.{Variables, hash}
use kernel_programming_proje.Memory.Opt.Trace.{
  replace_newline_char, clear, refer, read_trace, opt_init,
}
use kernel_programming_proje.Memory.Opt.Order.{uses}
use kernel_programming_proje.Memory.Opt.Future.{Ranked}
use kernel_programming_proje.Memory.Opt.Record.{get_elem?, Recorded, refer-Recorded}
use kernel_programming_proje.Memory.Opt.Note.{vaddr_record-Noted}

clear-none :
    (n i : ℕ) (pointers : ℕ → Option ℕ) (j : ℕ)
    → ((i ≤ j) × (j < i + n)) ⊎ (pointers j ≡ none)
    → clear n i pointers j ≡ none
unfolding clear
clear-none zero i pointers j (inl (le, lt)) = absurd (omega arith)
clear-none zero i pointers j (inr null) = null
clear-none (suc n) i pointers j start = elim (Bool-cases (j == i)) [
  | inl here ↦ clear-none n (i + 1) (put pointers i none) j (inr (ground arith))
  | inr there ↦ clear-none n (i + 1) (put pointers i none) j (elim start [
    | inl (le, lt) ↦ inl (ground arith, omega arith)
    | inr null ↦ inr (ground arith)
  ])
]

module _ (scan : List ℕ → ℕ → ℕ → ℕ × ℕ) where
  -- The address that each line gives to virtual_addr.
  abbrev pub addresses : List (List ℕ) → ℕ → ℕ → List ℕ
  addresses [] type a = []
  addresses (l ∷ lines) type a =
      let (type', a') = scan (replace_newline_char l 20) type a in a' ∷ addresses lines type' a'

  length-addresses :
      (lines : List (List ℕ)) (type a : ℕ) → length (addresses lines type a) ≡ length lines
  length-addresses [] type a = refl
  length-addresses (l ∷ lines) type a = ap suc (
      length-addresses lines (scan (replace_newline_char l 20) type a).0
        (scan (replace_newline_char l 20) type a).1)

  read_trace-Recorded :
      (lines : List (List ℕ)) (type a : ℕ) (o : Variables) (trace : List ℕ)
      → Recorded o trace
      → (o' : Variables) × (read_trace scan lines type a o ≡ some o')
        × Recorded o' (trace ++ addresses lines type a)
  unfolding read_trace
  read_trace-Recorded [] type a o trace r = (o, refl, subst (Recorded o) (sym (append-nil trace)) r)
  read_trace-Recorded (l ∷ lines) type a o trace r =
      let t' : ℕ = (scan (replace_newline_char l 20) type a).0 in
      let a' : ℕ = (scan (replace_newline_char l 20) type a).1 in
      let (v, o1, notes, e) = vaddr_record-Noted o trace a' r in
      let (o', reads, done) =
        read_trace-Recorded lines t' a' (refer v o1) (trace ++ a' ∷ [])
          (refer-Recorded o trace a' v o1 r e) in
      let hashes : hash o a' ≡ some (a' % o.hashmap_size) = ground (arith, r.size) in
      (
        o',
        ground (arith, hashes, notes, reads),
        subst (Recorded o') (append_assoc trace (a' ∷ []) (addresses lines t' a')) done,
      )

  start-Recorded :
      (m n : ℕ) (o : Variables)
      → 0 < m
      → Recorded
          (record o {
            coremap_head = none;
            hashmap_size = m;
            position = 0;
            hashmap_ptr = clear m 0 o.hashmap_ptr;
            reference_string = clear n 0 o.reference_string;
            mallocs = 0;
          })
          []
  start-Recorded m n o lt = record {
    size = lt;
    moved = refl;
    no_head = refl;
    buckets = λ i. [];
    hashed = record {
      chains = λ i i_lt. clear-none m 0 o.hashmap_ptr i (inl (omega arith, omega arith));
      distinct = λ i. tt;
      members = λ g i. ground arith;
    };
    alone = λ g h i j e. absurd (omega arith);
    outside = λ g i. absurd (omega arith);
    planned = λ g i. absurd (omega arith);
    referenced = λ i lt'. absurd (omega arith);
  }

  Recorded-Ranked :
      (o : Variables) (trace : List ℕ) (n : ℕ)
      → Recorded o trace
      → length trace ≡ n
      → Ranked n (record o { position = 0 }) []
  Recorded-Ranked o trace n r e = record {
    chain = r.no_head;
    distinct = tt;
    sorted = tt;
    known = λ g i. absurd (ground arith);
    plan = record {
      outside = r.outside;
      alone = r.alone;
      planned = λ g lt. r.planned g lt ∙ ap (λ k. uses o.reference_string g k 0) (omega (arith, e));
      referenced =
          λ i lt. let (v, at, known, _) = r.referenced i (omega (arith, e)) in (v, at, known);
    };
  }

  -- With at least one frame, opt_init of a trace that can be opened ends, at position 0 and with no page
  -- in the linked list. The reference string has a node for each line, which has the line's address;
  -- no two nodes have one address, and the occurances of each node are its positions.
  pub opt_init-Ranked :
      (m : ℕ) (lines : List (List ℕ)) (type a : ℕ) (o : Variables)
      → 0 < m
      → (o' : Variables) × (opt_init scan m (some lines) type a o ≡ some o')
        × (o'.position ≡ 0)
        × Ranked (length lines) o' []
        × ((i : ℕ)
            → i < length lines
            → (v : ℕ) × (o'.reference_string i ≡ some v)
              × (get_elem? (addresses lines type a) i ≡ some (o'.vaddrs v).virtual_addr))
  unfolding opt_init
  opt_init-Ranked m lines type a o lt =
      let (o', reads, r) =
        read_trace-Recorded lines type a
          (record o {
            coremap_head = none;
            hashmap_size = m;
            position = 0;
            hashmap_ptr = clear m 0 o.hashmap_ptr;
            reference_string = clear (length lines) 0 o.reference_string;
            mallocs = 0;
          })
          [] (start-Recorded m (length lines) o lt) in
      (
        record o' { position = 0 },
        ground (arith, reads),
        refl,
        Recorded-Ranked o' (addresses lines type a) (length lines) r
            (length-addresses lines type a),
        λ i i_lt.
            let (v, at, known, address) =
              r.referenced i (omega (arith, length-addresses lines type a)) in
            (v, at, address),
      )
