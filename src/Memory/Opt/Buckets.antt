-- ===== src/Memory/Opt/Buckets.antt =====
-- The buckets of the hash map of opt.c.
use kernel_programming_proje.Base.{
  ℕ, zero, suc, ◌<◌, ◌≡◌, refl, sym, subst, Bool, true, false, List, [], ◌∷◌, ◌++◌, Option, none,
  some, has, Distinct, length, ◌==◌, arith, inl, inr, Bool-cases,
}
use kernel_programming_proje.Memory.Opt.{Vaddr}
use kernel_programming_proje.Memory.Opt.Trace.{scan_bucket, set_next}

-- From `p` on the bucket has the nodes `xs`.
abbrev pub Bucket : (ℕ → Vaddr) → Option ℕ → List ℕ → Type 0
Bucket s p [] = p ≡ none
Bucket s p (x ∷ xs) = (p ≡ some x) × Bucket s (s x).next xs

pub bucket_frame :
    (s s' : ℕ → Vaddr) (p : Option ℕ) (xs : List ℕ)
    → ((g : ℕ) → has g xs ≡ true → (s' g).next ≡ (s g).next)
    → Bucket s p xs
    → Bucket s' p xs
bucket_frame s s' p [] same c = c
bucket_frame s s' p (x ∷ xs) same (e, c) = (
  e,
  subst (λ q. Bucket s' q xs) (sym (same x (ground arith)))
      (bucket_frame s s' (s x).next xs (λ g i. same g (ground arith)) c),
)

-- What the loop of vaddr_record finds in a bucket: a node with the address; or no node has it, and
-- a new node goes behind the node that was found.
pub record Absent (s : ℕ → Vaddr) (a c b : ℕ) (xs : List ℕ) : Type 0 where
  pub missing : (g : ℕ) → has g (c ∷ xs) ≡ true → ((s g).virtual_addr == a) ≡ false
  pub appends :
      (s' : ℕ → Vaddr) (v : ℕ)
      → ((g : ℕ) → has g (c ∷ xs) ≡ true → (s' g).next ≡ (s g).next)
      → has v (c ∷ xs) ≡ false
      → (s' v).next ≡ none
      → Bucket (set_next b (some v) s') (some c) (c ∷ (xs ++ v ∷ []))

unfoldable pub Outcome : (ℕ → Vaddr) → ℕ → ℕ → ℕ → List ℕ → Bool → Type 0
Outcome s a c b xs true = Unit {0}
Outcome s a c b xs false = Absent s a c b xs

last-Absent : (s : ℕ → Vaddr) (a c : ℕ) → ((s c).virtual_addr == a) ≡ false → Absent s a c c []
last-Absent s a c other = record {
  missing =
      λ g i. let e : c ≡ g = ground arith in subst (λ h. ((s h).virtual_addr == a) ≡ false) e other;
  appends = λ s' v same out null. (refl, (ground arith, ground (arith, null)));
}

before-Absent :
    (s : ℕ → Vaddr) (a c d b : ℕ) (xs : List ℕ)
    → ((s c).virtual_addr == a) ≡ false
    → (s c).next ≡ some d
    → has c (d ∷ xs) ≡ false
    → has b (d ∷ xs) ≡ true
    → Absent s a d b xs
    → Absent s a c b (d ∷ xs)
before-Absent s a c d b xs other next fresh at rest = record {
  missing = λ g i. elim (Bool-cases (c == g)) [
    | inl here ↦
        let e : c ≡ g = ground arith in subst (λ h. ((s h).virtual_addr == a) ≡ false) e other
    | inr there ↦ rest.missing g (ground arith)
  ];
  appends = λ s' v same out null.
      let after : (set_next b (some v) s' c).next ≡ some d =
        ground (arith, same c (ground arith), next, fresh, at) in
      (
        refl,
        subst (λ q. Bucket (set_next b (some v) s') q (d ∷ (xs ++ v ∷ []))) (sym after)
            (rest.appends s' v (λ g i. same g (ground arith)) (ground arith) null),
      );
}

widen :
    (s : ℕ → Vaddr) (a c d b : ℕ) (ys : List ℕ) (t : Bool)
    → ((s c).virtual_addr == a) ≡ false
    → (s c).next ≡ some d
    → has c (d ∷ ys) ≡ false
    → has b (d ∷ ys) ≡ true
    → Outcome s a d b ys t
    → Outcome s a c b (d ∷ ys) t
unfolding Outcome
widen s a c d b ys true other next fresh at found = tt
widen s a c d b ys false other next fresh at found =
    before-Absent s a c d b ys other next fresh at found

pub scan_bucket-finds :
    (s : ℕ → Vaddr) (n a c : ℕ) (xs : List ℕ)
    → length xs < n
    → Bucket s (some c) (c ∷ xs)
    → Distinct (c ∷ xs)
    → (b : ℕ) × (scan_bucket n a c s ≡ some b)
      × (has b (c ∷ xs) ≡ true)
      × Outcome s a c b xs ((s b).virtual_addr == a)
unfolding scan_bucket Outcome
scan_bucket-finds s zero a c xs lt chain d = absurd (omega arith)
scan_bucket-finds s (suc n) a c [] lt (start, null) d = (
  c,
  ground (arith, null),
  ground arith,
  elim (Bool-cases ((s c).virtual_addr == a)) [
    | inl here ↦ rw here tt
    | inr other ↦ rw other (last-Absent s a c other)
  ],
)
scan_bucket-finds s (suc n) a c (d ∷ ys) lt (start, (next, chain)) distinct =
    elim (Bool-cases ((s c).virtual_addr == a)) [
      | inl here ↦ (c, ground (arith, next, here), ground arith, rw here tt)
      | inr other ↦
          let (b, runs, at, found) =
            scan_bucket-finds s n a d ys (omega arith) (refl, chain) distinct.1 in
          (
            b,
            ground (arith, next, other, runs),
            ground arith,
            widen s a c d b ys ((s b).virtual_addr == a) other next distinct.0 at found,
          )
    ]
