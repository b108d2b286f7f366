-- ===== src/Memory/Bitmap/Refine.antt =====
-- swap.c's bitmap against its specification: a set of slots below `nbits`, of which bitmap_alloc
-- takes the least free one.
use kernel_programming_proje.Base.{
  ℕ, zero, suc, ◌+◌, ◌-◌, ◌*◌, ◌/◌, ◌%◌, ◌^◌, ◌≤◌, ◌<◌, ◌≡◌, refl, true, false, not, ◌&&◌, ◌||◌,
  Option, none, some, ltb, leb, ◌==◌, if◌then◌else◌, put, arith, ltb→lt, lt→ltb, ==_iff, subst, sym,
  ◌⊎◌, inl, inr, Bool-cases,
}
use kernel_programming_proje.Word.{test_bit, set_bit, clear_bit}
use kernel_programming_proje.Word.Laws.{
  test_bit-set_bit, test_bit-clear_bit, set_bit-lt, test_bit-ones, ones_of_test_bit,
}
use kernel_programming_proje.Memory.Bitmap.{
  Bitmap, mark_bits, alloc_from, words_for, bitmap_isset, bitmap_create, bitmap_alloc, bitmap_mark,
  bitmap_unmark,
}
use kernel_programming_proje.Memory.Bitmap.Laws.{
  IsWell, mark_bits-test, mark_bits-lt, find_offset-first,
}

-- The bitmap with the bit at `offset` of word `ix` set.
abbrev with_bit : Bitmap → ℕ → ℕ → Bitmap
with_bit b ix offset = record b { v = put b.v ix (set_bit (b.v ix) offset) }

with_bit-isset :
    (b : Bitmap) (ix f j : ℕ)
    → f < 32
    → bitmap_isset (with_bit b ix f) j ≡ ((ix * 32 + f == j) || bitmap_isset b j)
unfolding bitmap_isset
with_bit-isset b ix f j h = ground (arith, test_bit-set_bit (b.v ix) f (j % 32))

with_bit-IsWell : (b : Bitmap) (ix f : ℕ) → f < 32 → IsWell b → IsWell (with_bit b ix f)
with_bit-IsWell b ix f h w = record {
  small = w.small;
  words = λ i. ground (arith, w.words i, w.words ix, set_bit-lt 32 (b.v ix) f);
  over = λ i k a c e. ground (arith, w.over i k a c e, test_bit-set_bit (b.v ix) f k);
}

-- The slot `i` is the least free one of `b`, and `b'` is `b` with that slot taken.
pub record Takes (b : Bitmap) (i : ℕ) (b' : Bitmap) : Type 0 where
  pub inside : i < b.nbits
  pub free : bitmap_isset b i ≡ false
  pub least : (j : ℕ) → j < i → bitmap_isset b j ≡ true
  pub taken : (j : ℕ) → bitmap_isset b' j ≡ ((i == j) || bitmap_isset b j)
  pub same : b'.nbits ≡ b.nbits
  pub well : IsWell b'

-- From slot `n` on every slot is free.
abbrev pub FreeFrom : ℕ → Bitmap → Type 0
FreeFrom n b = (j : ℕ) → n ≤ j → j < b.nbits → bitmap_isset b j ≡ false

-- From `b` to `b'` the slots that are free from some number on lose one slot at most.
pub record Consumes (b b' : Bitmap) : Type 0 where
  pub frees : (n : ℕ) → FreeFrom n b → FreeFrom (n + 1) b'

pub Consumes-same : (b b' : Bitmap) → b' ≡ b → Consumes b b'
Consumes-same b b' e = record { frees = λ n free j a lt. ground (arith, e, free j) }

pub Takes-Consumes : (b : Bitmap) (i : ℕ) (b' : Bitmap) → Takes b i b' → Consumes b b'
Takes-Consumes b i b' t = record {
  frees = λ n free j a lt. ground (arith, t.taken j, t.same, t.inside, t.least n, free n, free j);
}

pub Consumes-ends : {a b c d : Bitmap} → b ≡ a → d ≡ c → Consumes b c → Consumes a d
Consumes-ends {d = d} e e' h = subst (λ x. Consumes x d) e (subst (Consumes _) (sym e') h)

abbrev pub IsFull : Bitmap → Type 0
IsFull b = (j : ℕ) → j < b.nbits → bitmap_isset b j ≡ true

abbrev pub Allocates : Bitmap → Option (Option ℕ × Bitmap) → Type 0
Allocates b r =
    (IsFull b × (r ≡ some (none, b)))
    ⊎ ((i : ℕ) × (b' : Bitmap) × Takes b i b' × (r ≡ some (some i, b')))

ones-isset : (b : Bitmap) (ix j : ℕ) → b.v ix ≡ 0xffffffff → j / 32 ≡ ix → bitmap_isset b j ≡ true
unfolding bitmap_isset
ones-isset b ix j e at = rw (at, e) (test_bit-ones 32 0xffffffff (j % 32) refl (omega arith))

module _ (b : Bitmap) (w : IsWell b) where
  word-Allocates :
      (n ix : ℕ)
      → ix < words_for b.nbits
      → ((j : ℕ) → j < ix * 32 → bitmap_isset b j ≡ true)
      → (b.v ix == 0xffffffff) ≡ false
      → Allocates b (alloc_from (suc n) ix b)
  unfolding alloc_from bitmap_isset
  word-Allocates n ix lt below part = elim (find_offset-first 32 0 (b.v ix)) [
    | inl (e, all) ↦ absurd (
        ground (
          arith,
          w.words ix,
          ones_of_test_bit 32 (b.v ix) (w.words ix) (λ k h. all k (omega arith) (omega arith)),
        ))
    | inr (f, e, lo, hi, clear, all) ↦
        let inside : ix * 32 + f < b.nbits = ground (arith, w.over ix f (omega arith) lt) in
        inr (
          ix * 32 + f,
          with_bit b ix f,
          record {
            inside = inside;
            free = ground (arith);
            least = λ j h. elim (Bool-cases (ltb j (ix * 32))) [
              | inl a ↦ below j (ground arith)
              | inr a ↦ ground (arith, all (j % 32))
            ];
            taken = λ j. with_bit-isset b ix f j (omega arith);
            same = refl;
            well = with_bit-IsWell b ix f (omega arith) w;
          },
          ground (arith, w.small),
        )
  ]

  alloc_from-Allocates :
      (n ix : ℕ)
      → ix + n ≡ words_for b.nbits
      → ((j : ℕ) → j < ix * 32 → bitmap_isset b j ≡ true)
      → Allocates b (alloc_from n ix b)
  unfolding alloc_from
  alloc_from-Allocates zero ix e below = inl ((λ j h. below j (omega (arith, w.small))), refl)
  alloc_from-Allocates (suc n) ix e below = elim (Bool-cases (b.v ix == 0xffffffff)) [
    | inl full ↦ rw full (
        alloc_from-Allocates n (ix + 1) (omega arith) λ j h. elim (Bool-cases (ltb j (ix * 32))) [
          | inl a ↦ below j (ground arith)
          | inr a ↦ ones-isset b ix j (ground arith) (ground arith)
        ])
    | inr part ↦ word-Allocates n ix (omega arith) below part
  ]

-- On a well-formed bitmap bitmap_alloc never fails an assertion. It reports a full bitmap exactly
-- when every slot is taken, and leaves it alone; otherwise it takes the least free slot, and no
-- other slot changes.
pub bitmap_alloc-Allocates : (b : Bitmap) → IsWell b → Allocates b (bitmap_alloc b)
unfolding bitmap_alloc
bitmap_alloc-Allocates b w =
    alloc_from-Allocates b w (words_for b.nbits) 0 (omega arith) (λ j h. absurd (omega arith))

-- The words of a new bitmap: all clear but for the last one, whose spare bits are marked.
abbrev marked : ℕ → ℕ → ℕ
marked nbits =
    let ix = words_for nbits - 1 in
    let overbits = nbits - ix * 32 in
    if ltb (nbits / 32) (words_for nbits)
    then put (λ i. 0) ix (mark_bits (32 - overbits) overbits 0)
    else (λ i. 0)

pub zero-test_bit : (k : ℕ) → test_bit 0 k ≡ false
zero-test_bit zero = refl
zero-test_bit (suc k) = zero-test_bit k

marked-test :
    (nbits i k : ℕ)
    → nbits + 31 < 2 ^ 32
    → k < 32
    → i < words_for nbits
    → test_bit (marked nbits i) k ≡ leb nbits (i * 32 + k)
marked-test nbits i k small hk hi =
    let ix = words_for nbits - 1 in
    let overbits = nbits - ix * 32 in
    ground (arith, zero-test_bit k, mark_bits-test (32 - overbits) overbits 0 k)

marked-lt : (nbits i : ℕ) → nbits + 31 < 2 ^ 32 → marked nbits i < 2 ^ 32
marked-lt nbits i small =
    let ix = words_for nbits - 1 in
    let overbits = nbits - ix * 32 in ground (arith, mark_bits-lt (32 - overbits) overbits 0)

-- The two assertions of bitmap_create.
spare_bits :
    (nbits : ℕ)
    → nbits + 31 < 2 ^ 32
    → ltb (nbits / 32) (words_for nbits) ≡ true
    → ((nbits / 32 == words_for nbits - 1)
        && (ltb 0 (nbits - (words_for nbits - 1) * 32)
            && ltb (nbits - (words_for nbits - 1) * 32) 32))
      ≡ true
spare_bits nbits small more =
    let a : nbits / 32 < words_for nbits = ltb→lt _ _ more in
    let b : (nbits / 32 == words_for nbits - 1) ≡ true = (==_iff _ _).1 (omega arith) in
    let c : ltb 0 (nbits - (words_for nbits - 1) * 32) ≡ true = lt→ltb _ _ (omega arith) in
    let d : ltb (nbits - (words_for nbits - 1) * 32) 32 ≡ true = lt→ltb _ _ (omega arith) in
    rw (b, c, d)

create-marked :
    (nbits : ℕ)
    → nbits + 31 < 2 ^ 32
    → bitmap_create true nbits ≡ some (some (record { nbits = nbits; v = marked nbits }))
unfolding bitmap_create
create-marked nbits small = elim (Bool-cases (ltb (nbits / 32) (words_for nbits))) [
  | inl more ↦ rw (more, spare_bits nbits small more)
  | inr exact ↦ rw exact
]

-- With memory to be had, and a size that fits an `unsigned` when it is rounded up, bitmap_create
-- gives a well-formed bitmap of that size with every slot free.
pub bitmap_create-IsWell :
    (nbits : ℕ)
    → nbits + 31 < 2 ^ 32
    → (b : Bitmap) × (bitmap_create true nbits ≡ some (some b))
      × (b.nbits ≡ nbits)
      × IsWell b
      × ((j : ℕ) → j < nbits → bitmap_isset b j ≡ false)
unfolding bitmap_isset
bitmap_create-IsWell nbits small = (
  record { nbits = nbits; v = marked nbits },
  create-marked nbits small,
  refl,
  record {
    small = small;
    words = λ i. marked-lt nbits i small;
    over = λ i k a c e. ground (arith, marked-test nbits i k small a c);
  },
  λ j h. ground (arith, marked-test nbits (j / 32) (j % 32) small),
)

-- bitmap_mark and bitmap_unmark change the one slot that they are called for, which must be inside
-- and free, or taken; called for any other slot they fail an assertion.
pub mark_unmark :
    (b : Bitmap) (i j : ℕ)
    → ((bitmap_mark b i ≡ none) × ((b.nbits ≤ i) ⊎ (bitmap_isset b i ≡ true))
        ⊎ ((b' : Bitmap) × (bitmap_mark b i ≡ some b')
            × (i < b.nbits)
            × (bitmap_isset b i ≡ false)
            × (bitmap_isset b' j ≡ ((i == j) || bitmap_isset b j))))
      × ((bitmap_unmark b i ≡ none) × ((b.nbits ≤ i) ⊎ (bitmap_isset b i ≡ false))
          ⊎ ((b' : Bitmap) × (bitmap_unmark b i ≡ some b')
              × (i < b.nbits)
              × (bitmap_isset b i ≡ true)
              × (bitmap_isset b' j ≡ (not (i == j) && bitmap_isset b j))))
unfolding bitmap_mark bitmap_unmark bitmap_isset
mark_unmark b i j = elim (Bool-cases (test_bit (b.v (i / 32)) (i % 32))) [
  | inl set ↦ elim (Bool-cases (ltb i b.nbits)) [
    | inl a ↦ (
      inl (rw (a, set), inr set),
      inr (
        record b { v = put b.v (i / 32) (clear_bit (b.v (i / 32)) (i % 32)) },
        rw (a, set),
        ground arith,
        set,
        ground (arith, test_bit-clear_bit (b.v (i / 32)) (i % 32) (j % 32)),
      ),
    )
    | inr a ↦ (inl (rw a, inl (ground arith)), inl (rw a, inl (ground arith)))
  ]
  | inr clear ↦ elim (Bool-cases (ltb i b.nbits)) [
    | inl a ↦ (
      inr (
        record b { v = put b.v (i / 32) (set_bit (b.v (i / 32)) (i % 32)) },
        rw (a, clear),
        ground arith,
        clear,
        ground (arith, test_bit-set_bit (b.v (i / 32)) (i % 32) (j % 32)),
      ),
      inl (rw (a, clear), inr clear),
    )
    | inr a ↦ (inl (rw a, inl (ground arith)), inl (rw a, inl (ground arith)))
  ]
]
