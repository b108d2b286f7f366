-- ===== src/Memory/Bitmap/Laws.antt =====
-- What the loops of swap.c's bitmap compute, and when a bitmap is well formed.
use kernel_programming_proje.Base.{
  ℕ, zero, suc, ◌+◌, ◌*◌, ◌^◌, ◌≤◌, ◌<◌, ◌≡◌, refl, true, false, ◌&&◌, ◌||◌, none, some, ltb, leb,
  ◌==◌, arith, ◌⊎◌, inl, inr, Bool-cases,
}
use kernel_programming_proje.Word.{test_bit, set_bit}
use kernel_programming_proje.Word.Laws.{test_bit-set_bit, set_bit-lt}
use kernel_programming_proje.Memory.Bitmap.{Bitmap, mark_bits, find_offset, words_for}

-- The words are 32 bits wide, and every bit past the last slot is set.
pub record IsWell (b : Bitmap) : Type 0 where
  pub small : b.nbits + 31 < 2 ^ 32
  pub words : (i : ℕ) → b.v i < 2 ^ 32
  pub over :
      (i k : ℕ) → k < 32 → i < words_for b.nbits → b.nbits ≤ i * 32 + k → test_bit (b.v i) k ≡ true

pub mark_bits-test :
    (n j w k : ℕ) → test_bit (mark_bits n j w) k ≡ (leb j k && ltb k (j + n) || test_bit w k)
mark_bits-test zero j w k = ground arith
mark_bits-test (suc n) j w k =
    ground (arith, mark_bits-test n (j + 1) (set_bit w j) k, test_bit-set_bit w j k)

pub mark_bits-lt : (n j w : ℕ) → j + n ≤ 32 → w < 2 ^ 32 → mark_bits n j w < 2 ^ 32
mark_bits-lt zero j w h b = b
mark_bits-lt (suc n) j w h b =
    mark_bits-lt n (j + 1) (set_bit w j) (omega arith) (set_bit-lt 32 w j (omega arith) b)

-- The inner loop finds the first clear bit, if there is one.
pub find_offset-first :
    (n o w : ℕ)
    → ((find_offset n o w ≡ none) × ((k : ℕ) → o ≤ k → k < o + n → test_bit w k ≡ true))
      ⊎ ((f : ℕ) × (find_offset n o w ≡ some f)
          × (o ≤ f)
          × (f < o + n)
          × (test_bit w f ≡ false)
          × ((k : ℕ) → o ≤ k → k < f → test_bit w k ≡ true))
unfolding find_offset
find_offset-first zero o w = inl (refl, λ k a b. absurd (omega arith))
find_offset-first (suc n) o w = elim (Bool-cases (test_bit w o)) [
  | inr clear ↦ inr (o, rw clear, omega arith, omega arith, clear, λ k a b. absurd (omega arith))
  | inl set ↦ elim (find_offset-first n (o + 1) w) [
    | inl (e, all) ↦ inl (
      rw set e,
      λ k a b. elim (Bool-cases (o == k)) [
        | inl here ↦ ground arith
        | inr later ↦ all k (ground arith) (omega arith)
      ],
    )
    | inr (f, e, lo, hi, clear, all) ↦ inr (
      f,
      rw set e,
      omega arith,
      omega arith,
      clear,
      λ k a b. elim (Bool-cases (o == k)) [
        | inl here ↦ ground arith
        | inr later ↦ all k (ground arith) b
      ],
    )
  ]
]
