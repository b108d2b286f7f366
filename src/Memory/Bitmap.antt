-- ===== src/Memory/Bitmap.antt =====
-- swap.c, lines 11 to 142: the bitmap of the swap file's slots. A function returns `none` where an
-- assertion of the C code fails. `unsigned` arithmetic wraps at 2 ^ 32; `malloc` succeeds or not by
-- the parameter `memory`.
pub mod Laws
pub mod Refine
use kernel_programming_proje.Base.{
  ℕ, zero, suc, ◌+◌, ◌-◌, ◌*◌, ◌/◌, ◌%◌, ◌^◌, Bool, true, false, not, ◌&&◌, Option, none, some, ltb,
  ◌==◌, if◌then◌else◌, put,
}
use kernel_programming_proje.Word.{test_bit, set_bit, clear_bit}

abbrev pub bits_per_word : ℕ
bits_per_word = 32

abbrev pub word_allbits : ℕ
word_allbits = 0xffffffff

-- DIVROUNDUP(a, BITS_PER_WORD).
abbrev pub words_for : ℕ → ℕ
words_for a = (a + bits_per_word - 1) % 2 ^ 32 / bits_per_word

pub record Bitmap : Type 0 where
  pub nbits : ℕ
  pub v : ℕ → ℕ

-- `for (j = overbits; j < BITS_PER_WORD; j++) b->v[ix] |= 1 << j`, for the `n` bits from `j` on.
abbrev pub mark_bits : ℕ → ℕ → ℕ → ℕ
mark_bits zero j w = w
mark_bits (suc n) j w = mark_bits n (j + 1) (set_bit w j)

-- `none` outside is a failed assertion, and inside a NULL result.
unfoldable pub bitmap_create : Bool → ℕ → Option (Option Bitmap)
bitmap_create memory nbits =
    let words = words_for nbits in
    let b : Bitmap = record { nbits = nbits; v = λ i. 0 } in
    let ix = words - 1 in
    let overbits = nbits - ix * bits_per_word in
    if not memory
    then some none
    else if ltb (nbits / bits_per_word) words
    then (if (nbits / bits_per_word == words - 1) && (ltb 0 overbits && ltb overbits bits_per_word)
        then some (
            some (record b {
              v = put b.v ix (mark_bits (bits_per_word - overbits) overbits (b.v ix));
            }))
        else none)
    else some (some b)

-- The inner loop of bitmap_alloc, for the `n` bits of the word from `offset` on.
unfoldable pub find_offset : ℕ → ℕ → ℕ → Option ℕ
find_offset zero offset w = none
find_offset (suc n) offset w =
    if test_bit w offset then find_offset n (offset + 1) w else some offset

-- The outer loop, for the `n` words from `ix` on: the index of the bit that is now marked, or `none`
-- where the C function returns 1.
unfoldable pub alloc_from : ℕ → ℕ → Bitmap → Option (Option ℕ × Bitmap)
alloc_from zero ix b = some (none, b)
alloc_from (suc n) ix b =
    let rest = alloc_from n (ix + 1) b in
    if b.v ix == word_allbits then rest else elim (find_offset bits_per_word 0 (b.v ix)) [
      | none ↦ none
      | some offset ↦
          let index = (ix * bits_per_word + offset) % 2 ^ 32 in
          if ltb index b.nbits
          then some (some index, record b { v = put b.v ix (set_bit (b.v ix) offset) })
          else none
    ]

unfoldable pub bitmap_alloc : Bitmap → Option (Option ℕ × Bitmap)
unfolding alloc_from
bitmap_alloc b = alloc_from (words_for b.nbits) 0 b

-- bitmap_translate gives the word and the position in it.
abbrev pub word_of : ℕ → ℕ
word_of bitno = bitno / bits_per_word

abbrev pub offset_of : ℕ → ℕ
offset_of bitno = bitno % bits_per_word

unfoldable pub bitmap_isset : Bitmap → ℕ → Bool
bitmap_isset b index = test_bit (b.v (word_of index)) (offset_of index)

unfoldable pub bitmap_mark : Bitmap → ℕ → Option Bitmap
bitmap_mark b index =
    let ix = word_of index in
    if ltb index b.nbits && not (test_bit (b.v ix) (offset_of index))
    then some (record b { v = put b.v ix (set_bit (b.v ix) (offset_of index)) })
    else none

unfoldable pub bitmap_unmark : Bitmap → ℕ → Option Bitmap
bitmap_unmark b index =
    let ix = word_of index in
    if ltb index b.nbits && test_bit (b.v ix) (offset_of index)
    then some (record b { v = put b.v ix (clear_bit (b.v ix) (offset_of index)) })
    else none
