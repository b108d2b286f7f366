-- ===== src/Memory/Swap.antt =====
-- swap.c, lines 181 to 256: moving pages between the simulated memory and the swap file.
use kernel_programming_proje.Base.{
  ℕ, ◌-◌, ◌*◌, ◌%◌, ◌^◌, Bool, true, false, none, some, ℤ, pos, negsuc, ltb, ◌==◌, if◌then◌else◌,
  put,
}
use kernel_programming_proje.Memory.Bitmap.{bitmap_alloc}
use kernel_programming_proje.Memory.State.{Device, page, code, M, when◌then◌else◌}

-- INVALID_SWAP.
abbrev pub invalid_swap : ℤ
invalid_swap = negsuc 0

abbrev pub is_invalid : ℤ → Bool
is_invalid (pos n) = false
is_invalid (negsuc n) = n == 0

-- An `unsigned` stored into an `int`.
abbrev pub to_int : ℕ → ℤ
to_int w = if ltb w (2 ^ 31) then pos w else negsuc (2 ^ 32 - 1 - w)

abbrev pub simpagesize : ℕ
simpagesize = 16

module _ {F A : Type 0} (dev : Device F) where
  -- 0 on success; the assertion on the offset comes first.
  unfoldable pub swap_pagein : ℕ → ℤ → M F A ℤ
  swap_pagein frame offset s = if is_invalid offset then none else elim (dev.read s.file offset) [
    | code n ↦ some (n, s)
    | page c ↦ some (pos 0, record s { physmem = put s.physmem frame c })
  ]

  -- The write of swap_pageout, at an offset that is known.
  abbrev pub write_page : ℕ → ℤ → M F A ℤ
  write_page frame offset s =
      if is_invalid offset then none else elim (dev.write s.file offset (s.physmem frame)) [
        | none ↦ some (invalid_swap, s)
        | some file ↦ some (offset, record s { file = file })
      ]

  unfoldable pub swap_pageout : ℕ → ℤ → M F A ℤ
  swap_pageout frame offset s = elim (is_invalid offset) [
    | false ↦ write_page frame offset s
    | true ↦ elim (bitmap_alloc s.swapmap) [
      | none ↦ none
      | some (none, map) ↦ some (invalid_swap, record s { swapmap = map })
      | some (some idx, map) ↦
          write_page frame (to_int (idx * simpagesize % 2 ^ 32)) (record s { swapmap = map })
    ]
  ]
