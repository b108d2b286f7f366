-- ===== src/Ext2/Cp/Space.antt =====
-- have_enough_blocks of ext2_cp.c against the number of blocks that a file takes.
use kernel_programming_proje.Base.{
  ℕ, ◌+◌, ◌-◌, ◌*◌, ◌/◌, ◌%◌, ◌^◌, ◌≤◌, ◌<◌, ◌≡◌, true, ltb, ◌==◌, if◌then◌else◌, arith, inl, inr,
  Bool-cases,
}
use kernel_programming_proje.Ext2.Disk.{Disk}
use kernel_programming_proje.Ext2.Cp.{up, num_blocks_needed, have_enough_blocks}

-- The blocks with the data of a file, of `n` bytes.
abbrev pub data_blocks : ℕ → ℕ
data_blocks n = up n 1024

-- The blocks of pointers for `k` blocks of data: one for those behind the twelfth; for those behind
-- the 268th one, with one for every 256; and for those behind the 65804th one, with one for every
-- 65536 and one for every 256.
abbrev pub pointer_blocks : ℕ → ℕ
pointer_blocks k =
    (if ltb 12 k then 1 else 0)
    + (if ltb 268 k then 1 + (if ltb 65804 k then 256 else up (k - 268) 256) else 0)
    + (if ltb 65804 k then 1 + up (k - 65804) 65536 + up (k - 65804) 256 else 0)

needed-direct : (n : ℕ) → n < 12 * 1024 → data_blocks n + pointer_blocks (data_blocks n) ≤ up n 1024
needed-direct n lt = ground arith

needed-indirect :
    (n : ℕ)
    → 12 * 1024 ≤ n
    → n < 268 * 1024
    → data_blocks n + pointer_blocks (data_blocks n) ≤ 13 + up (n - 12 * 1024) 1024
needed-indirect n le lt = ground arith

needed-double :
    (n : ℕ)
    → 268 * 1024 ≤ n
    → n < 65804 * 1024
    → data_blocks n + pointer_blocks (data_blocks n)
      ≤ 14
        + 256
        + (up (up (n - 12 * 1024 - 256 * 1024) 1024) 256 + up (n - 12 * 1024 - 256 * 1024) 1024)
needed-double n le lt = ground arith

-- What the last case takes from the size is less than the 65804 blocks before it.
triple-le :
    (n : ℕ)
    → 65804 * 1024 ≤ n
    → up n 1024 - 65804 + 255
      ≤ (n - 12 * 1024 - 256 * 1024 / 1024 - 256 ^ 2 * 1024) / 1024
        + (if (n - 12 * 1024 - 256 * 1024 - 256 ^ 2 * 1024) % 1024 == 0 then 0 else 1)
triple-le n le = ground arith

pointers-le :
    (r e : ℕ) → r + 255 ≤ e → r + (1 + up r 65536 + up r 256) ≤ 1 + (up e 256 + e + up e 256 / 256)
pointers-le r e le = ground arith

needed-triple :
    (n e : ℕ)
    → 65804 * 1024 ≤ n
    → up n 1024 - 65804 + 255 ≤ e
    → data_blocks n + pointer_blocks (data_blocks n)
      ≤ 15 + 2 * 256 + 256 ^ 2 + (up e 256 + e + up e 256 / 256)
needed-triple n e le enough = ground (arith, pointers-le (up n 1024 - 65804) e)

round_up-le :
    (x e : ℕ)
    → x ≤ 15 + 2 * 256 + 256 ^ 2 + (up e 256 + e + up e 256 / 256)
    → x
      ≤ 15
        + 2 * 256
        + 256 ^ 2
        + (up e 256 + e + (up e 256 / 256 + (if up e 256 / 256 % 256 == 0 then 0 else 1)))
round_up-le x e le = ground arith

needed-le : (n : ℕ) → data_blocks n + pointer_blocks (data_blocks n) ≤ num_blocks_needed n
unfolding num_blocks_needed
needed-le n = elim (Bool-cases (ltb n (12 * 1024))) [
  | inl direct ↦ rw (num_blocks_needed, direct) (needed-direct n (ground arith))
  | inr d1 ↦ elim (Bool-cases (ltb n (268 * 1024))) [
    | inl indirect ↦
        rw (num_blocks_needed, d1, indirect) (needed-indirect n (ground arith) (ground arith))
    | inr d2 ↦ elim (Bool-cases (ltb n (65804 * 1024))) [
      | inl double ↦
          rw (num_blocks_needed, d1, d2, double) (needed-double n (ground arith) (ground arith))
      | inr triple ↦
          let e : ℕ =
            (n - 12 * 1024 - 256 * 1024 / 1024 - 256 ^ 2 * 1024) / 1024
            + (if (n - 12 * 1024 - 256 * 1024 - 256 ^ 2 * 1024) % 1024 == 0 then 0 else 1) in
          let far : 65804 * 1024 ≤ n = ground arith in
          rw (num_blocks_needed, d1, d2, triple)
            (round_up-le (data_blocks n + pointer_blocks (data_blocks n)) e
              (needed-triple n e far (triple-le n far)))
    ]
  ]
]

-- If have_enough_blocks returns 1 for a size, the group has at least as many free blocks as the data
-- and the pointers of a file of this size take.
pub have_enough_blocks-le :
    (d : Disk) (n : ℕ)
    → have_enough_blocks d n ≡ true
    → data_blocks n + pointer_blocks (data_blocks n) ≤ d.image.blocks.bg_free_count
unfolding have_enough_blocks
have_enough_blocks-le d n enough = ground (arith, needed-le n)
