-- ===== src/Word.antt =====
-- Bits of an `unsigned` word w, a native number: `(w >> k) & 1`, `w | (1 << k)` and `w & ~(1 << k)`,
-- by recursion on the bit's position. The programs use them for the status bits of a page table
-- entry, for the words of the swap map and for the bytes of the ext2 bitmaps.
pub mod Laws
use kernel_programming_proje.Base.{ℕ, zero, suc, ◌+◌, ◌*◌, ◌/◌, ◌%◌, Bool, ◌==◌}

abbrev pub test_bit : ℕ → ℕ → Bool
test_bit w zero = w % 2 == 1
test_bit w (suc k) = test_bit (w / 2) k

abbrev pub set_bit : ℕ → ℕ → ℕ
set_bit w zero = w / 2 * 2 + 1
set_bit w (suc k) = set_bit (w / 2) k * 2 + w % 2

abbrev pub clear_bit : ℕ → ℕ → ℕ
clear_bit w zero = w / 2 * 2
clear_bit w (suc k) = clear_bit (w / 2) k * 2 + w % 2
