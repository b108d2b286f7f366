-- ===== src/Word/Laws.antt =====
-- Laws of the bit operations, for every position.
use native.Mathlib.Nat.{pow-suc}
use kernel_programming_proje.Base.{
  ℕ, zero, suc, ◌+◌, ◌*◌, ◌/◌, ◌%◌, ◌^◌, ◌<◌, ◌≡◌, true, not, ◌&&◌, ◌||◌, arith, ◌==◌,
}
use kernel_programming_proje.Word.{test_bit, set_bit, clear_bit}

halve_pair : (a b : ℕ) → b < 2 → (a * 2 + b) / 2 ≡ a
halve_pair a b h = omega arith

pub test_bit-set_bit : (w k j : ℕ) → test_bit (set_bit w k) j ≡ ((k == j) || test_bit w j)
test_bit-set_bit w zero zero = ground arith
test_bit-set_bit w zero (suc j) = rw (halve_pair (w / 2) 1 (omega arith)) (ground arith)
test_bit-set_bit w (suc k) zero = ground arith
test_bit-set_bit w (suc k) (suc j) =
    rw (halve_pair (set_bit (w / 2) k) (w % 2) (omega arith))
      (ground (arith, test_bit-set_bit (w / 2) k j))

pub test_bit-clear_bit : (w k j : ℕ) → test_bit (clear_bit w k) j ≡ (not (k == j) && test_bit w j)
test_bit-clear_bit w zero zero = ground arith
test_bit-clear_bit w zero (suc j) = ground arith
test_bit-clear_bit w (suc k) zero = ground arith
test_bit-clear_bit w (suc k) (suc j) =
    rw (halve_pair (clear_bit (w / 2) k) (w % 2) (omega arith))
      (ground (arith, test_bit-clear_bit (w / 2) k j))

pub set_bit-lt : (n w k : ℕ) → k < n → w < 2 ^ n → set_bit w k < 2 ^ n
set_bit-lt zero w k h b = absurd (omega arith)
set_bit-lt (suc n) w zero h b = omega (arith, pow-suc 2 n)
set_bit-lt (suc n) w (suc k) h b = omega (arith, pow-suc 2 n, set_bit-lt n (w / 2) k)

pub clear_bit-le : (w k : ℕ) → clear_bit w k < suc w
clear_bit-le w zero = omega arith
clear_bit-le w (suc k) = omega (arith, clear_bit-le (w / 2) k)

-- A word is all ones exactly if each of its bits is set.
pub test_bit-ones : (n w k : ℕ) → w + 1 ≡ 2 ^ n → k < n → test_bit w k ≡ true
test_bit-ones zero w k e h = absurd (omega arith)
test_bit-ones (suc n) w zero e h = ground (arith, pow-suc 2 n)
test_bit-ones (suc n) w (suc k) e h =
    test_bit-ones n (w / 2) k (omega (arith, pow-suc 2 n)) (omega arith)

pub ones_of_test_bit :
    (n w : ℕ) → w < 2 ^ n → ((k : ℕ) → k < n → test_bit w k ≡ true) → w + 1 ≡ 2 ^ n
ones_of_test_bit zero w b all = omega arith
ones_of_test_bit (suc n) w b all =
    let low : w % 2 ≡ 1 = ground (arith, all 0 (omega arith)) in
    omega (
      arith,
      pow-suc 2 n,
      low,
      ones_of_test_bit n (w / 2) (omega (arith, pow-suc 2 n)) (λ k h. all (suc k) (omega arith)),
    )
