-- ===== src/Base/Bits.antt =====
-- `GetBit`, `SetBit` and `ClearBit` of `kern/include/types.h`, and what the binary operations of C do
-- digit by digit.
use Prim.Native.Nat.{
  ℕ, zero, suc, ◌+◌, ◌-◌, ◌*◌, ◌/◌, ◌%◌, ◌^◌, ◌≤◌, min, max, bit_and, bit_or, digits, bitwise,
  bit_and-bitwise, bit_or-bitwise,
}
use mathlib.Core.Path.{◌≡◌, refl, sym, ◌∙◌}
use native.Mathlib.Omega.{arith}

unfoldable pub get_bit : ℕ → ℕ → ℕ
get_bit num pos = num / 2 ^ pos % 2

unfoldable pub set_bit : ℕ → ℕ → ℕ
set_bit num pos = bit_or num (2 ^ pos)

-- `~(1 << pos)` in 32 bits.
unfoldable pub clear_bit : ℕ → ℕ → ℕ
clear_bit num pos = bit_and num (2 ^ 32 - 1 - 2 ^ pos)

module _ (z : ℕ → ℕ) (f : ℕ → ℕ → ℕ) where
  zero_digits : (n b : ℕ) → digits z f n 0 b ≡ z b
  zero_digits zero b = refl
  zero_digits (suc n) b = refl

  -- The count of digits does not matter, once it is large enough.
  count_free :
      (count less num other : ℕ)
      → num ≤ less
      → num ≤ count
      → digits z f count num other ≡ digits z f less num other
  count_free count less zero other p q = zero_digits count other ∙ sym (zero_digits less other)
  count_free zero less (suc num) other p q = absurd (omega arith)
  count_free (suc count) zero (suc num) other p q = absurd (omega arith)
  count_free (suc count) (suc less) (suc num) other p q =
      let halves = count_free count less (suc num / 2) (other / 2) (omega arith) (omega arith) in
      rw halves refl

  -- The lowest digits, and the operation on the halves.
  bitwise_step :
      ((b : ℕ) → z b ≡ z (b / 2) * 2 + f 0 (b % 2))
      → (num other : ℕ)
      → bitwise z f num other ≡ bitwise z f (num / 2) (other / 2) * 2 + f (num % 2) (other % 2)
  bitwise_step low zero other = low other
  bitwise_step low (suc num) other =
      rw (count_free num (suc num / 2) (suc num / 2) (other / 2) (omega arith) (omega arith)) refl

bit_and_step : (a b : ℕ) → bit_and a b ≡ bit_and (a / 2) (b / 2) * 2 + min (a % 2) (b % 2)
bit_and_step a b =
    let low = bitwise_step (λ b. zero) min (λ b. omega arith) a b in
    rw (bit_and-bitwise a b, bit_and-bitwise (a / 2) (b / 2)) low

pub bit_or_step : (a b : ℕ) → bit_or a b ≡ bit_or (a / 2) (b / 2) * 2 + max (a % 2) (b % 2)
bit_or_step a b =
    let low = bitwise_step (λ b. b) max (λ b. omega arith) a b in
    rw (bit_or-bitwise a b, bit_or-bitwise (a / 2) (b / 2)) low

-- The two flags of a page: bit 0 says reserved, bit 1 that the page heads a free block.
pub get_bit-set_bit_one :
    (n : ℕ) → (get_bit (set_bit n 1) 1 ≡ 1) × (get_bit (set_bit n 1) 0 ≡ get_bit n 0)
unfolding get_bit set_bit
get_bit-set_bit_one n =
    let s = bit_or_step n 2 in let t = bit_or_step (n / 2) 1 in (omega arith, omega arith)

pub get_bit-clear_bit_one :
    (n : ℕ) → (get_bit (clear_bit n 1) 1 ≡ 0) × (get_bit (clear_bit n 1) 0 ≡ get_bit n 0)
unfolding get_bit clear_bit
get_bit-clear_bit_one n =
    let s = bit_and_step n 4294967293 in
    let t = bit_and_step (n / 2) 2147483646 in (omega arith, omega arith)
