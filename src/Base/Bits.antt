-- ===== src/Base/Bits.antt =====
-- Bounds of the native bit operations, from the recursion on binary digits that they stand for.
use Prim.Native.Nat.{
  ℕ, zero, suc, ◌*◌, ◌/◌, ◌^◌, ◌≤◌, ◌<◌, min, max, digits, bit_and, bit_or, bit_and-bitwise,
  bit_or-bitwise,
}
use mathlib.Core.Path.{◌≡◌}
use native.Mathlib.Nat.{pow-suc}
use native.Mathlib.Omega.{arith}

digits_or-lt : (n k a b : ℕ) → a < 2 ^ k → b < 2 ^ k → digits (λ t. t) max n a b < 2 ^ k
digits_or-lt zero k a b ha hb = hb
digits_or-lt (suc n) k zero b ha hb = hb
digits_or-lt (suc n) zero (suc a) b ha hb = absurd (omega arith)
digits_or-lt (suc n) (suc k) (suc a) b ha hb =
    let double : 2 ^ suc k ≡ 2 * 2 ^ k = omega (arith, pow-suc 2 k) in
    let higher : digits (λ t. t) max n (suc a / 2) (b / 2) < 2 ^ k =
      digits_or-lt n k (suc a / 2) (b / 2) (omega arith) (omega arith) in
    omega arith

-- `|` of two words is a word.
pub bit_or-lt : (k a b : ℕ) → a < 2 ^ k → b < 2 ^ k → bit_or a b < 2 ^ k
bit_or-lt k a b ha hb = simp bit_or-bitwise (digits_or-lt a k a b ha hb)

digits_and-le : (n a b : ℕ) → digits (λ t. zero) min n a b ≤ b
digits_and-le zero a b = omega arith
digits_and-le (suc n) zero b = omega arith
digits_and-le (suc n) (suc a) b = omega (arith, digits_and-le n (suc a / 2) (b / 2))

-- `&` with a mask is at most the mask.
pub bit_and-le : (a b : ℕ) → bit_and a b ≤ b
bit_and-le a b = simp bit_and-bitwise (digits_and-le a a b)
