-- ===== src/Base/Words.antt =====
-- `&` works on the bytes of a word, each for itself.
use Prim.Native.Nat.{
  ℕ, zero, suc, ◌+◌, ◌*◌, ◌/◌, ◌%◌, ◌≤◌, ◌<◌, min, digits, bit_and, bit_and-bitwise,
}
use mathlib.Core.Path.{◌≡◌, refl, ap, sym, ◌∙◌}
use mathlib.Core.Logic.{◌⊎◌, inl, inr}
use native.Mathlib.Omega.{arith}

abbrev common : ℕ → ℕ → ℕ → ℕ
common n a b = digits (λ t. zero) min n a b

-- The count of digits may be larger than the number.
common-suc : (n a b : ℕ) → a ≤ n → common (suc n) a b ≡ common n a b
common-suc zero zero b h = refl
common-suc zero (suc a) b h = absurd (omega arith)
common-suc (suc n) zero b h = refl
common-suc (suc n) (suc a) b h = omega (arith, common-suc n (suc a / 2) (b / 2) (omega arith))

common_enough : (n a b : ℕ) → a ≤ n → common n a b ≡ common a a b
common_enough zero zero b h = refl
common_enough zero (suc a) b h = absurd (omega arith)
common_enough (suc n) a b h = elim (at_most n a h) [
  | inl less ↦ common-suc n a b less ∙ common_enough n a b less
  | inr same ↦ ap (λ m. common m a b) (sym same)
]
  where
    at_most : (n a : ℕ) → a ≤ suc n → (a ≤ n) ⊎ (a ≡ suc n)
    at_most n a h = omega arith

-- The lowest digit, and the others.
common-step : (a b : ℕ) → common a a b ≡ common (a / 2) (a / 2) (b / 2) * 2 + min (a % 2) (b % 2)
common-step zero b = omega arith
common-step (suc a) b = omega (arith, common_enough a (suc a / 2) (b / 2) (omega arith))

bit_and-step : (a b : ℕ) → bit_and a b ≡ bit_and (a / 2) (b / 2) * 2 + min (a % 2) (b % 2)
bit_and-step a b = simp bit_and-bitwise (common-step a b)

-- `b * 2 ^ k`
shift : ℕ → ℕ → ℕ
shift zero b = b
shift (suc k) b = 2 * shift k b

bit_and-shift :
    (k a b c d : ℕ)
    → a < shift k 1
    → c < shift k 1
    → bit_and (a + shift k b) (c + shift k d) ≡ bit_and a c + shift k (bit_and b d)
unfolding shift
bit_and-shift zero zero b zero d ha hc =
    let left : 0 + b ≡ b = omega arith in
    let right : 0 + d ≡ d = omega arith in rw (left, right) (omega (arith, bit_and-step 0 0))
bit_and-shift zero zero b (suc c) d ha hc = absurd (omega arith)
bit_and-shift zero (suc a) b c d ha hc = absurd (omega arith)
bit_and-shift (suc k) a b c d ha hc =
    let halves = bit_and-shift k (a / 2) b (c / 2) d (omega arith) (omega arith) in
    let left : (a + 2 * shift k b) / 2 ≡ a / 2 + shift k b = omega arith in
    let right : (c + 2 * shift k d) / 2 ≡ c / 2 + shift k d = omega arith in
    let step = bit_and-step (a + 2 * shift k b) (c + 2 * shift k d) in
    omega (arith, halves, rw (left, right) at step, bit_and-step a c)

pub bit_and-byte :
    (a b c d : ℕ)
    → a < 256
    → c < 256
    → bit_and (a + 256 * b) (c + 256 * d) ≡ bit_and a c + 256 * bit_and b d
unfolding shift
bit_and-byte a b c d ha hc =
    let left : shift 8 b ≡ 256 * b = omega arith in
    let right : shift 8 d ≡ 256 * d = omega arith in
    let both : shift 8 (bit_and b d) ≡ 256 * bit_and b d = omega arith in
    let shifted = bit_and-shift 8 a b c d (omega arith) (omega arith) in
    rw (left, right, both) at shifted

-- `k` ones
ones : ℕ → ℕ
ones zero = 0
ones (suc k) = 1 + 2 * ones k

bit_and-ones : (k a : ℕ) → a < shift k 1 → bit_and a (ones k) ≡ a
unfolding shift ones
bit_and-ones zero zero h = omega (arith, bit_and-step 0 0)
bit_and-ones zero (suc a) h = absurd (omega arith)
bit_and-ones (suc k) a h =
    let half : (1 + 2 * ones k) / 2 ≡ ones k = omega arith in
    let step = bit_and-step a (1 + 2 * ones k) in
    omega (arith, bit_and-ones k (a / 2) (omega arith), rw half at step)

pub bit_and-full : (a : ℕ) → a < 256 → bit_and a 255 ≡ a
unfolding ones shift
bit_and-full a h = bit_and-ones 8 a (omega arith)
