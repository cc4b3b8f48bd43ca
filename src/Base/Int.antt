-- ===== src/Base/Int.antt =====
-- Go's signed integers: the sign written out, and the conversions to unsigned words.
use Prim.Native.Nat.{ℕ, ◌-◌, ◌%◌, ◌^◌, ◌<◌}
use mathlib.Core.Path.{◌≡◌}
use mathlib.Core.Logic.{◌↔◌}
use mathlib.Core.Bool.{Bool, true, false}
use native.Mathlib.Omega.{arith}
use wgxdp.Base.Equality.{Eq, ◌==◌, nat_eq}

-- `negsuc n` is -(n + 1).
pub data ℤ : Type 0 where
  pos negsuc : ℕ → ℤ

abbrev pub int_beq : ℤ → ℤ → Bool
int_beq (pos a) (pos b) = a == b
int_beq (negsuc a) (negsuc b) = a == b
int_beq _ _ = false

pub int_beq_iff : (a b : ℤ) → (int_beq a b ≡ true) ↔ (a ≡ b)
int_beq_iff (pos a) (pos b) = ground arith
int_beq_iff (pos a) (negsuc b) = ground arith
int_beq_iff (negsuc a) (pos b) = ground arith
int_beq_iff (negsuc a) (negsuc b) = ground arith

instance abbrev pub int_eq : Eq ℤ
int_eq = record { equals = int_beq; decides = int_beq_iff }

-- `uintN(x)`: the low bits of the two's complement, `w` being 2 ^ N.
wrap : ℕ → ℤ → ℕ
wrap w (pos n) = n % w
wrap w (negsuc n) = w - 1 - n % w

unfoldable pub to_uint8 : ℤ → ℕ
unfolding wrap
to_uint8 z = wrap (2 ^ 8) z

unfoldable pub to_uint16 : ℤ → ℕ
unfolding wrap
to_uint16 z = wrap (2 ^ 16) z

pub to_uint8-lt : (z : ℤ) → to_uint8 z < 2 ^ 8
unfolding to_uint8
to_uint8-lt (pos n) = omega arith
to_uint8-lt (negsuc n) = omega arith

pub to_uint16-lt : (z : ℤ) → to_uint16 z < 2 ^ 16
unfolding to_uint16
to_uint16-lt (pos n) = omega arith
to_uint16-lt (negsuc n) = omega arith
