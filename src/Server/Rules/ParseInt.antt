-- ===== src/Server/Rules/ParseInt.antt =====
-- `strconv.ParseInt(text, 10, 64)`: an optional sign, decimal digits, and the range of an int64.
use wgxdp.Base.{
  ℕ, ◌+◌, ◌-◌, ◌*◌, ◌^◌, String, Option, none, some, List, [], ◌∷◌, ltb, leb, ◌==◌, nat_eq, Bool,
  true, false, if◌then◌else◌,
}
use wgxdp.Base.Int.{ℤ, pos, negsuc}
use wgxdp.Base.Text.{codes}
use wgxdp.Net.Parse.{is_digit}

digits_value : ℕ → List ℕ → Option ℕ
digits_value n [] = some n
digits_value n (c ∷ s) =
    let rest = digits_value (n * 10 + (c - b'0')) s in if is_digit c then rest else none

magnitude : List ℕ → Option ℕ
unfolding digits_value
magnitude [] = none
magnitude (c ∷ s) = digits_value 0 (c ∷ s)

-- The number -n, for n up to 2 ^ 63.
negated : ℕ → ℤ
negated n = if n == 0 then pos 0 else negsuc (n - 1)

in_range : Bool → ℕ → Option ℤ
unfolding negated
in_range true n = if leb n (2 ^ 63) then some (negated n) else none
in_range false n = if ltb n (2 ^ 63) then some (pos n) else none

signed : Bool → List ℕ → Option ℤ
unfolding magnitude in_range
signed negative s = elim (magnitude s) [ none ↦ none | some n ↦ in_range negative n ]

parse_bytes : List ℕ → Option ℤ
unfolding signed
parse_bytes [] = none
parse_bytes (c ∷ s) =
    if c == b'-' then signed true s else if c == b'+' then signed false s else signed false (c ∷ s)

unfoldable pub parse_int : String → Option ℤ
unfolding parse_bytes
parse_int text = parse_bytes (codes text)
