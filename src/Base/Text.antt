-- ===== src/Base/Text.antt =====
-- Texts as bytes, and decimal numerals (`%d`, and the fields of `net.IP.String`).
use Prim.Native.Nat.{ℕ, zero, suc, ◌+◌, ◌-◌, ◌/◌, ◌%◌}
use Prim.Native.Char.{code}
use Prim.Native.String.append
use Prim.Native.String.{String, ◌++◌ as ◌<>◌, slice}
use mathlib.Core.Path.{◌≡◌, refl, ap}
use mathlib.Core.Bool.{Bool, true, false, ◌&&◌, ◌||◌}
use mathlib.Core.List.{List, [], ◌∷◌, ◌++◌}
use wgxdp.Base.Tests.{ltb, leb, if◌then◌else◌}

-- The bytes of an ASCII text.
abbrev pub codes : String → List ℕ
codes String.[] = []
codes (String.◌∷◌ c s) = code c ∷ codes s

pub codes-append : (s t : String) → codes (s <> t) ≡ codes s ++ codes t
codes-append String.[] t = rw append.nil
codes-append (String.◌∷◌ c s) t = rw append.cons (ap (λ r. code c ∷ r) (codes-append s t))

-- One decimal digit.
abbrev pub digit : ℕ → String
digit d = slice "0123456789" d (d + 1)

-- `fuel` bounds the count of digits.
digits_from : ℕ → ℕ → String
digits_from zero n = ""
digits_from (suc fuel) n =
    let front = digits_from fuel (n / 10) in if ltb n 10 then digit n else front <> digit (n % 10)

-- A number below 10 ^ 20, which covers every 64-bit word.
unfoldable pub decimal : ℕ → String
unfolding digits_from
decimal n = digits_from 20 n

decimal_runs : decimal 18446744073709551615 ≡ "18446744073709551615"
unfolding decimal
decimal_runs = refl

starts_with : String → String → Bool
starts_with String.[] s = true
starts_with (String.◌∷◌ c cs) String.[] = false
starts_with (String.◌∷◌ c cs) (String.◌∷◌ d ds) =
    leb (code c) (code d) && (leb (code d) (code c) && starts_with cs ds)

characters : String → ℕ
characters String.[] = 0
characters (String.◌∷◌ c s) = suc (characters s)

-- `skip` counts what is left of an occurrence that has been replaced.
replace_from : String → String → ℕ → String → String
unfolding starts_with characters
replace_from old new skip String.[] = ""
replace_from old new (suc skip) (String.◌∷◌ c s) = replace_from old new skip s
replace_from old new zero (String.◌∷◌ c s) = elim (starts_with old (String.◌∷◌ c s)) [
  | true ↦ new <> replace_from old new (characters old - 1) s
  | false ↦ String.◌∷◌ c (replace_from old new 0 s)
]

-- `strings.ReplaceAll`, for an `old` that is not empty.
unfoldable pub replace_all : String → String → String → String
unfolding replace_from
replace_all s old new = replace_from old new 0 s

replace_all_runs : replace_all "a{path}{path}b{" "{path}" "xy" ≡ "axyxyb{"
unfolding replace_all
replace_all_runs = refl

-- The UTF-8 encoding of a character.
utf8 : ℕ → List ℕ
utf8 c =
    if ltb c 128
    then c ∷ []
    else if ltb c 2048
    then (192 + c / 64) ∷ (128 + c % 64) ∷ []
    else if ltb c 65536
    then (224 + c / 4096) ∷ (128 + (c / 64) % 64) ∷ (128 + c % 64) ∷ []
    else (240 + c / 262144) ∷ (128 + (c / 4096) % 64) ∷ (128 + (c / 64) % 64) ∷ (128 + c % 64) ∷ []

abbrev hex_digit : ℕ → String
hex_digit d = slice "0123456789ABCDEF" d (d + 1)

-- Letters, digits, and the four marks `-._~`.
abbrev is_unreserved : ℕ → Bool
is_unreserved b =
    leb 97 b && leb b 122
    || (leb 65 b && leb b 90
        || (leb 48 b && leb b 57
            || (leb 45 b && leb b 46 || (leb 95 b && leb b 95 || leb 126 b && leb b 126))))

escape_bytes : List ℕ → String
escape_bytes [] = ""
escape_bytes (b ∷ bs) = ("%" <> (hex_digit (b / 16) <> hex_digit (b % 16))) <> escape_bytes bs

-- `url.QueryEscape`
unfoldable pub query_escape : String → String
unfolding utf8 escape_bytes
query_escape String.[] = ""
query_escape (String.◌∷◌ c s) =
    let rest = query_escape s in
    if is_unreserved (code c)
    then String.◌∷◌ c rest
    else if leb 32 (code c) && leb (code c) 32
    then "+" <> rest
    else escape_bytes (utf8 (code c)) <> rest

query_escape_runs : query_escape "/rules?x=1 é~" ≡ "%2Frules%3Fx%3D1+%C3%A9~"
unfolding query_escape
query_escape_runs = refl
