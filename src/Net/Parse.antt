-- ===== src/Net/Parse.antt =====
-- `net.ParseIP`, which is `netip.ParseAddr` without a zone: dotted decimals without leading zeros, or
-- up to eight groups of hexadecimal digits with one `::`.
use Prim.Native.String.{String}
use wgxdp.Base.{
  ℕ, zero, suc, ◌+◌, ◌-◌, ◌*◌, ◌/◌, ◌%◌, ◌≡◌, refl, Bool, true, false, ◌&&◌, ◌||◌, not, Option,
  none, some, List, [], ◌∷◌, ◌++◌, length, take, drop, replicate, any, leb, ltb, ◌==◌, nat_eq,
  if◌then◌else◌,
}
use wgxdp.Base.Text.{codes}
use wgxdp.Net.{v4_in_v6_prefix}

infixl 10 ◌>>=◌
abbrev pub ◌>>=◌ {ℓ κ} : {A : Type ℓ} {B : Type κ} → Option A → (A → Option B) → Option B
none >>= f = none
some a >>= f = f a

pub bind-eq-some {ℓ κ} :
    {A : Type ℓ} {B : Type κ} (o : Option A) (f : A → Option B) {b : B}
    → (o >>= f) ≡ some b
    → (a : A) × (o ≡ some a) × (f a ≡ some b)
bind-eq-some none f e = cc
bind-eq-some (some a) f e = (a, refl, e)

abbrev pub is_digit : ℕ → Bool
is_digit c = leb b'0' c && leb c b'9'

abbrev is_nil : List ℕ → Bool
is_nil [] = true
is_nil (_ ∷ _) = false

-- The loop of `parseIPv4Fields`: the field being read, its digits so far, the fields before it.
unfoldable pub v4_fields : ℕ → ℕ → List ℕ → List ℕ → Option (List ℕ)
v4_fields val digits fields [] = if length fields == 3 then some (fields ++ val ∷ []) else none
v4_fields val digits fields (c ∷ rest) =
    let val' = val * 10 + (c - b'0') in
    let longer = v4_fields val' (digits + 1) fields rest in
    let closed = v4_fields 0 0 (fields ++ val ∷ []) rest in
    if is_digit c
    then (if digits == 1 && val == 0 || ltb 255 val' then none else longer)
    else if c == b'.'
    then (if digits == 0 || (is_nil rest || length fields == 3) then none else closed)
    else none

abbrev hex_value : ℕ → Option ℕ
hex_value c =
    if is_digit c
    then some (c - b'0')
    else if leb b'a' c && leb c b'f'
    then some (c - b'a' + 10)
    else if leb b'A' c && leb c b'F'
    then some (c - b'A' + 10)
    else none

record Group : Type 0 where
  off : ℕ
  acc : ℕ
  rest : List ℕ

-- The digits of one group, four at most.
read_hex : ℕ → ℕ → List ℕ → Option Group
read_hex off acc [] = some (record { off = off; acc = acc; rest = [] })
read_hex off acc (c ∷ s) = elim (hex_value c) [
  | none ↦ some (record { off = off; acc = acc; rest = c ∷ s })
  | some h ↦ if ltb 3 off then none else read_hex (off + 1) (acc * 16 + h) s
]

-- The bytes read, the place of `::`, and the rest.
record Groups : Type 0 where
  bytes : List ℕ
  ellipsis : Option ℕ
  rest : List ℕ

abbrev is_none : Option ℕ → Bool
is_none none = true
is_none (some _) = false

-- What follows a group; `loop` reads the next one.
after_group :
    (List ℕ → Option ℕ → List ℕ → Option Groups) → List ℕ → Option ℕ → List ℕ → Option Groups
after_group loop bytes ellipsis [] = some (record { bytes = bytes; ellipsis = ellipsis; rest = [] })
after_group loop bytes ellipsis (c ∷ []) = none
after_group loop bytes ellipsis (c ∷ c' ∷ s) =
    if not (c == b':')
    then none
    else if not (c' == b':')
    then loop bytes ellipsis (c' ∷ s)
    else if not (is_none ellipsis)
    then none
    else if is_nil s
    then some (record { bytes = bytes; ellipsis = some (length bytes); rest = [] })
    else loop bytes (some (length bytes)) s

abbrev starts_with_dot : List ℕ → Bool
starts_with_dot [] = false
starts_with_dot (c ∷ _) = c == b'.'

-- The loop of `parseIPv6`; the number counts the groups that are left.
v6_groups : ℕ → List ℕ → Option ℕ → List ℕ → Option Groups
unfolding read_hex after_group
v6_groups zero bytes ellipsis s = some (record { bytes = bytes; ellipsis = ellipsis; rest = s })
v6_groups (suc left) bytes ellipsis s =
    let next = v6_groups left in
    read_hex 0 0 s >>= λ g.
    if g.off == 0
    then none
    else if starts_with_dot g.rest
    then (if is_none ellipsis && not (length bytes == 12) || ltb 16 (length bytes + 4)
        then none
        else v4_fields 0 0 [] s >>= λ fields.
            some (record { bytes = bytes ++ fields; ellipsis = ellipsis; rest = [] }))
    else after_group next (bytes ++ (g.acc / 256) ∷ (g.acc % 256) ∷ []) ellipsis g.rest

expand : Groups → Option (List ℕ)
expand g = if not (is_nil g.rest) then none else elim g.ellipsis [
  | none ↦ if length g.bytes == 16 then some g.bytes else none
  | some place ↦
      if length g.bytes == 16
      then none
      else some (take place g.bytes ++ replicate (16 - length g.bytes) 0 ++ drop place g.bytes)
]

parse_v6_from : List ℕ → Option ℕ → Option (List ℕ)
unfolding v6_groups expand
parse_v6_from s ellipsis = v6_groups 8 [] ellipsis s >>= expand

parse_v6 : List ℕ → Option (List ℕ)
unfolding parse_v6_from
parse_v6 (c ∷ c' ∷ s) =
    if c == b':' && c' == b':'
    then (if is_nil s then some (replicate 16 0) else parse_v6_from s (some 0))
    else parse_v6_from (c ∷ c' ∷ s) none
parse_v6 s = parse_v6_from s none

-- An address with a zone is refused, and so is a `%` anywhere else.
abbrev parse_v6_unzoned : List ℕ → Option (List ℕ)
parse_v6_unzoned s = if any (λ c. c == b'%') s then none else parse_v6 s

-- The first `.`, `:` or `%` decides.
unfoldable pub parse_by : List ℕ → List ℕ → Option (List ℕ)
unfolding parse_v6
parse_by s [] = none
parse_by s (c ∷ rest) =
    if c == b'.'
    then (v4_fields 0 0 [] s >>= λ fields. some (v4_in_v6_prefix ++ fields))
    else if c == b':'
    then parse_v6_unzoned s
    else if c == b'%'
    then none
    else parse_by s rest

unfoldable pub parse_bytes : List ℕ → Option (List ℕ)
unfolding parse_by
parse_bytes s = parse_by s s

-- The 16 bytes of `net.ParseIP`, or nil.
unfoldable pub parse_ip : String → Option (List ℕ)
unfolding parse_bytes
parse_ip s = parse_bytes (codes s)
