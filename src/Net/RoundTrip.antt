-- ===== src/Net/RoundTrip.antt =====
-- The text of an IPv4 address, read back.
use mathlib.Core.List.{append-nil}
use wgxdp.Base.{
  ℕ, zero, suc, ◌+◌, ◌*◌, ◌/◌, ◌%◌, ◌<◌, ◌≡◌, ◌≢◌, refl, ◌-◌, ◌∙◌, Bool, true, false, ◌&&◌, ◌||◌,
  some, List, [], ◌∷◌, ◌++◌, length, ◌⊎◌, inl, inr, Bool-cases, ltb, ◌==◌, ==_iff, nat_eq, list_eq,
  arith, if◌then◌else◌,
}
use wgxdp.Base.Text.{codes, codes-append, decimal}
use wgxdp.Net.{Ip4, bytes4, ip_string, v4_in_v6_prefix}
use wgxdp.Net.Parse.{is_digit, parse_ip, parse_bytes, parse_by, v4_fields, ◌>>=◌}

all_below : ℕ → (ℕ → Bool) → Bool
all_below zero p = true
all_below (suc n) p = p n && all_below n p

all_below-at : (n : ℕ) (p : ℕ → Bool) (x : ℕ) → all_below n p ≡ true → x < n → p x ≡ true
unfolding all_below
all_below-at zero p x h lt = absurd (omega arith)
all_below-at (suc n) p x h lt = ground (arith, all_below-at n p x)

-- The digits of a byte.
abbrev octet : ℕ → List ℕ
octet v =
    if ltb v 10
    then (48 + v) ∷ []
    else if ltb v 100
    then (48 + v / 10) ∷ (48 + v % 10) ∷ []
    else (48 + v / 100) ∷ (48 + v / 10 % 10) ∷ (48 + v % 10) ∷ []

octet_table : all_below 256 (λ v. codes (decimal v) == octet v) ≡ true
unfolding all_below decimal
octet_table = refl

codes-decimal : (v : ℕ) → v < 256 → codes (decimal v) ≡ octet v
codes-decimal v h = (==_iff (codes (decimal v)) (octet v)).0 (all_below-at 256 _ v octet_table h)

v4_fields-digit :
    (val digits d next : ℕ) (fields rest : List ℕ)
    → d < 10
    → (digits ≡ 0) ⊎ (0 < val)
    → next ≡ val * 10 + d
    → next < 256
    → v4_fields val digits fields ((48 + d) ∷ rest) ≡ v4_fields next (digits + 1) fields rest
unfolding v4_fields
v4_fields-digit val digits d next fields rest h k e fits =
    let digit : is_digit (48 + d) ≡ true = ground arith in
    let value : val * 10 + (48 + d - 48) ≡ next = omega arith in
    let goes_on : (digits == 1 && val == 0 || ltb 255 next) ≡ false = ground arith in
    rw (digit, value, goes_on)

v4_fields-dot :
    (val digits c : ℕ) (fields rest : List ℕ)
    → 0 < digits
    → length fields ≢ 3
    → v4_fields val digits fields (b'.' ∷ c ∷ rest) ≡ v4_fields 0 0 (fields ++ val ∷ []) (c ∷ rest)
unfolding v4_fields
v4_fields-dot val digits c fields rest h k =
    let goes_on : (digits == 0 || length fields == 3) ≡ false = ground arith in rw goes_on

v4_fields-end :
    (val digits : ℕ) (fields : List ℕ)
    → length fields ≡ 3
    → v4_fields val digits fields [] ≡ some (fields ++ val ∷ [])
unfolding v4_fields
v4_fields-end val digits fields k = ground arith

-- The digits of one field.
v4_fields-octet :
    (v : ℕ) (fields rest : List ℕ)
    → v < 256
    → (n : ℕ) × (0 < n) × (v4_fields 0 0 fields (octet v ++ rest) ≡ v4_fields v n fields rest)
v4_fields-octet v fields rest h = elim (Bool-cases (ltb v 10)) [
  | inl small ↦ (
    1,
    omega arith,
    rw small (v4_fields-digit 0 0 v v fields rest (ground arith) (inl refl) (omega arith) h),
  )
  | inr big ↦ elim (Bool-cases (ltb v 100)) [
    | inl small ↦ (
      2,
      omega arith,
      rw (big, small)
          (v4_fields-digit 0 0 (v / 10) (v / 10) fields _ (ground arith) (inl refl) (omega arith)
              (omega arith)
            ∙ v4_fields-digit (v / 10) 1 (v % 10) v fields rest (omega arith) (inr (ground arith))
                (omega arith) h),
    )
    | inr large ↦ (
      3,
      omega arith,
      rw (big, large)
          (v4_fields-digit 0 0 (v / 100) (v / 100) fields _ (omega arith) (inl refl) (omega arith)
              (omega arith)
            ∙ v4_fields-digit (v / 100) 1 (v / 10 % 10) (v / 10) fields _ (omega arith)
                (inr (ground arith)) (omega arith) (omega arith)
            ∙ v4_fields-digit (v / 10) 2 (v % 10) v fields rest (omega arith) (inr (ground arith))
                (omega arith) h),
    )
  ]
]

abbrev IsCons : List ℕ → Type 0
IsCons s = (c : ℕ) × (r : List ℕ) × (s ≡ c ∷ r)

append-IsCons : (x : ℕ) (xs rest : List ℕ) → IsCons ((x ∷ xs) ++ rest)
append-IsCons x xs rest = (x, xs ++ rest, refl)

octet-IsCons : (v : ℕ) (rest : List ℕ) → IsCons (octet v ++ rest)
octet-IsCons v rest = elim (Bool-cases (ltb v 10)) [
  | inl small ↦ rw small (append-IsCons (48 + v) [] rest)
  | inr big ↦ elim (Bool-cases (ltb v 100)) [
    | inl small ↦ rw (big, small) (append-IsCons (48 + v / 10) ((48 + v % 10) ∷ []) rest)
    | inr large ↦
        rw (big, large)
          (append-IsCons (48 + v / 100) ((48 + v / 10 % 10) ∷ (48 + v % 10) ∷ []) rest)
  ]
]

v4_fields-dot_cons :
    (val digits : ℕ) (fields rest : List ℕ)
    → 0 < digits
    → length fields ≢ 3
    → IsCons rest
    → v4_fields val digits fields (b'.' ∷ rest) ≡ v4_fields 0 0 (fields ++ val ∷ []) rest
v4_fields-dot_cons val digits fields rest h k (c, r, cons) =
    rw cons (v4_fields-dot val digits c fields r h k)

-- A field and the dot behind it.
v4_fields-octet_dot :
    (v : ℕ) (fields rest : List ℕ)
    → v < 256
    → length fields ≢ 3
    → IsCons rest
    → v4_fields 0 0 fields (octet v ++ b'.' ∷ rest) ≡ v4_fields 0 0 (fields ++ v ∷ []) rest
v4_fields-octet_dot v fields rest h k cons =
    let (n, pos, e) = v4_fields-octet v fields (b'.' ∷ rest) h in
    e ∙ v4_fields-dot_cons v n fields rest pos k cons

-- The last field.
v4_fields-octet_end :
    (v : ℕ) (fields : List ℕ)
    → v < 256
    → length fields ≡ 3
    → v4_fields 0 0 fields (octet v ++ []) ≡ some (fields ++ v ∷ [])
v4_fields-octet_end v fields h k =
    let (n, pos, e) = v4_fields-octet v fields [] h in e ∙ v4_fields-end v n fields k

abbrev dotted : ℕ → ℕ → ℕ → ℕ → List ℕ
dotted a b c d = octet a ++ b'.' ∷ (octet b ++ b'.' ∷ (octet c ++ b'.' ∷ (octet d ++ [])))

v4_fields-dotted :
    (a b c d : ℕ)
    → a < 256
    → b < 256
    → c < 256
    → d < 256
    → v4_fields 0 0 [] (dotted a b c d) ≡ some (a ∷ b ∷ c ∷ d ∷ [])
v4_fields-dotted a b c d ha hb hc hd =
    v4_fields-octet_dot a [] _ ha (omega arith) (octet-IsCons b _)
    ∙ v4_fields-octet_dot b (a ∷ []) _ hb (omega arith) (octet-IsCons c _)
    ∙ v4_fields-octet_dot c (a ∷ b ∷ []) _ hc (omega arith) (octet-IsCons d [])
    ∙ v4_fields-octet_end d (a ∷ b ∷ c ∷ []) hd refl

-- The scan for the first mark stops at the dot.
parse_by-octet :
    (v : ℕ) (s rest : List ℕ)
    → v < 256
    → parse_by s (octet v ++ b'.' ∷ rest)
      ≡ (v4_fields 0 0 [] s >>= λ fields. some (v4_in_v6_prefix ++ fields))
unfolding parse_by
parse_by-octet v s rest h = ground arith

codes-ip_string :
    (ip : Ip4)
    → codes (ip_string ip)
      ≡ codes (decimal ip.a)
        ++ b'.'
          ∷ (codes (decimal ip.b) ++ b'.' ∷ (codes (decimal ip.c) ++ b'.' ∷ codes (decimal ip.d)))
unfolding ip_string
codes-ip_string ip = simp codes-append

-- The fields are bytes.
pub record IsBytes (ip : Ip4) : Type 0 where
  pub a : ip.a < 256
  pub b : ip.b < 256
  pub c : ip.c < 256
  pub d : ip.d < 256

pub codes-ip_string-dotted :
    (ip : Ip4) → IsBytes ip → codes (ip_string ip) ≡ dotted ip.a ip.b ip.c ip.d
codes-ip_string-dotted ip h =
    codes-ip_string ip
    ∙ simp (
      codes-decimal ip.a h.a,
      codes-decimal ip.b h.b,
      codes-decimal ip.c h.c,
      codes-decimal ip.d h.d,
      append-nil,
    )

-- `net.ParseIP` reads the text of an IPv4 address back.
pub parse_ip-ip_string :
    (ip : Ip4) → IsBytes ip → parse_ip (ip_string ip) ≡ some (v4_in_v6_prefix ++ bytes4 ip)
unfolding parse_ip parse_bytes
parse_ip-ip_string ip h =
    rw (codes-ip_string-dotted ip h)
      (parse_by-octet ip.a _ _ h.a ∙ rw (v4_fields-dotted ip.a ip.b ip.c ip.d h.a h.b h.c h.d))
