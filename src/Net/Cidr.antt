-- ===== src/Net/Cidr.antt =====
-- `net.ParseCIDR`.
pub mod Bytes
use Prim.Native.Nat.{bit_and}
use Prim.Native.String.{String}
use wgxdp.Base.{
  ℕ, zero, suc, ◌+◌, ◌-◌, ◌*◌, ◌/◌, ◌^◌, Bool, true, false, ◌&&◌, ◌||◌, not, Option, none, some,
  List, [], ◌∷◌, ◌++◌, length, take, drop, any, leb, ltb, ◌==◌, nat_eq, list_eq, if◌then◌else◌,
}
use wgxdp.Base.Text.{codes}
use wgxdp.Net.{v4_in_v6_prefix}
use wgxdp.Net.Parse.{◌>>=◌, is_digit, parse_bytes}

-- `IPNet`: 4 bytes each for an IPv4 subnet, 16 otherwise.
pub record IpNet : Type 0 where
  pub ip : List ℕ
  pub mask : List ℕ

-- The text before the first `/`, and the text after it.
unfoldable pub cut_slash : List ℕ → Option (List ℕ × List ℕ)
cut_slash [] = none
cut_slash (c ∷ s) = if c == b'/' then some ([], s) else (cut_slash s >>= λ p. some (c ∷ p.0, p.1))

-- `dtoi`, which must read all of the text.
dtoi_from : ℕ → List ℕ → Option ℕ
dtoi_from n [] = some n
dtoi_from n (c ∷ s) =
    let n' = n * 10 + (c - b'0') in
    let rest = dtoi_from n' s in
    if is_digit c then (if leb 16777215 n' then none else rest) else none

unfoldable pub dtoi : List ℕ → Option ℕ
unfolding dtoi_from
dtoi [] = none
dtoi (c ∷ s) = dtoi_from 0 (c ∷ s)

-- `CIDRMask`, a byte at a time: `^byte(0xff >> n)` is the last one that is not empty.
unfoldable pub mask_bytes : ℕ → ℕ → List ℕ
mask_bytes zero ones = []
mask_bytes (suc count) ones =
    let m : ℕ = if leb 8 ones then 255 else 255 - 255 / 2 ^ ones in m ∷ mask_bytes count (ones - 8)

unfoldable pub and_bytes : List ℕ → List ℕ → List ℕ
and_bytes (a ∷ as') (b ∷ bs) = bit_and a b ∷ and_bytes as' bs
and_bytes _ _ = []

pub is_v4_address : List ℕ → Bool
is_v4_address s = not (any (λ c. c == b':') s)

-- An address that is written with dots alone has 32 bits.
unfoldable pub ip_net : Bool → List ℕ → ℕ → Option IpNet
ip_net true ip ones =
    if ltb 32 ones
    then none
    else some (record { ip = and_bytes (drop 12 ip) (mask_bytes 4 ones); mask = mask_bytes 4 ones })
ip_net false ip ones =
    if ltb 128 ones
    then none
    else some (record { ip = and_bytes ip (mask_bytes 16 ones); mask = mask_bytes 16 ones })

abbrev pub read_net : List ℕ × List ℕ → List ℕ → Option IpNet
read_net (address, bits) ip = dtoi bits >>= λ ones. ip_net (is_v4_address address) ip ones

abbrev pub read_halves : List ℕ × List ℕ → Option IpNet
read_halves p = parse_bytes p.0 >>= read_net p

-- The subnet of `net.ParseCIDR`; its first result is used nowhere.
unfoldable pub parse_cidr : String → Option IpNet
unfolding cut_slash dtoi is_v4_address ip_net and_bytes mask_bytes parse_bytes
parse_cidr s = cut_slash (codes s) >>= read_halves
