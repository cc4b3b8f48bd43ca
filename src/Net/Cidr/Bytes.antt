-- ===== src/Net/Cidr/Bytes.antt =====
-- The bytes of a parsed subnet are bytes.
use Prim.Native.String.{String}
use wgxdp.Base.{
  ℕ, zero, suc, ◌-◌, ◌<◌, ◌≡◌, Bool, true, false, none, some, List, [], ◌∷◌, drop, All, ◌==◌,
  nat_eq, list_eq, arith, Bool-cases, take, ◌&&◌, length, inl, inr,
}
use wgxdp.Base.Bits.{bit_and-le}
use wgxdp.Net.{v4_in_v6_prefix, Ip4, to4, four_bytes}
use wgxdp.Net.RoundTrip.{IsBytes}
use wgxdp.Net.Parse.{bind-eq-some, parse_bytes}
use wgxdp.Base.Text.{codes}
use wgxdp.Net.Cidr.{
  IpNet, parse_cidr, ip_net, and_bytes, mask_bytes, read_net, read_halves, dtoi, cut_slash,
  is_v4_address,
}

abbrev AreBytes : List ℕ → Type 0
AreBytes = All (λ b. b < 256)

mask_bytes-AreBytes : (n ones : ℕ) → AreBytes (mask_bytes n ones)
unfolding mask_bytes
mask_bytes-AreBytes zero ones = tt
mask_bytes-AreBytes (suc n) ones = (ground arith, mask_bytes-AreBytes n (ones - 8))

and_bytes-AreBytes : (a m : List ℕ) → AreBytes m → AreBytes (and_bytes a m)
unfolding and_bytes
and_bytes-AreBytes [] m h = tt
and_bytes-AreBytes (x ∷ xs) [] h = tt
and_bytes-AreBytes (x ∷ xs) (m ∷ ms) h =
    (omega (arith, bit_and-le x m), and_bytes-AreBytes xs ms h.1)

ip_net-AreBytes :
    (v4 : Bool) (ip : List ℕ) (ones : ℕ) (n : IpNet) → ip_net v4 ip ones ≡ some n → AreBytes n.ip
unfolding ip_net
ip_net-AreBytes true ip ones n e =
    ground (arith, and_bytes-AreBytes (drop 12 ip) (mask_bytes 4 ones) (mask_bytes-AreBytes 4 ones))
ip_net-AreBytes false ip ones n e =
    ground (arith, and_bytes-AreBytes ip (mask_bytes 16 ones) (mask_bytes-AreBytes 16 ones))

read_net-AreBytes :
    (p : List ℕ × List ℕ) (ip : List ℕ) (n : IpNet) → read_net p ip ≡ some n → AreBytes n.ip
read_net-AreBytes (address, bits) ip n e =
    let (ones, _, net) = bind-eq-some (dtoi bits) (ip_net (is_v4_address address) ip) e in
    ip_net-AreBytes (is_v4_address address) ip ones n net

parse_cidr-AreBytes : (s : String) (n : IpNet) → parse_cidr s ≡ some n → AreBytes n.ip
parse_cidr-AreBytes s n e =
    let (p, _, halves) =
      bind-eq-some (cut_slash (codes s)) read_halves {b = n} (unfold parse_cidr in e) in
    let (ip, _, net) = bind-eq-some (parse_bytes p.0) (read_net p) halves in
    read_net-AreBytes p ip n net

four_bytes-IsBytes : (l : List ℕ) (ip : Ip4) → AreBytes l → four_bytes l ≡ some ip → IsBytes ip
four_bytes-IsBytes (a ∷ b ∷ c ∷ d ∷ []) ip h e = ground arith
four_bytes-IsBytes l ip h e = cc

drop-AreBytes : (n : ℕ) (l : List ℕ) → AreBytes l → AreBytes (drop n l)
drop-AreBytes zero l h = h
drop-AreBytes (suc n) [] h = tt
drop-AreBytes (suc n) (x ∷ xs) h = drop-AreBytes n xs h.1

to4-IsBytes : (l : List ℕ) (ip : Ip4) → AreBytes l → to4 l ≡ some ip → IsBytes ip
to4-IsBytes l ip h e = elim (Bool-cases (length l == 4)) [
  | inl short ↦ four_bytes-IsBytes l ip h (rw short at e)
  | inr long ↦ elim (Bool-cases (length l == 16 && take 12 l == v4_in_v6_prefix)) [
    | inl mapped ↦ four_bytes-IsBytes (drop 12 l) ip (drop-AreBytes 12 l h) (rw (long, mapped) at e)
    | inr other ↦ let refused : none ≡ some ip = rw (long, other) at e in cc
  ]
]

-- The network address of a parsed IPv4 subnet.
pub parse_cidr-to4-IsBytes :
    (s : String) (n : IpNet) (ip : Ip4) → parse_cidr s ≡ some n → to4 n.ip ≡ some ip → IsBytes ip
parse_cidr-to4-IsBytes s n ip e k = to4-IsBytes n.ip ip (parse_cidr-AreBytes s n e) k
