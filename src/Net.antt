-- ===== src/Net.antt =====
-- What the program uses of Go's package `net`: addresses as byte slices, their text, and the two byte
-- orders of encoding/binary.
pub mod Parse
pub mod Cidr
pub mod RoundTrip
use wgxdp.Base.{
  ℕ, ◌+◌, ◌*◌, ◌/◌, ◌%◌, ◌^◌, String, ◌<>◌, ◌&&◌, Option, none, some, List, [], ◌∷◌, take, drop,
  length, ◌==◌, nat_eq, list_eq, if◌then◌else◌,
}
use wgxdp.Base.Text.{decimal}

-- The four bytes that `To4` gives.
pub record Ip4 : Type 0 where
  pub a : ℕ
  pub b : ℕ
  pub c : ℕ
  pub d : ℕ

abbrev pub bytes4 : Ip4 → List ℕ
bytes4 ip = ip.a ∷ ip.b ∷ ip.c ∷ ip.d ∷ []

abbrev pub v4_in_v6_prefix : List ℕ
v4_in_v6_prefix = 0 ∷ 0 ∷ 0 ∷ 0 ∷ 0 ∷ 0 ∷ 0 ∷ 0 ∷ 0 ∷ 0 ∷ 255 ∷ 255 ∷ []

abbrev pub four_bytes : List ℕ → Option Ip4
four_bytes (a ∷ b ∷ c ∷ d ∷ []) = some (record { a = a; b = b; c = c; d = d })
four_bytes _ = none

-- `IP.To4`: of a slice of 4 bytes, or of 16 with the prefix of an IPv4 address.
abbrev pub to4 : List ℕ → Option Ip4
to4 ip =
    if length ip == 4
    then four_bytes ip
    else if length ip == 16 && take 12 ip == v4_in_v6_prefix
    then four_bytes (drop 12 ip)
    else none

-- `binary.BigEndian.Uint32` and `binary.LittleEndian.Uint32`.
abbrev pub big_endian : Ip4 → ℕ
big_endian ip = ip.a * 16777216 + ip.b * 65536 + ip.c * 256 + ip.d

abbrev pub little_endian : Ip4 → ℕ
little_endian ip = ip.d * 16777216 + ip.c * 65536 + ip.b * 256 + ip.a

-- `binary.BigEndian.PutUint32`.
abbrev pub put_big_endian : ℕ → Ip4
put_big_endian n = record {
  a = n / 16777216 % 256;
  b = n / 65536 % 256;
  c = n / 256 % 256;
  d = n % 256;
}

-- `IP.String` of a slice of 4 bytes.
unfoldable pub ip_string : Ip4 → String
ip_string ip =
    decimal ip.a <> ("." <> (decimal ip.b <> ("." <> (decimal ip.c <> ("." <> decimal ip.d)))))
