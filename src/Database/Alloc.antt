-- ===== src/Database/Alloc.antt =====
-- `NextAvailableIP` of internal/database.go. Addresses are uint32 numbers in network order.
pub mod FirstFree
pub mod Answers
pub mod Capacity
use Prim.Native.Nat.{bit_or}
use wgxdp.Base.{
  ℕ, zero, suc, ◌+◌, ◌-◌, ◌%◌, ◌^◌, String, ◌<>◌, Bool, true, false, Option, none, some, List, map,
  any, take, ltb, ◌==◌, string_eq, if◌then◌else◌,
}
use wgxdp.World.{World, Env, PeerRow}
use wgxdp.Act.{Act, Outcome, lift, ok, err, pure, fail, ◌>>=◌, ◌>>◌}
use wgxdp.Sql.{sql, rows_err, wrap_error}
use wgxdp.Net.{Ip4, to4, four_bytes, big_endian, put_big_endian, ip_string}
use wgxdp.Net.Cidr.{IpNet, parse_cidr}

abbrev pub u32 : ℕ
u32 = 2 ^ 32

-- `candidateIP.String()`
unfoldable pub address_text : ℕ → String
address_text n = ip_string (put_big_endian n)

-- `used[…]`: the map has exactly the assigned addresses as keys.
abbrev pub is_used : List String → ℕ → Bool
is_used used n = any (λ u. u == address_text n) used

pub data Search : Type 0 where
  found : String → Search
  exhausted out_of_fuel : Search

-- `for candidate < broadcast { … candidate++ }`
unfoldable pub search_from : List String → ℕ → ℕ → ℕ → Search
search_from used broadcast zero candidate = out_of_fuel
search_from used broadcast (suc fuel) candidate =
    let next = search_from used broadcast fuel ((candidate + 1) % u32) in
    if ltb candidate broadcast
    then (if is_used used candidate then next else found (address_text candidate))
    else exhausted

-- `network + 2`, in uint32.
abbrev pub first_candidate : ℕ → ℕ
first_candidate net = (net + 2) % u32

-- `ipInt | ^maskInt`
unfoldable pub broadcast_of : ℕ → ℕ → ℕ
broadcast_of net mask = bit_or net (u32 - 1 - mask)

abbrev pub mask_number : List ℕ → ℕ
mask_number mask = elim (four_bytes (take 4 mask)) [ none ↦ 0 | some m ↦ big_endian m ]

-- One round for each address is enough, and one more to see that none is left.
unfoldable pub search_net : List String → ℕ → ℕ → Search
search_net used net mask =
    let broadcast = broadcast_of net mask in
    search_from used broadcast (suc broadcast) (first_candidate net)

abbrev pub assigned_ips : List PeerRow → List String
assigned_ips = map λ p. p.assigned_ip

abbrev pub answer : String → Search → Outcome String String
answer cidr (found ip) = ok ip
answer cidr _ = err ("no available IPs in subnet " <> cidr)

abbrev or_error : {A : Type 0} → Option A → String → Outcome String A
or_error none e = err e
or_error (some a) e = ok a

unfoldable pub next_available_ip : String → Act String String
next_available_ip cidr = do
  subnet ←
      lift (or_error (parse_cidr cidr) ("could not parse subnet: invalid CIDR address: " <> cidr))
  used ←
      wrap_error "could not query assigned IPs: "
        (sql (λ db. (ok (assigned_ips db.peers.rows), db)))
  rows_err
  ip ← lift (or_error (to4 subnet.ip) "only IPv4 subnets are supported")
  lift (answer cidr (search_net used (big_endian ip) (mask_number subnet.mask)))
