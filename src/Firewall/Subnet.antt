-- ===== src/Firewall/Subnet.antt =====
-- Which packets the XDP program filters: its test on words is `IPNet.Contains` on the bytes of the
-- source address, for the subnet that `New` has put in its constants.
use Prim.Native.Nat.{bit_and}
use wgxdp.Base.{
  ℕ, String, ◌+◌, ◌*◌, ◌≤◌, ◌≡◌, ◌≢◌, length, ◌↔◌, refl, ap, sym, ◌∙◌, some, List, [], ◌∷◌, arith,
}
use wgxdp.Base.Bits.{bit_and-le}
use wgxdp.Base.Words.{bit_and-byte, bit_and-full}
use wgxdp.Net.{Ip4, little_endian, bytes4, to4}
use wgxdp.Net.RoundTrip.{IsBytes}
use wgxdp.Net.Cidr.{IpNet, and_bytes, parse_cidr}
use wgxdp.Net.Parse.{v4_fields}
use wgxdp.World.{Env, World}
use wgxdp.Act.{ok, ◌>>=◌}
use wgxdp.Sql.{check, checked}
use wgxdp.Firewall.Load.{or_panic, new_firewall, set_constants, interface_by_name}
use wgxdp.Firewall.{Rules}
use wgxdp.Firewall.Filter.{xdp_pass, saddr, ihl, filter}
use wgxdp.Firewall.Verdicts.{ihl-le}
use wgxdp.Firewall.Keys.{source_of, little_endian-injective}

abbrev pub and_ip : Ip4 → Ip4 → Ip4
and_ip a m = record {
  a = bit_and a.a m.a;
  b = bit_and a.b m.b;
  c = bit_and a.c m.c;
  d = bit_and a.d m.d;
}

word_split :
    (a b c d : ℕ) → d * 16777216 + c * 65536 + b * 256 + a ≡ a + 256 * (b + 256 * (c + 256 * d))
word_split a b c d = omega arith

little_endian-and_ip :
    (x m : Ip4)
    → IsBytes x
    → IsBytes m
    → bit_and (little_endian x) (little_endian m) ≡ little_endian (and_ip x m)
little_endian-and_ip x m hx hm =
    rw (word_split x.a x.b x.c x.d, word_split m.a m.b m.c m.d)
      (omega (
        arith,
        bit_and-byte x.a (x.b + 256 * (x.c + 256 * x.d)) m.a (m.b + 256 * (m.c + 256 * m.d)) hx.a
            hm.a,
        bit_and-byte x.b (x.c + 256 * x.d) m.b (m.c + 256 * m.d) hx.b hm.b,
        bit_and-byte x.c x.d m.c m.d hx.c hm.c,
      ))

and_ip-IsBytes : (x m : Ip4) → IsBytes m → IsBytes (and_ip x m)
and_ip-IsBytes x m h = record {
  a = omega (arith, bit_and-le x.a m.a, h.a);
  b = omega (arith, bit_and-le x.b m.b, h.b);
  c = omega (arith, bit_and-le x.c m.c, h.c);
  d = omega (arith, bit_and-le x.d m.d, h.d);
}

-- The program's test on words is the test on bytes.
inside_iff :
    (net mask : Ip4) (p : List ℕ)
    → IsBytes net
    → IsBytes mask
    → IsBytes (source_of p)
    → (bit_and (saddr p) (little_endian mask) ≡ little_endian net)
      ↔ (and_bytes (bytes4 (source_of p)) (bytes4 mask) ≡ bytes4 net)
unfolding saddr and_bytes
inside_iff net mask p hn hm hp =
    let source = source_of p in
    let word = little_endian-and_ip source mask hp hm in
    (
      λ e. ap bytes4 (
          little_endian-injective (and_ip source mask) net (and_ip-IsBytes source mask hm) hn
            (sym word ∙ e)),
      λ e. ground (arith, word),
    )

attached_lem :
    (iface_name wg_subnet : String) (env : Env) (w : World) {w' : World} {n : IpNet}
    (net mask : Ip4)
    → new_firewall iface_name wg_subnet env w ≡ (ok tt, w')
    → parse_cidr wg_subnet ≡ some n
    → n.ip ≡ bytes4 net
    → n.mask ≡ bytes4 mask
    → w'.host.attached ≡ some (little_endian net, little_endian mask)
unfolding or_panic new_firewall set_constants interface_by_name check checked ◌>>=◌
attached_lem iface_name wg_subnet env w net mask e parsed ip m = ground arith

-- Once `New` has returned, on an IPv4 subnet, the program is attached, and a packet
-- is inside its filter exactly when the subnet contains the source address.
pub new_firewall-Contains :
    (iface_name wg_subnet : String) (env : Env) (w : World) {w' : World} {n : IpNet}
    (net mask : Ip4) (p : List ℕ)
    → new_firewall iface_name wg_subnet env w ≡ (ok tt, w')
    → parse_cidr wg_subnet ≡ some n
    → n.ip ≡ bytes4 net
    → n.mask ≡ bytes4 mask
    → IsBytes net
    → IsBytes mask
    → IsBytes (source_of p)
    → (w'.host.attached ≡ some (little_endian net, little_endian mask))
      × ((bit_and (saddr p) (little_endian mask) ≡ little_endian net)
          ↔ (and_bytes (bytes4 (source_of p)) n.mask ≡ n.ip))
new_firewall-Contains iface_name wg_subnet env w net mask p e parsed ip m hn hm hp = (
  attached_lem iface_name wg_subnet env w net mask e parsed ip m,
  rw (ip, m) (inside_iff net mask p hn hm hp),
)

abbrev whole_mask : Ip4
whole_mask = record { a = 255; b = 255; c = 255; d = 255 }

and_ip-whole : (x : Ip4) → IsBytes x → and_ip x whole_mask ≡ x
and_ip-whole x h =
    ground (
      arith,
      bit_and-full x.a h.a,
      bit_and-full x.b h.b,
      bit_and-full x.c h.c,
      bit_and-full x.d h.d,
    )

attached_mapped :
    (iface_name wg_subnet : String) (env : Env) (w : World) {w' : World} {n : IpNet} (net : Ip4)
    {rest : List ℕ}
    → new_firewall iface_name wg_subnet env w ≡ (ok tt, w')
    → parse_cidr wg_subnet ≡ some n
    → to4 n.ip ≡ some net
    → n.mask ≡ 255 ∷ 255 ∷ 255 ∷ 255 ∷ rest
    → w'.host.attached ≡ some (little_endian net, little_endian whole_mask)
unfolding or_panic new_firewall set_constants interface_by_name check checked ◌>>=◌
attached_mapped iface_name wg_subnet env w net e parsed ip m = ground arith

-- Only the packets that come from the network address itself are filtered.
unfiltered :
    (net : Ip4) (rules : Rules) (p : List ℕ)
    → IsBytes net
    → IsBytes (source_of p)
    → 20 ≤ length p
    → 5 ≤ ihl p
    → source_of p ≢ net
    → filter (little_endian net) (little_endian whole_mask) rules p ≡ xdp_pass
unfolding filter saddr
unfiltered net rules p hn hp long header other =
    let source = source_of p in
    let masked =
      little_endian-and_ip source whole_mask hp
        (record { a = omega arith; b = omega arith; c = omega arith; d = omega arith })
      ∙ ap little_endian (and_ip-whole source hp) in
    let apart : little_endian source ≢ little_endian net =
      λ e. other (little_endian-injective source net hp hn e) in
    ground (arith, masked, ihl-le p)

-- Once `New` has returned on a subnet in the form of an IPv6 address that is mapped from IPv4, with a
-- mask of 32 bits or more, the attached program lets every packet with a whole header through that does
-- not come from the network address, whatever the map holds.
pub new_firewall-unfiltered :
    (iface_name wg_subnet : String) (env : Env) (w : World) {w' : World} {n : IpNet} (net : Ip4)
    {rest : List ℕ} (rules : Rules) (p : List ℕ)
    → new_firewall iface_name wg_subnet env w ≡ (ok tt, w')
    → parse_cidr wg_subnet ≡ some n
    → to4 n.ip ≡ some net
    → n.mask ≡ 255 ∷ 255 ∷ 255 ∷ 255 ∷ rest
    → IsBytes net
    → IsBytes (source_of p)
    → 20 ≤ length p
    → 5 ≤ ihl p
    → source_of p ≢ net
    → (w'.host.attached ≡ some (little_endian net, little_endian whole_mask))
      × (filter (little_endian net) (little_endian whole_mask) rules p ≡ xdp_pass)
new_firewall-unfiltered iface_name wg_subnet env w net rules p e parsed ip m hn hp long header
      other =
    (
      attached_mapped iface_name wg_subnet env w net e parsed ip m,
      unfiltered net rules p hn hp long header other,
    )

-- The two constants for a subnet in the form of an IPv6 address: the mask is that of a whole address.
mapped_runs :
    parse_cidr "::ffff:10.0.0.0/120"
    ≡ some (record {
      ip = 0 ∷ 0 ∷ 0 ∷ 0 ∷ 0 ∷ 0 ∷ 0 ∷ 0 ∷ 0 ∷ 0 ∷ 255 ∷ 255 ∷ 10 ∷ 0 ∷ 0 ∷ 0 ∷ [];
      mask =
          255 ∷ 255 ∷ 255 ∷ 255 ∷ 255 ∷ 255 ∷ 255 ∷ 255 ∷ 255 ∷ 255 ∷ 255 ∷ 255 ∷ 255 ∷ 255 ∷ 255
          ∷ 0 ∷ [];
    })
unfolding parse_cidr v4_fields
mapped_runs = refl
