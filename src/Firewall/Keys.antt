-- ===== src/Firewall/Keys.antt =====
-- The Go server and the C program make the same key: the server from the text of a rule, the program
-- from the bytes of a packet.
use wgxdp.Base.{
  ℕ, ◌≡◌, ◌↔◌, ap, ◌∙◌, ◌<>◌, String, true, none, some, List, nat_eq, arith, if◌then◌else◌,
}
use wgxdp.Base.Int.{ℤ, to_uint16}
use wgxdp.World.{PeerRuleKey}
use wgxdp.Act.{Outcome, ok, err}
use wgxdp.Net.{Ip4, little_endian, to4, ip_string}
use wgxdp.Net.RoundTrip.{IsBytes, parse_ip-ip_string}
use wgxdp.Firewall.{
  delete_elem, and_then, address_of, Rules, rule_key, get_rule_key, same_key, update_elem,
}
use wgxdp.Firewall.Filter.{
  xdp_drop, xdp_pass, byte_at, packet_key, saddr, daddr, dest_port, protocol, filter,
}
use wgxdp.Firewall.Verdicts.{
  lookup_elem-delete_elem, IsFiltered, filter_lem, lookup_elem-update_elem,
}

abbrev pub source_of : List ℕ → Ip4
source_of p = record { a = byte_at p 12; b = byte_at p 13; c = byte_at p 14; d = byte_at p 15 }

abbrev pub destination_of : List ℕ → Ip4
destination_of p = record { a = byte_at p 16; b = byte_at p 17; c = byte_at p 18; d = byte_at p 19 }

pub little_endian-injective :
    (a b : Ip4) → IsBytes a → IsBytes b → little_endian a ≡ little_endian b → a ≡ b
little_endian-injective a b ha hb e = ground (arith, ha.a, ha.b, ha.c, ha.d, hb.a, hb.b, hb.c, hb.d)

-- The key of a rule is that of a packet exactly when the packet goes from the rule's source to its
-- destination, at the low 16 bits of its port, by its protocol.
pub rule_key_iff :
    (src dst : Ip4) (port : ℤ) (proto : ℕ) (p : List ℕ)
    → IsBytes src
    → IsBytes dst
    → IsBytes (source_of p)
    → IsBytes (destination_of p)
    → (same_key (rule_key src dst port proto) (packet_key p) ≡ true) ↔ (
        (src ≡ source_of p)
        × (dst ≡ destination_of p)
        × (to_uint16 port ≡ dest_port p)
        × (proto ≡ protocol p))
unfolding same_key saddr daddr
rule_key_iff src dst port proto p hs hd ps pd = ground (
  arith,
  little_endian-injective src (source_of p) hs ps,
  little_endian-injective dst (destination_of p) hd pd,
)

address_of-ip_string :
    (invalid not_v4 : String) (ip : Ip4)
    → IsBytes ip
    → address_of invalid not_v4 (ip_string ip) ≡ ok ip
address_of-ip_string invalid not_v4 ip h =
    ap
      (λ o. elim o as (λ _. Outcome String Ip4) [
        | none ↦ err (invalid <> ip_string ip)
        | some found ↦ elim (to4 found) as (λ _. Outcome String Ip4) [
          | none ↦ err (not_v4 <> ip_string ip)
          | some ip4 ↦ ok ip4
        ]
      ])
      (parse_ip-ip_string ip h)

-- A rule between two addresses in dotted decimals has the key of the addresses.
pub get_rule_key-ip_string :
    (src dst : Ip4) (port : ℤ) (proto : ℕ)
    → IsBytes src
    → IsBytes dst
    → get_rule_key (ip_string src) (ip_string dst) port proto ≡ ok (rule_key src dst port proto)
unfolding get_rule_key
get_rule_key-ip_string src dst port proto hs hd =
    ap
      (λ o. and_then o λ a.
        and_then
          (address_of "invalid destination IP: " "destination IP is not IPv4: " (ip_string dst))
          λ b. ok (rule_key a b port proto))
      (address_of-ip_string "invalid source IP: " "source IP is not IPv4: " src hs)
    ∙ ap (λ o. and_then o λ b. ok (rule_key src b port proto))
        (address_of-ip_string "invalid destination IP: " "destination IP is not IPv4: " dst hd)

-- What a new entry does to the verdicts.
pub filter-update_elem :
    (filter_net filter_mask : ℕ) (key : PeerRuleKey) (rules : Rules) (p : List ℕ)
    → IsFiltered filter_net filter_mask p
    → filter filter_net filter_mask (update_elem key 1 rules) p
      ≡ (if same_key key (packet_key p) then xdp_pass else filter filter_net filter_mask rules p)
filter-update_elem filter_net filter_mask key rules p filtered = ground (
  arith,
  filter_lem filter_net filter_mask (update_elem key 1 rules) p filtered,
  filter_lem filter_net filter_mask rules p filtered,
  lookup_elem-update_elem key (packet_key p) 1 rules,
)

-- What the loss of an entry does to the verdicts.
pub filter-delete_elem :
    (filter_net filter_mask : ℕ) (key : PeerRuleKey) (rules : Rules) (p : List ℕ)
    → IsFiltered filter_net filter_mask p
    → filter filter_net filter_mask (delete_elem key rules) p
      ≡ (if same_key key (packet_key p) then xdp_drop else filter filter_net filter_mask rules p)
filter-delete_elem filter_net filter_mask key rules p filtered = ground (
  arith,
  filter_lem filter_net filter_mask (delete_elem key rules) p filtered,
  filter_lem filter_net filter_mask rules p filtered,
  lookup_elem-delete_elem key (packet_key p) rules,
)
