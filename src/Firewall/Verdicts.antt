-- ===== src/Firewall/Verdicts.antt =====
-- What the XDP program does with a packet, and how the two methods of `Firewall` change it.
use Prim.Native.Nat.{bit_and}
use wgxdp.Base.{
  ℕ, ◌+◌, ◌*◌, ◌≤◌, ◌≡◌, refl, ◌↔◌, ◌⊎◌, true, String, none, some, List, [], ◌∷◌, length, arith,
  if◌then◌else◌,
}
use wgxdp.Base.Int.{ℤ}
use wgxdp.World.{Env, World, PeerRuleKey}
use wgxdp.Act.{ok}
use wgxdp.Firewall.{
  Rules, same_key, lookup_elem, update_elem, delete_elem, get_rule_key, add_peer_rule,
  remove_peer_rule,
}
use wgxdp.Firewall.Filter.{xdp_pass, xdp_drop, ihl, protocol, saddr, packet_key, filter, is_one}

pub same_key_iff : (a b : PeerRuleKey) → (same_key a b ≡ true) ↔ (a ≡ b)
unfolding same_key
same_key_iff a b = ground arith

pub lookup_elem-update_elem :
    (k j : PeerRuleKey) (v : ℕ) (m : Rules)
    → lookup_elem j (update_elem k v m) ≡ (if same_key k j then some v else lookup_elem j m)
unfolding lookup_elem update_elem
lookup_elem-update_elem k j v [] = refl
lookup_elem-update_elem k j v ((i, u) ∷ m) =
    ground
      (arith, same_key_iff k j, same_key_iff i k, same_key_iff i j, lookup_elem-update_elem k j v m)

pub lookup_elem-delete_elem :
    (k j : PeerRuleKey) (m : Rules)
    → lookup_elem j (delete_elem k m) ≡ (if same_key k j then none else lookup_elem j m)
unfolding lookup_elem delete_elem
lookup_elem-delete_elem k j [] = ground arith
lookup_elem-delete_elem k j ((i, u) ∷ m) =
    ground
      (arith, same_key_iff k j, same_key_iff i k, same_key_iff i j, lookup_elem-delete_elem k j m)

-- A whole TCP or UDP packet over IPv4, from the subnet that is filtered.
pub record IsFiltered (filter_net filter_mask : ℕ) (p : List ℕ) : Type 0 where
  pub whole_ip : 20 ≤ length p
  pub header : 5 ≤ ihl p
  pub inside : (filter_mask ≡ 0) ⊎ (bit_and (saddr p) filter_mask ≡ filter_net)
  pub tcp_or_udp : (protocol p ≡ 6) ⊎ (protocol p ≡ 17)
  pub whole_l4 : ihl p * 4 + 8 ≤ length p

pub ihl-le : (p : List ℕ) → ihl p ≤ 15
unfolding ihl
ihl-le p = omega arith

-- Such a packet passes exactly when the map holds 1 at its key.
pub filter_iff :
    (filter_net filter_mask : ℕ) (rules : Rules) (p : List ℕ)
    → IsFiltered filter_net filter_mask p
    → (filter filter_net filter_mask rules p ≡ xdp_pass)
      ↔ (lookup_elem (packet_key p) rules ≡ some 1)
unfolding filter
filter_iff filter_net filter_mask rules p h = ground (arith, ihl-le p)

pub filter_lem :
    (filter_net filter_mask : ℕ) (rules : Rules) (p : List ℕ)
    → IsFiltered filter_net filter_mask p
    → filter filter_net filter_mask rules p
      ≡ (if is_one (lookup_elem (packet_key p) rules) then xdp_pass else xdp_drop)
unfolding filter
filter_lem filter_net filter_mask rules p h = ground (arith, ihl-le p)

-- What a successful call has done, and all that it has done.
pub record Wrote (w w' : World) (rules : Rules) : Type 0 where
  pub rules_are : w'.peer_rules ≡ rules
  pub same_db : w'.db ≡ w.db
  pub same_link : w'.link ≡ w.link

module _ (src_ip dst_ip : String) (port : ℤ) (proto : ℕ) {key : PeerRuleKey} (env : Env) (w : World)
    (keyed : get_rule_key src_ip dst_ip port proto ≡ ok key) where
  pub add_peer_rule-Wrote :
      {w' : World}
      → add_peer_rule src_ip dst_ip port proto env w ≡ (ok tt, w')
      → Wrote w w' (update_elem key 1 w.peer_rules)
  unfolding add_peer_rule
  add_peer_rule-Wrote e = ground arith

  pub remove_peer_rule-Wrote :
      {w' : World}
      → remove_peer_rule src_ip dst_ip port proto env w ≡ (ok tt, w')
      → Wrote w w' (delete_elem key w.peer_rules)
  unfolding remove_peer_rule
  remove_peer_rule-Wrote e = ground arith

  module _ (filter_net filter_mask : ℕ) (p : List ℕ)
      (filtered : IsFiltered filter_net filter_mask p) {w' : World} where
    -- After a successful `AddPeerRule` the packets of its key pass, and every other packet has the
    -- verdict that it had.
    add_peer_rule-filter :
        add_peer_rule src_ip dst_ip port proto env w ≡ (ok tt, w')
        → filter filter_net filter_mask w'.peer_rules p ≡ (
            if same_key key (packet_key p)
            then xdp_pass
            else filter filter_net filter_mask w.peer_rules p)
    add_peer_rule-filter e =
        let wrote = add_peer_rule-Wrote e in
        rw wrote.rules_are (
          ground (
            arith,
            filter_lem filter_net filter_mask (update_elem key 1 w.peer_rules) p filtered,
            filter_lem filter_net filter_mask w.peer_rules p filtered,
            lookup_elem-update_elem key (packet_key p) 1 w.peer_rules,
          ))

    -- After a successful `RemovePeerRule` the packets of its key are dropped, and every other packet
    -- has the verdict that it had.
    remove_peer_rule-filter :
        remove_peer_rule src_ip dst_ip port proto env w ≡ (ok tt, w')
        → filter filter_net filter_mask w'.peer_rules p ≡ (
            if same_key key (packet_key p)
            then xdp_drop
            else filter filter_net filter_mask w.peer_rules p)
    remove_peer_rule-filter e =
        let wrote = remove_peer_rule-Wrote e in
        rw wrote.rules_are (
          ground (
            arith,
            filter_lem filter_net filter_mask (delete_elem key w.peer_rules) p filtered,
            filter_lem filter_net filter_mask w.peer_rules p filtered,
            lookup_elem-delete_elem key (packet_key p) w.peer_rules,
          ))
