-- ===== src/Firewall/Permits.antt =====
-- What the eBPF map stands for: the packets that a list of rules permits, without order, repetition or
-- the texts of the addresses.
use wgxdp.Base.{
  ℕ, suc, ◌≤◌, ◌≡◌, Bool, false, ◌||◌, String, none, List, [], ◌∷◌, any, length, arith,
  if◌then◌else◌, ap, ◌∙◌, ◌⊎◌, inl, inr,
}
use wgxdp.Base.Int.{ℤ, to_uint8}
use wgxdp.World.{Env, World, PeerRuleKey}
use wgxdp.Act.{Outcome, ok, err, Outcome-cases, ◌>>=◌}
use wgxdp.Sql.{check, checked}
use wgxdp.Database.{RuleRecord}
use wgxdp.Firewall.{
  Rules, same_key, lookup_elem, update_elem, get_rule_key, add_peer_rule, put_rule, put_world,
}
use wgxdp.Firewall.Filter.{Verdict, xdp_pass, xdp_drop, packet_key, filter, is_one}
use wgxdp.Firewall.Verdicts.{IsFiltered, filter_lem, lookup_elem-update_elem}

abbrev pub key_of : RuleRecord → Outcome String PeerRuleKey
key_of r = get_rule_key r.src_ip r.dst_ip r.port (to_uint8 r.proto)

abbrev pub is_key : PeerRuleKey → Outcome String PeerRuleKey → Bool
is_key k (ok j) = same_key j k
is_key k (err e) = false

abbrev pub has_key : PeerRuleKey → RuleRecord → Bool
has_key k r = is_key k (key_of r)

pub has_key_keyed :
    (k : PeerRuleKey) (r : RuleRecord) {key : PeerRuleKey}
    → key_of r ≡ ok key
    → has_key k r ≡ same_key key k
has_key_keyed k r keyed = ap (is_key k) keyed

pub has_key_unkeyed :
    (k : PeerRuleKey) (r : RuleRecord) {why : String} → key_of r ≡ err why → has_key k r ≡ false
has_key_unkeyed k r unkeyed = ap (is_key k) unkeyed

pub is_one-update_elem :
    (key k : PeerRuleKey) (m : Rules)
    → is_one (lookup_elem k (update_elem key 1 m)) ≡ (same_key key k || is_one (lookup_elem k m))
is_one-update_elem key k m = ground (arith, lookup_elem-update_elem key k 1 m)

-- The verdict on a packet of the subnet, by the rules alone.
abbrev pub verdict_of : List RuleRecord → List ℕ → Verdict
verdict_of rules p = if any (has_key (packet_key p)) rules then xdp_pass else xdp_drop

-- The map has 1 at the keys of the rules, and nowhere else.
pub record Implements (rules : List RuleRecord) (m : Rules) : Type 0 where
  pub agrees : (k : PeerRuleKey) → is_one (lookup_elem k m) ≡ any (has_key k) rules

pub Implements-filter :
    (rules : List RuleRecord) (m : Rules) (filter_net filter_mask : ℕ) (p : List ℕ)
    → Implements rules m
    → IsFiltered filter_net filter_mask p
    → filter filter_net filter_mask m p ≡ verdict_of rules p
Implements-filter rules m filter_net filter_mask p h filtered =
    filter_lem filter_net filter_mask m p filtered
    ∙ ap (λ b. if b then xdp_pass else xdp_drop) (h.agrees (packet_key p))

pub length-update_elem :
    (k : PeerRuleKey) (v : ℕ) (m : Rules) → length (update_elem k v m) ≤ suc (length m)
unfolding update_elem
length-update_elem k v [] = omega arith
length-update_elem k v ((j, u) ∷ m) = ground (arith, length-update_elem k v m)

module _ (src_ip dst_ip : String) (port : ℤ) (proto : ℕ) (env : Env) (w : World) where
  add_peer_rule_keyed :
      {key : PeerRuleKey}
      → get_rule_key src_ip dst_ip port proto ≡ ok key
      → ((add_peer_rule src_ip dst_ip port proto env w).1.peer_rules ≡ w.peer_rules)
        ⊎ ((add_peer_rule src_ip dst_ip port proto env w).1.peer_rules
            ≡ update_elem key 1 w.peer_rules)
  unfolding add_peer_rule put_rule put_world check checked ◌>>=◌
  add_peer_rule_keyed keyed = ground arith

  pub add_peer_rule_unkeyed :
      {why : String}
      → get_rule_key src_ip dst_ip port proto ≡ err why
      → (add_peer_rule src_ip dst_ip port proto env w).1.peer_rules ≡ w.peer_rules
  unfolding add_peer_rule ◌>>=◌
  add_peer_rule_unkeyed unkeyed = ground arith

  -- Whatever the outside answers, the map has changed at the key of the rule, or not at all.
  pub add_peer_rule-cases :
      ((add_peer_rule src_ip dst_ip port proto env w).1.peer_rules ≡ w.peer_rules)
      ⊎ ((key : PeerRuleKey) × (get_rule_key src_ip dst_ip port proto ≡ ok key)
          × ((add_peer_rule src_ip dst_ip port proto env w).1.peer_rules
              ≡ update_elem key 1 w.peer_rules))
  unfolding add_peer_rule put_rule put_world check checked ◌>>=◌
  add_peer_rule-cases = elim (Outcome-cases (get_rule_key src_ip dst_ip port proto)) [
    | inl (key, keyed) ↦ elim (add_peer_rule_keyed keyed) [
      | inl same ↦ inl same
      | inr put ↦ inr (key, keyed, put)
    ]
    | inr (why, unkeyed) ↦ inl (add_peer_rule_unkeyed unkeyed)
  ]

  pub add_peer_rule-roomy :
      env.map_error w.tick ≡ none
      → suc (length w.peer_rules) ≤ 1024
      → {key : PeerRuleKey} → get_rule_key src_ip dst_ip port proto ≡ ok key
      → (add_peer_rule src_ip dst_ip port proto env w).1.peer_rules ≡ update_elem key 1 w.peer_rules
  unfolding add_peer_rule put_rule put_world check checked ◌>>=◌
  add_peer_rule-roomy answers room keyed = ground arith
