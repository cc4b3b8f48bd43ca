-- ===== src/Server/Rules/Traffic.antt =====
-- From a request to `CreateRule` to the packets that the XDP program lets through.
use wgxdp.Base.{Bool, true, false, none, ℕ, ◌≡◌, sym, ap, subst, ◌∙◌, some, List, if◌then◌else◌}
use wgxdp.Base.Int.{ℤ, to_uint16, to_uint8}
use wgxdp.World.{Env, World, PeerRuleKey}
use wgxdp.Net.{Ip4, ip_string}
use wgxdp.Net.RoundTrip.{parse_ip-ip_string, IsBytes}
use wgxdp.Firewall.{delete_elem, rule_key}
use wgxdp.Firewall.Filter.{xdp_pass, xdp_drop, filter, dest_port, protocol}
use wgxdp.Firewall.Verdicts.{IsFiltered}
use wgxdp.Firewall.Keys.{
  source_of, destination_of, rule_key_iff, get_rule_key-ip_string, filter-update_elem,
  filter-delete_elem,
}
use wgxdp.Server.{Server, Request, decoded, Response}
use wgxdp.Server.Rules.{delete_rule, is_ip, CreateRuleRequest, create_rule, proto_or_tcp}
use wgxdp.Server.Rules.ParseInt.{parse_int}
use wgxdp.Database.{RuleRecord}
use wgxdp.Database.Rules.{find_rule}
use wgxdp.Server.Rules.Effects.{delete_rule_unloaded, RuleCreated, create_rule_keyed}

-- A whole packet of the subnet from the rule's source to its destination, at its port, by its protocol.
pub record IsOfRule (src dst : Ip4) (cr : CreateRuleRequest) (filter_net filter_mask : ℕ)
    (p : List ℕ) : Type 0 where
  pub filtered : IsFiltered filter_net filter_mask p
  pub source : source_of p ≡ src
  pub destination : destination_of p ≡ dst
  pub port : dest_port p ≡ to_uint16 cr.port
  pub proto : protocol p ≡ to_uint8 (proto_or_tcp cr.proto)

-- The same for a rule of the table.
pub record IsOfStored (src dst : Ip4) (rule : RuleRecord) (filter_net filter_mask : ℕ) (p : List ℕ)
    : Type 0 where
  pub filtered : IsFiltered filter_net filter_mask p
  pub source : source_of p ≡ src
  pub destination : destination_of p ≡ dst
  pub port : dest_port p ≡ to_uint16 rule.port
  pub proto : protocol p ≡ to_uint8 rule.proto

is_ip-ip_string : (ip : Ip4) → IsBytes ip → is_ip (ip_string ip) ≡ true
is_ip-ip_string ip h =
    ap (λ o. elim o as (λ _. Bool) [ none ↦ false | some _ ↦ true ]) (parse_ip-ip_string ip h)

-- After a 201 for a rule between two IPv4 addresses, on a server with a map, the packets of the rule
-- pass the XDP program.
pub create_rule-passes :
    (s : Server) (req : Request CreateRuleRequest) (cr : CreateRuleRequest) (env : Env) (w : World)
    {r : Response} {w' : World} (src dst : Ip4) (filter_net filter_mask : ℕ) (p : List ℕ)
    → req.body ≡ decoded cr
    → s.xdp ≡ some tt
    → create_rule s req env w ≡ (r, w')
    → r.status ≡ 201
    → cr.src_ip ≡ ip_string src
    → cr.dst_ip ≡ ip_string dst
    → IsBytes src
    → IsBytes dst
    → IsOfRule src dst cr filter_net filter_mask p
    → filter filter_net filter_mask w'.peer_rules p ≡ xdp_pass
create_rule-passes s req cr env w {w' = w'} src dst filter_net filter_mask p body xdp e st from to
      hs hd of_rule =
    ap (λ rules. filter filter_net filter_mask rules p) created.loaded
    ∙ (filter-update_elem filter_net filter_mask key w.peer_rules p of_rule.filtered
        ∙ ap (λ b. if b then xdp_pass else filter filter_net filter_mask w.peer_rules p)
            ((rule_key_iff src dst cr.port proto p hs hd (subst IsBytes (sym of_rule.source) hs)
                (subst IsBytes (sym of_rule.destination) hd)).1
              (sym of_rule.source, sym of_rule.destination, sym of_rule.port, sym of_rule.proto)))
  where
    proto : ℕ
    proto = to_uint8 (proto_or_tcp cr.proto)

    key : PeerRuleKey
    key = rule_key src dst cr.port proto

    created : RuleCreated cr (env.now w.tick) key w w'
    created =
        create_rule_keyed s req cr env w body xdp e st
          (rw (from, to) (get_rule_key-ip_string src dst cr.port proto hs hd))

-- After a 204 for a rule that is stored between two IPv4 addresses, on a server with a map, the packets
-- of the rule are dropped by the XDP program.
pub delete_rule-drops :
    {B : Type 0} (s : Server) (req : Request B) (id : ℤ) (env : Env) (w : World) {r : Response}
    {w' : World} {found : RuleRecord} (src dst : Ip4) (filter_net filter_mask : ℕ) (p : List ℕ)
    → parse_int (req.path_value "id") ≡ some id
    → delete_rule s req env w ≡ (r, w')
    → r.status ≡ 204
    → find_rule id w.db.firewall_rules.rows ≡ some found
    → s.xdp ≡ some tt
    → found.src_ip ≡ ip_string src
    → found.dst_ip ≡ ip_string dst
    → IsBytes src
    → IsBytes dst
    → IsOfStored src dst found filter_net filter_mask p
    → filter filter_net filter_mask w'.peer_rules p ≡ xdp_drop
delete_rule-drops s req id env w {w' = w'} {found = found} src dst filter_net filter_mask p path e
      st there xdp from to hs hd of_rule =
    ap (λ rules. filter filter_net filter_mask rules p) unloaded
    ∙ (filter-delete_elem filter_net filter_mask key w.peer_rules p of_rule.filtered
        ∙ ap (λ b. if b then xdp_drop else filter filter_net filter_mask w.peer_rules p)
            ((rule_key_iff src dst found.port proto p hs hd (subst IsBytes (sym of_rule.source) hs)
                (subst IsBytes (sym of_rule.destination) hd)).1
              (sym of_rule.source, sym of_rule.destination, sym of_rule.port, sym of_rule.proto)))
  where
    proto : ℕ
    proto = to_uint8 found.proto

    key : PeerRuleKey
    key = rule_key src dst found.port proto

    unloaded : w'.peer_rules ≡ delete_elem key w.peer_rules
    unloaded =
        delete_rule_unloaded s req id env w path e st there xdp (rw from (is_ip-ip_string src hs))
          (rw to (is_ip-ip_string dst hd))
          (rw (from, to) (get_rule_key-ip_string src dst found.port proto hs hd))
