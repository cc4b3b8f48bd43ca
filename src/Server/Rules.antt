-- ===== src/Server/Rules.antt =====
-- internal/handlers_rules.go: the firewall rules.
pub mod ParseInt
pub mod Effects
pub mod Traffic
pub mod Refinement
pub mod Covering
pub mod Deleting
use wgxdp.Base.{
  ℕ, zero, suc, ◌+◌, ◌*◌, ◌-◌, ◌^◌, String, ◌<>◌, Bool, true, false, ◌&&◌, ◌||◌, not, Option, none,
  some, List, [], ◌∷◌, ltb, leb, ◌==◌, string_eq, nat_eq, if◌then◌else◌,
}
use wgxdp.Base.Int.{ℤ, pos, int_eq, to_uint8}
use wgxdp.Base.Text.{codes}
use wgxdp.World.{Env, World}
use wgxdp.Act.{Act, ok, err, pure, fail, on_error, guard, ◌>>=◌, ◌>>◌}
use wgxdp.Net.Parse.{parse_ip}
use wgxdp.Database.{RuleRecord}
use wgxdp.Database.Rules.{get_all_rules, add_rule, get_rule_by_id, remove_rule}
use wgxdp.Firewall.{add_peer_rule, remove_peer_rule}
use wgxdp.Server.{
  Server, Request, Body, Response, respond, http_error, Handler, handler, or_respond, no_content,
  rules, rule,
}
use wgxdp.Server.DeviceFlow.{unmarshal}
use wgxdp.Server.Rules.ParseInt.{parse_int}

pub record CreateRuleRequest : Type 0 where
  pub src_ip : String
  pub dst_ip : String
  pub port : ℤ
  pub proto : ℤ

unfoldable pub list_rules : {B : Type 0} → Server → Request B → Handler
unfolding handler ◌>>=◌
list_rules s req = handler (do
  found ← or_respond get_all_rules (λ e. http_error 500 ("could not get rules: " <> e))
  pure (respond 200 (rules found)))

-- `s.XDP != nil`
unfoldable pub with_xdp : Server → Act Response (Unit {0}) → Act Response (Unit {0})
with_xdp s m = elim s.xdp [ none ↦ pure tt | some _ ↦ m ]

abbrev pub is_ip : String → Bool
is_ip text = elim (parse_ip text) [ none ↦ false | some _ ↦ true ]

-- TCP is the default.
abbrev pub proto_or_tcp : ℤ → ℤ
proto_or_tcp proto = if proto == pos 0 then pos 6 else proto

unfoldable pub create_rule : Server → Request CreateRuleRequest → Handler
create_rule s req = handler (do
  cr ← unmarshal 400 "invalid JSON" req.body
  guard (not (cr.src_ip == "" || (cr.dst_ip == "" || cr.port == pos 0)))
      (http_error 400 "src_ip, dst_ip, and port are required")
  guard (is_ip cr.src_ip) (http_error 400 ("invalid source IP: " <> cr.src_ip))
  guard (is_ip cr.dst_ip) (http_error 400 ("invalid destination IP: " <> cr.dst_ip))
  let proto = proto_or_tcp cr.proto
  id ←
      or_respond (add_rule cr.src_ip cr.dst_ip cr.port proto)
        (λ e. http_error 500 ("could not add rule: " <> e))
  with_xdp s (
      or_respond (add_peer_rule cr.src_ip cr.dst_ip cr.port (to_uint8 proto))
        (λ e. http_error 500 ("could not add eBPF rule: " <> e)))
  pure (
      respond 201 (
        rule (record {
          id = id;
          src_ip = cr.src_ip;
          dst_ip = cr.dst_ip;
          port = cr.port;
          proto = proto;
        }))))

unfoldable pub rule_id : String → Act Response ℤ
rule_id text = elim (parse_int text) [
  | none ↦ fail (http_error 400 "invalid rule id")
  | some id ↦ pure id
]

unfoldable pub existing_rule : Option RuleRecord → Act Response RuleRecord
existing_rule none = fail (http_error 404 "rule not found")
existing_rule (some r) = pure r

-- A rule with a text that is no address was never loaded into the map.
unfoldable pub remove_from_map : RuleRecord → Act Response (Unit {0})
remove_from_map r =
    if is_ip r.src_ip && is_ip r.dst_ip
    then or_respond (remove_peer_rule r.src_ip r.dst_ip r.port (to_uint8 r.proto))
        (λ e. http_error 500 ("could not remove eBPF rule: " <> e))
    else pure tt

unfoldable pub delete_rule : {B : Type 0} → Server → Request B → Handler
delete_rule s req = handler (do
  id ← rule_id (req.path_value "id")
  found ← or_respond (get_rule_by_id id) (λ e. http_error 500 ("could not look up rule: " <> e))
  r ← existing_rule found
  with_xdp s (remove_from_map r)
  or_respond (remove_rule id) (λ e. http_error 500 ("could not remove rule: " <> e))
  pure (respond 204 no_content))
