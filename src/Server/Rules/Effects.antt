-- ===== src/Server/Rules/Effects.antt =====
-- What the handlers of internal/handlers_rules.go have done when they report success.
use wgxdp.Base.{
  ℕ, suc, ◌≡◌, inl, inr, String, true, false, none, some, ◌==◌, string_eq, nat_eq, arith, any,
}
use wgxdp.Base.Int.{ℤ, pos, int_eq, to_uint8}
use wgxdp.World.{Env, World, PeerRuleKey}
use wgxdp.Act.{Outcome-cases, ok, err}
use wgxdp.Sql.{sql, insert, check, checked, apply}
use wgxdp.Database.{RuleRecord}
use wgxdp.Database.Rules.{
  find_rule, delete_rules, add_rule, get_rule_by_id, remove_rule, same_rule, rule_row,
}
use wgxdp.Firewall.{get_rule_key, update_elem, delete_elem, add_peer_rule, remove_peer_rule}
use wgxdp.Server.{Server, Request, decoded, Response}
use wgxdp.Act.{◌>>=◌}
use wgxdp.Server.{http_error, handler}
use wgxdp.Server.DeviceFlow.{unmarshal}
use wgxdp.Server.Rules.ParseInt.{parse_int}
use wgxdp.Server.Rules.{
  CreateRuleRequest, create_rule, delete_rule, proto_or_tcp, is_ip, with_xdp, rule_id,
  existing_rule, remove_from_map,
}

pub record RuleCreated (cr : CreateRuleRequest) (now : ℕ) (key : PeerRuleKey) (w w' : World)
    : Type 0 where
  pub new :
      any
        (λ r. same_rule r (rule_row cr.src_ip cr.dst_ip cr.port (proto_or_tcp cr.proto) now 0))
        w.db.firewall_rules.rows
      ≡ false
  pub row :
      w'.db.firewall_rules
      ≡ insert
          (rule_row cr.src_ip cr.dst_ip cr.port (proto_or_tcp cr.proto) now)
          w.db.firewall_rules
  pub loaded : w'.peer_rules ≡ update_elem key 1 w.peer_rules
  pub same_peers : w'.db.peers ≡ w.db.peers
  pub same_codes : w'.db.device_codes ≡ w.db.device_codes
  pub same_link : w'.link ≡ w.link

module _ (s : Server) (req : Request CreateRuleRequest) (cr : CreateRuleRequest) (env : Env)
    (w : World) (body : req.body ≡ decoded cr) (xdp : s.xdp ≡ some tt) {r : Response} {w' : World}
    (e : create_rule s req env w ≡ (r, w')) (created : r.status ≡ 201) where
  pub create_rule_keyed :
      {key : PeerRuleKey}
      → get_rule_key cr.src_ip cr.dst_ip cr.port (to_uint8 (proto_or_tcp cr.proto)) ≡ ok key
      → RuleCreated cr (env.now w.tick) key w w'
  unfolding create_rule handler unmarshal with_xdp ◌>>=◌ add_rule add_peer_rule sql check checked
      apply
  create_rule_keyed keyed = ground arith

  create_rule_unkeyed :
      {why : String}
      → get_rule_key cr.src_ip cr.dst_ip cr.port (to_uint8 (proto_or_tcp cr.proto)) ≡ err why
      → ⊥
  unfolding create_rule handler unmarshal with_xdp ◌>>=◌ add_rule add_peer_rule sql check checked
      apply
  create_rule_unkeyed unkeyed = ground arith

  -- A handler with a map that answers 201 has added one row for the rule, which was not there, has put 1
  -- in the map at the key of the rule, and has changed nothing else.
  pub create_rule-RuleCreated :
      (key : PeerRuleKey) × (get_rule_key cr.src_ip cr.dst_ip cr.port
          (to_uint8 (proto_or_tcp cr.proto))
        ≡ ok key)
      × RuleCreated cr (env.now w.tick) key w w'
  create_rule-RuleCreated =
      elim (Outcome-cases
        (get_rule_key cr.src_ip cr.dst_ip cr.port (to_uint8 (proto_or_tcp cr.proto)))) [
          | inl (key, keyed) ↦ (key, keyed, create_rule_keyed keyed)
          | inr (why, unkeyed) ↦ absurd (create_rule_unkeyed unkeyed)
        ]

pub record RuleDeleted (id : ℤ) (found : RuleRecord) (w w' : World) : Type 0 where
  pub was_there : find_rule id w.db.firewall_rules.rows ≡ some found
  pub db_is : w'.db ≡ (delete_rules (λ r. pos r.id == id) w.db).1
  pub same_link : w'.link ≡ w.link

module _ {B : Type 0} (s : Server) (req : Request B) (id : ℤ) (env : Env) (w : World)
    (path : parse_int (req.path_value "id") ≡ some id) where
  -- Without such a rule the answer is 404, if SQLite answers at all, and nothing has changed.
  delete_rule_absent :
      find_rule id w.db.firewall_rules.rows ≡ none
      → env.sql_error w.tick ≡ none
      → delete_rule s req env w ≡ (http_error 404 "rule not found", record w { tick = suc w.tick })
  unfolding delete_rule handler rule_id existing_rule remove_from_map with_xdp ◌>>=◌ get_rule_by_id
      sql check checked apply
  delete_rule_absent absent answers = ground arith

  -- On a server with a map, a stored rule whose two texts are addresses, but not both IPv4, cannot be
  -- deleted: the answer is 500 and the tables stay, whatever SQLite answers.
  pub delete_rule_unkeyed :
      {found : RuleRecord} {why : String}
      → find_rule id w.db.firewall_rules.rows ≡ some found
      → s.xdp ≡ some tt
      → is_ip found.src_ip ≡ true
      → is_ip found.dst_ip ≡ true
      → get_rule_key found.src_ip found.dst_ip found.port (to_uint8 found.proto) ≡ err why
      → ((delete_rule s req env w).0.status ≡ 500) × ((delete_rule s req env w).1.db ≡ w.db)
  unfolding delete_rule handler rule_id existing_rule remove_from_map with_xdp ◌>>=◌ get_rule_by_id
      remove_rule remove_peer_rule sql check checked apply
  delete_rule_unkeyed there xdp src dst unkeyed = ground arith

  module _ {r : Response} {w' : World} (e : delete_rule s req env w ≡ (r, w'))
      (deleted : r.status ≡ 204) where
    -- When the rule of the path is there, a deletion that answers 204 has deleted the rows of that id
    -- from the tables, and nothing else of them, and has left the interface.
    pub delete_rule_found :
        {found : RuleRecord}
        → find_rule id w.db.firewall_rules.rows ≡ some found
        → RuleDeleted id found w w'
    unfolding delete_rule handler rule_id existing_rule remove_from_map with_xdp ◌>>=◌
        get_rule_by_id remove_rule remove_peer_rule sql check checked apply
    delete_rule_found there = ground arith

    pub delete_rule_unloaded :
        {found : RuleRecord} {key : PeerRuleKey}
        → find_rule id w.db.firewall_rules.rows ≡ some found
        → s.xdp ≡ some tt
        → is_ip found.src_ip ≡ true
        → is_ip found.dst_ip ≡ true
        → get_rule_key found.src_ip found.dst_ip found.port (to_uint8 found.proto) ≡ ok key
        → w'.peer_rules ≡ delete_elem key w.peer_rules
    unfolding delete_rule handler rule_id existing_rule remove_from_map with_xdp ◌>>=◌
        get_rule_by_id remove_rule remove_peer_rule sql check checked apply
    delete_rule_unloaded there xdp src dst keyed = ground arith
