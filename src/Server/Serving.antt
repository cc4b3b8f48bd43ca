-- ===== src/Server/Serving.antt =====
-- What the methods that write keep, every request and every clean-up keeps.
use wgxdp.Base.{ℕ, String, List, [], ◌∷◌, string_eq}
use wgxdp.Base.Int.{ℤ, to_uint8}
use wgxdp.World.{Env, World}
use wgxdp.Act.Keeps.{Invariant, Keeps, Keeps-bind, Keeps-attempt}
use wgxdp.Sql.Keeps.{sql_rules}
use wgxdp.Database.{PeerRecord, RuleRecord}
use wgxdp.Database.Reads.{read_rules}
use wgxdp.Database.Rules.{add_rule, remove_rule, remove_rules_for_peer}
use wgxdp.Firewall.{add_peer_rule, remove_peer_rule}
use wgxdp.Wireguard.Peers.{device_rules}
use wgxdp.Server.{Server, Request}
use wgxdp.Server.Keeps.{Serves, Serves-handler, server_rules}
use wgxdp.Server.Rules.{CreateRuleRequest, list_rules, create_rule}
use wgxdp.Server.Rules
use wgxdp.Server.Peers.{
  unlink, unload, forget, delete_found, delete_named, JoinRequest, list_peers, delete_peer,
  server_info_handler, join_handler, admit_peer, statuses_of,
}
use wgxdp.Server.Peers
use wgxdp.Server.Unlinking.{unlink-Keeps}
use wgxdp.Server.Plain.{Plain, RuleRoutes, step_keeps}
use wgxdp.Server.Calls.{Event, step, run}

-- The methods that write the tables or the map keep `J`.
pub record Kept (J : Invariant) : Type 0 where
  pub plain : Plain J
  pub add_rule_keeps : (src dst : String) (port proto : ℤ) → Keeps J (add_rule src dst port proto)
  pub remove_rule_keeps : (id : ℤ) → Keeps J (remove_rule id)
  pub remove_rules_for_peer_keeps : (src : String) → Keeps J (remove_rules_for_peer src)
  pub add_peer_rule_keeps :
      (src dst : String) (port : ℤ) (proto : ℕ) → Keeps J (add_peer_rule src dst port proto)
  pub remove_peer_rule_keeps :
      (src dst : String) (port : ℤ) (proto : ℕ) → Keeps J (remove_peer_rule src dst port proto)

module _ {J : Invariant} (kept : Kept J) where
  rule_from_map-Keeps : (r : RuleRecord) → Keeps J (Rules.remove_from_map r)
  unfolding Rules.remove_from_map
  rule_from_map-Keeps r = search (sql_rules, kept.remove_peer_rule_keeps)

  rules_from_map-Keeps : (rs : List RuleRecord) → Keeps J (Peers.remove_from_map rs)
  unfolding Peers.remove_from_map
  rules_from_map-Keeps [] = search sql_rules
  rules_from_map-Keeps (r ∷ rs) =
      Keeps-bind _ (λ _. Peers.remove_from_map rs)
        (Keeps-attempt _ (kept.remove_peer_rule_keeps r.src_ip r.dst_ip r.port (to_uint8 r.proto)))
        (λ _. rules_from_map-Keeps rs)

  ruleset serving_rules = (
    read_rules, device_rules, server_rules, rule_from_map-Keeps, rules_from_map-Keeps,
    Serves-handler,
  )

  create_rule-Serves : (s : Server) (req : Request CreateRuleRequest) → Serves J (create_rule s req)
  unfolding create_rule
  create_rule-Serves s req =
      search (serving_rules, kept.add_rule_keeps, kept.add_peer_rule_keeps) depth 12

  delete_rule-Serves :
      {B : Type 0} (s : Server) (req : Request B) → Serves J (Rules.delete_rule s req)
  unfolding Rules.delete_rule
  delete_rule-Serves s req = search (serving_rules, kept.remove_rule_keeps) depth 12

  unload-Keeps : (s : Server) (rs : List RuleRecord) → Keeps J (unload s rs)
  unfolding unload
  unload-Keeps s rs = search serving_rules

  forget-Keeps : (s : Server) (peer : PeerRecord) (name : String) → Keeps J (forget s peer name)
  unfolding forget
  forget-Keeps s peer name =
      search
        (
          serving_rules, unload-Keeps, kept.remove_rules_for_peer_keeps,
          kept.plain.remove_peer_keeps,
        )
        depth 14

  delete_found-Keeps :
      (s : Server) (peer : PeerRecord) (name : String) → Keeps J (delete_found s peer name)
  unfolding delete_found
  delete_found-Keeps s peer name = search (serving_rules, unlink-Keeps, forget-Keeps)

  delete_named-Keeps : (s : Server) (name : String) → Keeps J (delete_named s name)
  unfolding delete_named
  delete_named-Keeps s name = search (serving_rules, delete_found-Keeps) depth 14

  delete_peer-Serves : {B : Type 0} (s : Server) (req : Request B) → Serves J (delete_peer s req)
  unfolding delete_peer
  delete_peer-Serves s req = search (serving_rules, delete_named-Keeps)

  rule_routes : (s : Server) (env : Env) (w : World) → J w.db w.peer_rules → RuleRoutes J s env w
  rule_routes s env w h = record {
    create_rule_keeps = λ req. (create_rule-Serves s req).at env w h;
    delete_rule_keeps = λ req. (delete_rule-Serves s req).at env w h;
    delete_peer_keeps = λ req. (delete_peer-Serves s req).at env w h;
  }

  pub step-Keeps :
      (s : Server) (e : Event) (env : Env) (w : World)
      → J w.db w.peer_rules
      → J (step s e env w).db (step s e env w).peer_rules
  step-Keeps s e env w h = step_keeps kept.plain s env w h (rule_routes s env w h) e

  pub run-Keeps :
      (s : Server) (es : List Event) (env : Env) (w : World)
      → J w.db w.peer_rules
      → J (run s es env w).db (run s es env w).peer_rules
  unfolding run
  run-Keeps s [] env w h = h
  run-Keeps s (e ∷ es) env w h = run-Keeps s es env (step s e env w) (step-Keeps s e env w h)
