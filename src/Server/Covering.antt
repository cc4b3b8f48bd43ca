-- ===== src/Server/Covering.antt =====
-- What any requests and clean-ups leave of the agreement of the eBPF map with the rules.
use wgxdp.Base.{
  ℕ, ◌≡◌, String, none, some, List, [], ◌∷◌, Bool, Bool-cases, inl, inr, any, ◌==◌, string_eq,
}
use wgxdp.World.{Env, World, Db, DeviceCodeRow}
use wgxdp.Firewall.{Rules}
use wgxdp.Firewall.Covers.{Covers}
use wgxdp.Act.Keeps.{Keeps}
use wgxdp.Sql.Keeps.{Keeps-sql}
use wgxdp.Database.Reads.{read_rules}
use wgxdp.Database.Peers.{insert_peer, peer_row, add_peer, delete_peer_row, remove_peer}
use wgxdp.Database.Codes.{
  insert_code, code_row, new_device_code, update_codes, delete_codes, create_device_code,
  approve_device_code, deny_device_code, consume_access_token, clean_expired_device_codes,
}
use wgxdp.Database.Integrity.{IsSound}
use wgxdp.Server.{Server}
use wgxdp.Server.Plain.{Plain, RuleRoutes, step_keeps}
use wgxdp.Server.Integrity.{step-IsSound}
use wgxdp.Server.Rules.Covering.{Covering, rules_of, create_rule-Covering}
use wgxdp.Server.Rules.Deleting.{delete_rule-Covering}
use wgxdp.Server.Peers.Covering.{delete_peer-Covering}
use wgxdp.Server.Calls.{Event, step, run}

insert_peer-Covering :
    (name key ip : String) (now : ℕ) (db : Db) (m : Rules)
    → Covering db m
    → Covering (insert_peer (peer_row name key ip now) db).1 m
insert_peer-Covering name key ip now db m h =
    elim (Bool-cases (any (λ p. p.name == name) db.peers.rows)) [
      | inl clash ↦ rw clash h
      | inr new ↦ elim (Bool-cases (any (λ p. p.assigned_ip == ip) db.peers.rows)) [
        | inl clash ↦ rw (new, clash) h
        | inr free ↦ rw (new, free) h
      ]
    ]

insert_code-Covering :
    (device_code user_code : String) (now : ℕ) (db : Db) (m : Rules)
    → Covering db m
    → Covering (insert_code (code_row (new_device_code device_code user_code now) now) db).1 m
insert_code-Covering device_code user_code now db m h =
    elim (Bool-cases (any (λ c. c.device_code == device_code) db.device_codes.rows)) [
      | inl clash ↦ rw clash h
      | inr new ↦ elim (Bool-cases (any (λ c. c.user_code == user_code) db.device_codes.rows)) [
        | inl clash ↦ rw (new, clash) h
        | inr free ↦ rw (new, free) h
      ]
    ]

update_codes-Covering :
    (p : DeviceCodeRow → Bool) (f : DeviceCodeRow → DeviceCodeRow) (db : Db) (m : Rules)
    → Covering db m
    → Covering (update_codes p f db).1 m
update_codes-Covering p f db m h = h

delete_codes-Covering :
    (p : DeviceCodeRow → Bool) (db : Db) (m : Rules)
    → Covering db m
    → Covering (delete_codes p db).1 m
delete_codes-Covering p db m h = h

delete_peer_row-Covering :
    (name : String) (db : Db) (m : Rules) → Covering db m → Covering (delete_peer_row name db).1 m
delete_peer_row-Covering name db m h = h

ruleset covering_rules = (
  read_rules, Keeps-sql, insert_peer-Covering, insert_code-Covering, update_codes-Covering,
  delete_codes-Covering, delete_peer_row-Covering,
)

add_peer-Covering : (name key ip : String) → Keeps Covering (add_peer name key ip)
unfolding add_peer
add_peer-Covering name key ip = search covering_rules

remove_peer-Covering : (name : String) → Keeps Covering (remove_peer name)
unfolding remove_peer
remove_peer-Covering name = search covering_rules

create_device_code-Covering : Keeps Covering create_device_code
unfolding create_device_code
create_device_code-Covering = search covering_rules depth 9

approve_device_code-Covering : (code by : String) → Keeps Covering (approve_device_code code by)
unfolding approve_device_code
approve_device_code-Covering code by = search covering_rules

deny_device_code-Covering : (code by : String) → Keeps Covering (deny_device_code code by)
unfolding deny_device_code
deny_device_code-Covering code by = search covering_rules

consume_access_token-Covering : (token : String) → Keeps Covering (consume_access_token token)
unfolding consume_access_token
consume_access_token-Covering token = search covering_rules

clean_expired_device_codes-Covering : Keeps Covering clean_expired_device_codes
unfolding clean_expired_device_codes
clean_expired_device_codes-Covering = search covering_rules

Plain-Covering : Plain Covering
Plain-Covering = record {
  add_peer_keeps = add_peer-Covering;
  remove_peer_keeps = remove_peer-Covering;
  create_device_code_keeps = create_device_code-Covering;
  approve_device_code_keeps = approve_device_code-Covering;
  deny_device_code_keeps = deny_device_code-Covering;
  consume_access_token_keeps = consume_access_token-Covering;
  clean_expired_device_codes_keeps = clean_expired_device_codes-Covering;
}

module _ (s : Server) (xdp : s.xdp ≡ some tt) (env : Env)
    (answers : (t : ℕ) → env.map_error t ≡ none) where
  covering_routes :
      (w : World) → IsSound w.db → Covers (rules_of w.db) w.peer_rules → RuleRoutes Covering s env w
  covering_routes w sound h = record {
    create_rule_keeps = λ req. (create_rule-Covering s xdp env req).at w h;
    delete_rule_keeps = λ req. (delete_rule-Covering s env req xdp).at w (h, sound.rule_ids);
    delete_peer_keeps = λ req. (delete_peer-Covering env answers s xdp req).at w h;
  }

  -- From sound tables, and a map that holds no key but those of stored rules, any requests and clean-ups
  -- lead to such a map, if the map never refuses to delete a key.
  pub run-Covers :
      (es : List Event) (w : World)
      → IsSound w.db
      → Covers (rules_of w.db) w.peer_rules
      → Covers (rules_of (run s es env w).db) (run s es env w).peer_rules
  unfolding run
  run-Covers [] w sound h = h
  run-Covers (e ∷ es) w sound h =
      run-Covers es (step s e env w) (step-IsSound s e env w sound)
        (step_keeps Plain-Covering s env w h (covering_routes w sound h) e)
