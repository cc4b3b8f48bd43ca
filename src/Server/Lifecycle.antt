-- ===== src/Server/Lifecycle.antt =====
-- The life of a device code while the server runs.
use wgxdp.Base.{ℕ, ◌≡◌, List}
use wgxdp.Base.Int.{ℤ}
use wgxdp.World.{Env, World, Db, Table, DeviceCodeRow, RuleRow}
use wgxdp.Act.Keeps.{Keeps}
use wgxdp.Database.Lifecycle.{
  IsLater, Later, IsLater-refl, create_device_code-Later, approve_device_code-Later,
  deny_device_code-Later, consume_access_token-Later, clean_expired_device_codes-Later,
}
use wgxdp.Server.{Server}
use wgxdp.Server.Calls.{Event, run}
use wgxdp.Server.Serving.{Kept, run-Keeps}
use wgxdp.Firewall.Keeps.{add_peer_rule-Keeps, remove_peer_rule-Keeps}
use wgxdp.Base.{Bool, arith, String}
use wgxdp.Sql.Keeps.{Keeps-sql}
use wgxdp.Database.Reads.{read_rules}
use wgxdp.Database.Rules.{
  insert_rule, rule_row, delete_rules, add_rule, remove_rule, remove_rules_for_peer,
}
use wgxdp.Database.Peers.{insert_peer, peer_row, add_peer, delete_peer_row, remove_peer}

insert_peer-codes :
    (name key ip : String) (now : ℕ) (db : Db)
    → (insert_peer (peer_row name key ip now) db).1.device_codes ≡ db.device_codes
insert_peer-codes name key ip now db = ground arith

insert_rule-codes :
    (src dst : String) (port proto : ℤ) (now : ℕ) (db : Db)
    → (insert_rule (rule_row src dst port proto now) db).1.device_codes ≡ db.device_codes
insert_rule-codes src dst port proto now db = ground arith

module _ (old : Table DeviceCodeRow) where
  insert_peer-Later :
      (name key ip : String) (now : ℕ) (db : Db)
      → IsLater old db.device_codes
      → IsLater old (insert_peer (peer_row name key ip now) db).1.device_codes
  insert_peer-Later name key ip now db h = rw (insert_peer-codes name key ip now db) h

  insert_rule-Later :
      (src dst : String) (port proto : ℤ) (now : ℕ) (db : Db)
      → IsLater old db.device_codes
      → IsLater old (insert_rule (rule_row src dst port proto now) db).1.device_codes
  insert_rule-Later src dst port proto now db h = rw (insert_rule-codes src dst port proto now db) h

  add_peer-Later : (name key ip : String) → Keeps (Later old) (add_peer name key ip)
  unfolding add_peer
  add_peer-Later name key ip = search (read_rules, Keeps-sql, insert_peer-Later)

  remove_peer-Later : (name : String) → Keeps (Later old) (remove_peer name)
  unfolding remove_peer
  remove_peer-Later name = Keeps-sql (delete_peer_row name) (λ db rules h. h)

  add_rule-Later :
      (src dst : String) (port proto : ℤ) → Keeps (Later old) (add_rule src dst port proto)
  unfolding add_rule
  add_rule-Later src dst port proto = search (read_rules, Keeps-sql, insert_rule-Later)

  delete_rules-Later :
      (p : RuleRow → Bool) (db : Db)
      → IsLater old db.device_codes
      → IsLater old (delete_rules p db).1.device_codes
  delete_rules-Later p db h = h

  remove_rule-Later : (id : ℤ) → Keeps (Later old) (remove_rule id)
  unfolding remove_rule
  remove_rule-Later id = search (read_rules, Keeps-sql)

  remove_rules_for_peer-Later : (src : String) → Keeps (Later old) (remove_rules_for_peer src)
  unfolding remove_rules_for_peer
  remove_rules_for_peer-Later src = search (read_rules, Keeps-sql)

  Kept-Later : Kept (Later old)
  Kept-Later = record {
    plain = record {
      add_peer_keeps = add_peer-Later;
      remove_peer_keeps = remove_peer-Later;
      create_device_code_keeps = create_device_code-Later old;
      approve_device_code_keeps = approve_device_code-Later old;
      deny_device_code_keeps = deny_device_code-Later old;
      consume_access_token_keeps = consume_access_token-Later old;
      clean_expired_device_codes_keeps = clean_expired_device_codes-Later old;
    };
    add_rule_keeps = add_rule-Later;
    remove_rule_keeps = remove_rule-Later;
    remove_rules_for_peer_keeps = remove_rules_for_peer-Later;
    add_peer_rule_keeps = add_peer_rule-Keeps (λ db. IsLater old db.device_codes);
    remove_peer_rule_keeps = remove_peer_rule-Keeps (λ db. IsLater old db.device_codes);
  }

-- After any requests and clean-ups, each device code has an id that had not been given at the start,
-- or is one of the start's, either unchanged or approved or denied once from pending, with its
-- codes, its interval and its expiry as they were; whatever the outside answers.
pub run-IsLater :
    (s : Server) (es : List Event) (env : Env) (w : World)
    → IsLater w.db.device_codes (run s es env w).db.device_codes
run-IsLater s es env w =
    run-Keeps (Kept-Later w.db.device_codes) s es env w (IsLater-refl w.db.device_codes)
