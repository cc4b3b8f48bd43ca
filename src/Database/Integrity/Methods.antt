-- ===== src/Database/Integrity/Methods.antt =====
-- Each method of `DB` keeps the integrity of the tables.
use wgxdp.Base.{
  ℕ, suc, ◌≤◌, ◌≡◌, inl, inr, refl, String, Bool, false, List, [], ◌∷◌, All, All-append, All-imp,
  ◌==◌, string_eq, nat_eq, any, Bool-cases, arith,
}
use wgxdp.World.{Db, RuleRow}
use wgxdp.Act.Keeps.{Keeps, keeps_rules}
use wgxdp.Sql.Keeps.{Keeps-sql}
use wgxdp.Sql.Rows.{AreDistinct-append, AreDistinct-delete, All-delete}
use wgxdp.Database.Integrity.{same_name, same_ip, same_id, IsSound, Sound}
use wgxdp.Base.Int.{ℤ}
use wgxdp.Database.Reads.{read_rules}
use wgxdp.Database.Rules.{
  same_rule, insert_rule, rule_row, delete_rules, add_rule, remove_rule, remove_rules_for_peer,
}
use wgxdp.Database.Peers.{insert_peer, peer_row, add_peer, delete_peer_row, remove_peer}

insert_peer-IsSound :
    (name key ip : String) (now : ℕ) (db : Db)
    → IsSound db
    → IsSound (insert_peer (peer_row name key ip now) db).1
insert_peer-IsSound name key ip now db h =
    elim (Bool-cases (any (λ p. p.name == name) db.peers.rows)) [
      | inl clash ↦ rw clash h
      | inr new ↦ elim (Bool-cases (any (λ p. p.assigned_ip == ip) db.peers.rows)) [
        | inl clash ↦ rw (new, clash) h
        | inr free ↦
            rw (new, free)
              (record {
                peer_names = AreDistinct-append same_name db.peers.rows _ new h.peer_names;
                peer_ips = AreDistinct-append same_ip db.peers.rows _ free h.peer_ips;
                device_codes = h.device_codes;
                user_codes = h.user_codes;
                coherent = h.coherent;
                rules = h.rules;
                rule_ids = h.rule_ids;
                ids_given = h.ids_given;
              })
      ]
    ]

pub add_peer-Sound : (name key ip : String) → Keeps Sound (add_peer name key ip)
unfolding add_peer
add_peer-Sound name key ip = search (keeps_rules, Keeps-sql, insert_peer-IsSound)

pub remove_peer-Sound : (name : String) → Keeps Sound (remove_peer name)
unfolding remove_peer
remove_peer-Sound name = Keeps-sql (delete_peer_row name) λ db rules h. record {
  peer_names = AreDistinct-delete same_name _ db.peers.rows h.peer_names;
  peer_ips = AreDistinct-delete same_ip _ db.peers.rows h.peer_ips;
  device_codes = h.device_codes;
  user_codes = h.user_codes;
  coherent = h.coherent;
  rules = h.rules;
  rule_ids = h.rule_ids;
  ids_given = h.ids_given;
}

-- A new rule has the next id, which no row has.
id_new :
    (seq : ℕ) (row : RuleRow) (rows : List RuleRow)
    → row.id ≡ suc seq
    → All (λ r. r.id ≤ seq) rows
    → any (λ r. same_id r row) rows ≡ false
id_new seq row [] e h = refl
id_new seq row (r ∷ rows) e h = ground (arith, id_new seq row rows e h.1)

insert_rule-IsSound :
    (src dst : String) (port proto : ℤ) (now : ℕ) (db : Db)
    → IsSound db
    → IsSound (insert_rule (rule_row src dst port proto now) db).1
insert_rule-IsSound src dst port proto now db h =
    elim (Bool-cases
      (any (λ r. same_rule r (rule_row src dst port proto now 0)) db.firewall_rules.rows)) [
        | inl clash ↦ rw clash h
        | inr new ↦ rw new (record {
          peer_names = h.peer_names;
          peer_ips = h.peer_ips;
          device_codes = h.device_codes;
          user_codes = h.user_codes;
          coherent = h.coherent;
          rules = AreDistinct-append same_rule db.firewall_rules.rows _ new h.rules;
          rule_ids =
              AreDistinct-append same_id db.firewall_rules.rows _
                (id_new db.firewall_rules.seq
                  (rule_row src dst port proto now (suc db.firewall_rules.seq))
                  db.firewall_rules.rows refl h.ids_given)
                h.rule_ids;
          ids_given =
              All-append _ db.firewall_rules.rows _
                (All-imp _ _ db.firewall_rules.rows (λ r le. omega (arith, le)) h.ids_given)
                (omega arith);
        })
      ]

delete_rules-IsSound : (p : RuleRow → Bool) (db : Db) → IsSound db → IsSound (delete_rules p db).1
delete_rules-IsSound p db h = record {
  peer_names = h.peer_names;
  peer_ips = h.peer_ips;
  device_codes = h.device_codes;
  user_codes = h.user_codes;
  coherent = h.coherent;
  rules = AreDistinct-delete same_rule p db.firewall_rules.rows h.rules;
  rule_ids = AreDistinct-delete same_id p db.firewall_rules.rows h.rule_ids;
  ids_given = All-delete _ p db.firewall_rules.rows h.ids_given;
}

ruleset method_rules = (read_rules, Keeps-sql, insert_rule-IsSound, delete_rules-IsSound)

pub add_rule-Sound : (src dst : String) (port proto : ℤ) → Keeps Sound (add_rule src dst port proto)
unfolding add_rule
add_rule-Sound src dst port proto = search method_rules

pub remove_rule-Sound : (id : ℤ) → Keeps Sound (remove_rule id)
unfolding remove_rule
remove_rule-Sound id = search method_rules

pub remove_rules_for_peer-Sound : (src : String) → Keeps Sound (remove_rules_for_peer src)
unfolding remove_rules_for_peer
remove_rules_for_peer-Sound src = search method_rules
