-- ===== src/Database/Rules.antt =====
-- The `firewall_rules` table of internal/database.go.
use wgxdp.Base.{
  ℕ, suc, String, Bool, ◌&&◌, Option, none, some, List, map, any, ◌==◌, string_eq, nat_eq,
  if◌then◌else◌,
}
use wgxdp.Base.Int.{ℤ, pos, int_eq}
use wgxdp.World.{Db, RuleRow}
use wgxdp.Act.{Act, Outcome, ok, err, pure, ask, ◌>>=◌, ◌>>◌}
use wgxdp.Sql.{select, query_row, delete, insert, sql, rows_err, wrap_error}
use wgxdp.Database.{RuleRecord}

-- `UNIQUE(src_ip, dst_ip, port, proto)`.
abbrev pub same_rule : RuleRow → RuleRow → Bool
same_rule a b =
    a.src_ip == b.src_ip && (a.dst_ip == b.dst_ip && (a.port == b.port && a.proto == b.proto))

-- `LastInsertId` is the id of the new row.
abbrev pub insert_rule : (ℕ → RuleRow) → Db → Outcome String ℤ × Db
insert_rule row db =
    if any (λ r. same_rule r (row 0)) db.firewall_rules.rows
    then (err "UNIQUE constraint failed: firewall_rules", db)
    else (
      ok (pos (suc db.firewall_rules.seq)),
      record db { firewall_rules = insert row db.firewall_rules },
    )

abbrev pub rule_row : String → String → ℤ → ℤ → ℕ → ℕ → RuleRow
rule_row src_ip dst_ip port proto now id = record {
  id = id;
  src_ip = src_ip;
  dst_ip = dst_ip;
  port = port;
  proto = proto;
  created_at = now;
}

unfoldable pub add_rule : String → String → ℤ → ℤ → Act String ℤ
add_rule src_ip dst_ip port proto = do
  now ← ask (λ env. env.now)
  sql (insert_rule (rule_row src_ip dst_ip port proto now))

abbrev pub delete_rules : (RuleRow → Bool) → Db → Outcome String (Unit {0}) × Db
delete_rules where_clause db = (
  ok tt,
  record db {
    firewall_rules = record db.firewall_rules { rows = delete where_clause db.firewall_rules.rows };
  },
)

unfoldable pub remove_rule : ℤ → Act String (Unit {0})
remove_rule id = sql (delete_rules (λ r. pos r.id == id))

abbrev pub rule_record : RuleRow → RuleRecord
rule_record r = record {
  id = pos r.id;
  src_ip = r.src_ip;
  dst_ip = r.dst_ip;
  port = r.port;
  proto = r.proto;
}

abbrev pub find_rule : ℤ → List RuleRow → Option RuleRecord
find_rule id rows = elim (query_row (λ r. pos r.id == id) rows) [
  | none ↦ none
  | some r ↦ some (rule_record r)
]

unfoldable pub get_rule_by_id : ℤ → Act String (Option RuleRecord)
get_rule_by_id id = sql (λ db. (ok (find_rule id db.firewall_rules.rows), db))

-- In the order of insertion; SQLite promises none.
unfoldable pub get_all_rules : Act String (List RuleRecord)
get_all_rules = do
  rules ←
      wrap_error "could not query rules: "
        (sql (λ db. (ok (map rule_record db.firewall_rules.rows), db)))
  rows_err
  pure rules

abbrev pub rules_from : String → List RuleRow → List RuleRecord
rules_from src_ip rows = map rule_record (select (λ r. r.src_ip == src_ip) rows)

unfoldable pub remove_rules_for_peer : String → Act String (List RuleRecord)
remove_rules_for_peer src_ip = do
  deleted ← sql (λ db. (ok (rules_from src_ip db.firewall_rules.rows), db))
  rows_err
  sql (delete_rules (λ r. r.src_ip == src_ip))
  pure deleted
