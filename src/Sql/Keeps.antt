-- ===== src/Sql/Keeps.antt =====
-- A statement keeps an invariant if it keeps it where SQLite does not refuse it.
use wgxdp.Base.{ℕ, String, Option, none, some, List}
use wgxdp.World.{Env, Db, PeerRuleKey}
use wgxdp.Act.{Outcome, ask}
use wgxdp.Act.Keeps.{Invariant, Keeps, Keeps-bind, Keeps-ask, Keeps-pure, Keeps-fail, keeps_rules}
use wgxdp.Sql.{check, checked, apply, sql, rows_err}

module _ {J : Invariant} where
  checked-Keeps : (refusal : Option String) → Keeps J (checked refusal)
  unfolding checked
  checked-Keeps none = Keeps-pure tt
  checked-Keeps (some e) = Keeps-fail e

  pub Keeps-check : (fault : Env → ℕ → Option String) → Keeps J (check fault)
  unfolding check
  Keeps-check fault = Keeps-bind (ask fault) checked (Keeps-ask fault) checked-Keeps

  pub Keeps-rows_err : Keeps J rows_err
  unfolding rows_err
  Keeps-rows_err = Keeps-check (λ env. env.sql_error)

module _ {J : Invariant} {A : Type 0} where
  apply-Keeps :
      (statement : Db → Outcome String A × Db)
      → ((db : Db) (rules : List (PeerRuleKey × ℕ)) → J db rules → J (statement db).1 rules)
      → Keeps J (apply statement)
  unfolding apply
  apply-Keeps statement keep = record { at = λ env w h. keep w.db w.peer_rules h }

  pub Keeps-sql :
      (statement : Db → Outcome String A × Db)
      → ((db : Db) (rules : List (PeerRuleKey × ℕ)) → J db rules → J (statement db).1 rules)
      → Keeps J (sql statement)
  unfolding sql
  Keeps-sql statement keep =
      Keeps-bind (check (λ env. env.sql_error)) (λ _. apply statement)
        (Keeps-check (λ env. env.sql_error)) (λ _. apply-Keeps statement keep)

  -- A query.
  pub Keeps-query : (read : Db → Outcome String A) → Keeps J (sql (λ db. (read db, db)))
  Keeps-query read = Keeps-sql (λ db. (read db, db)) (λ db rules h. h)

pub ruleset sql_rules = (keeps_rules, Keeps-check, Keeps-rows_err, Keeps-query)
