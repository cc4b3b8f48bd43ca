-- ===== src/Sql/Leads.antt =====
-- What holds after a statement: what it makes of the tables where SQLite does not refuse it.
use wgxdp.Base.{ℕ, String, List}
use wgxdp.World.{Env, World, Db, PeerRuleKey}
use wgxdp.Act.{Outcome, ok, err}
use wgxdp.Act.Keeps.{Invariant}
use wgxdp.Act.Leads.{After, Leads, Leads-bind, Leads-Keeps}
use wgxdp.Sql.{check, apply, sql}
use wgxdp.Sql.Keeps.{Keeps-check}

abbrev AfterDb :
    {A : Type 0}
    → (A → Invariant)
    → Invariant
    → List (PeerRuleKey × ℕ)
    → Outcome String A × Db
    → Type 0
AfterDb K F rules (ok a, db) = K a db rules
AfterDb K F rules (err e, db) = F db rules

module _ {A : Type 0} (env : Env) {J : Invariant} {K : A → Invariant} where
  pub Leads-sql :
      (statement : Db → Outcome String A × Db)
      → ((db : Db) (rules : List (PeerRuleKey × ℕ)) → J db rules → AfterDb K J rules (statement db))
      → Leads env J K J (sql statement)
  unfolding sql apply
  Leads-sql statement post =
      Leads-bind env (check (λ env. env.sql_error))
        (Leads-Keeps env _ (Keeps-check (λ env. env.sql_error))) (λ _. apply statement)
        (λ _. record { at = λ w j. at (statement w.db) w (post w.db w.peer_rules j) })
    where
      at :
          (r : Outcome String A × Db) (w : World)
          → AfterDb K J w.peer_rules r
          → After K J ((r.0, record w { db = r.1 }))
      at (ok a, db) w h = h
      at (err e, db) w h = h
