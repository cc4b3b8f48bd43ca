-- ===== src/Sql.antt =====
-- The statements of internal/database.go, as functions on the rows of a table. A `WHERE` clause is a
-- test; `RowsAffected` is a count; a row is inserted at the end, under the next id.
pub mod Rows
pub mod Keeps
pub mod Past
pub mod Leads
use wgxdp.Base.{
  ℕ, suc, String, Bool, Option, none, some, List, [], ◌∷◌, ◌++◌, if◌then◌else◌, head?, ◌<>◌,
}
use wgxdp.World.{Env, World, Db, Table}
use wgxdp.Act.{Act, Outcome, ok, err, pure, fail, ask, on_error, ◌>>=◌, ◌>>◌}

module _ {ℓ} {R : Type ℓ} where
  abbrev pub select : (R → Bool) → List R → List R
  select p [] = []
  select p (r ∷ rs) = if p r then r ∷ select p rs else select p rs

  -- `QueryRow`: the first row, or `sql.ErrNoRows`.
  abbrev pub query_row : (R → Bool) → List R → Option R
  query_row p rs = head? (select p rs)

  abbrev pub delete : (R → Bool) → List R → List R
  delete p [] = []
  delete p (r ∷ rs) = if p r then delete p rs else r ∷ delete p rs

  abbrev pub update : (R → Bool) → (R → R) → List R → List R
  update p f [] = []
  update p f (r ∷ rs) = (if p r then f r else r) ∷ update p f rs

  abbrev pub affected : (R → Bool) → List R → ℕ
  affected p [] = 0
  affected p (r ∷ rs) = if p r then suc (affected p rs) else affected p rs

  abbrev pub insert : (ℕ → R) → Table R → Table R
  insert row t = record { rows = t.rows ++ row (suc t.seq) ∷ []; seq = suc t.seq }

unfoldable pub checked : Option String → Act String (Unit {0})
checked none = pure tt
checked (some e) = fail e

-- The outside's refusal of a call, if there is one.
unfoldable pub check : (Env → ℕ → Option String) → Act String (Unit {0})
unfolding checked
check fault = do refusal ← ask fault; checked refusal

unfoldable pub apply : {A : Type 0} → (Db → Outcome String A × Db) → Act String A
apply statement env w = let (r, db') = statement w.db in (r, record w { db = db' })

-- One statement: the driver may refuse it, and then it has changed nothing.
unfoldable pub sql : {A : Type 0} → (Db → Outcome String A × Db) → Act String A
unfolding check apply
sql statement = do check (λ env. env.sql_error); apply statement

-- `rows.Err()` after a loop over `rows.Next()`.
unfoldable pub rows_err : Act String (Unit {0})
unfolding check
rows_err = check (λ env. env.sql_error)

-- `fmt.Errorf("…: %w", err)`
abbrev pub wrap_error : {A : Type 0} → String → Act String A → Act String A
wrap_error what m = on_error m (λ e. fail (what <> e))
