-- ===== src/Database/Peers.antt =====
-- The `peers` table of internal/database.go.
use wgxdp.Base.{ℕ, String, Option, none, some, List, map, any, ◌==◌, string_eq, if◌then◌else◌}
use wgxdp.World.{Db, PeerRow}
use wgxdp.Act.{Act, Outcome, ok, err, pure, ask, ◌>>=◌, ◌>>◌}
use wgxdp.Sql.{query_row, delete, insert, sql, rows_err, wrap_error}
use wgxdp.Database.{PeerRecord}

-- `UNIQUE` of the columns `name` and `assignedIP`.
abbrev pub insert_peer : (ℕ → PeerRow) → Db → Outcome String (Unit {0}) × Db
insert_peer row db =
    if any (λ p. p.name == (row 0).name) db.peers.rows
    then (err "UNIQUE constraint failed: peers.name", db)
    else if any (λ p. p.assigned_ip == (row 0).assigned_ip) db.peers.rows
    then (err "UNIQUE constraint failed: peers.assignedIP", db)
    else (ok tt, record db { peers = insert row db.peers })

abbrev pub peer_row : String → String → String → ℕ → ℕ → PeerRow
peer_row name public_key assigned_ip now id = record {
  id = id;
  name = name;
  public_key = public_key;
  assigned_ip = assigned_ip;
  created_at = now;
}

unfoldable pub add_peer : String → String → String → Act String (Unit {0})
add_peer name public_key assigned_ip = do
  now ← ask (λ env. env.now)
  sql (insert_peer (peer_row name public_key assigned_ip now))

abbrev pub delete_peer_row : String → Db → Outcome String (Unit {0}) × Db
delete_peer_row name db = (
  ok tt,
  record db { peers = record db.peers { rows = delete (λ p. p.name == name) db.peers.rows } },
)

unfoldable pub remove_peer : String → Act String (Unit {0})
remove_peer name = sql (delete_peer_row name)

abbrev pub peer_record : PeerRow → PeerRecord
peer_record p = record { name = p.name; public_key = p.public_key; assigned_ip = p.assigned_ip }

unfoldable pub get_all_peers : Act String (List PeerRecord)
get_all_peers = do
  peers ←
      wrap_error "could not query peers: " (sql (λ db. (ok (map peer_record db.peers.rows), db)))
  rows_err
  pure peers

abbrev pub find_peer : String → List PeerRow → Option PeerRecord
find_peer name rows = elim (query_row (λ p. p.name == name) rows) [
  | none ↦ none
  | some p ↦ some (peer_record p)
]

-- `none` stands for the nil of `sql.ErrNoRows`.
unfoldable pub get_peer_by_name : String → Act String (Option PeerRecord)
get_peer_by_name name = sql (λ db. (ok (find_peer name db.peers.rows), db))
