-- ===== src/Database/Codes.antt =====
-- The `device_codes` table of internal/database.go.
use Prim.Native.String.{slice, len}
use wgxdp.Base.{
  ℕ, ◌+◌, String, ◌<>◌, Bool, false, ◌&&◌, Option, none, some, List, any, ltb, ◌==◌, string_eq,
  nat_eq, if◌then◌else◌,
}
use wgxdp.World.{Db, DeviceCodeRow}
use wgxdp.Act.{Act, Outcome, ok, err, pure, fail, ask, ◌>>=◌, ◌>>◌}
use wgxdp.Sql.{query_row, delete, update, affected, insert, sql, wrap_error}
use wgxdp.Database.{DeviceCode, device_code_expiry, device_code_poll_interval}
use wgxdp.Database.Random.{generate_random_hex, generate_user_code}

abbrev pub insert_code : (ℕ → DeviceCodeRow) → Db → Outcome String (Unit {0}) × Db
insert_code row db =
    if any (λ c. c.device_code == (row 0).device_code) db.device_codes.rows
    then (err "UNIQUE constraint failed: device_codes.device_code", db)
    else if any (λ c. c.user_code == (row 0).user_code) db.device_codes.rows
    then (err "UNIQUE constraint failed: device_codes.user_code", db)
    else (ok tt, record db { device_codes = insert row db.device_codes })

-- The columns that the statement leaves out have their defaults: a NULL token, no approver.
abbrev pub code_row : DeviceCode → ℕ → ℕ → DeviceCodeRow
code_row dc now id = record {
  id = id;
  device_code = dc.device_code;
  user_code = dc.user_code;
  expires_at = dc.expires_at;
  interval = dc.interval;
  status = dc.status;
  access_token = none;
  approved_by = "";
  created_at = now;
}

abbrev pub format_user_code : String → String
format_user_code code = slice code 0 4 <> ("-" <> slice code 4 (len code))

abbrev pub new_device_code : String → String → ℕ → DeviceCode
new_device_code device_code user_code now = record {
  device_code = device_code;
  user_code = user_code;
  expires_at = now + device_code_expiry;
  interval = device_code_poll_interval;
  status = "pending";
  access_token = "";
}

unfoldable pub create_device_code : Act String DeviceCode
create_device_code = do
  device_code ← wrap_error "could not generate device code: " (generate_random_hex 32)
  letters ← wrap_error "could not generate user code: " (generate_user_code 8)
  now ← ask (λ env. env.now)
  let dc = new_device_code device_code (format_user_code letters) now
  wrap_error "could not insert device code: " (sql (insert_code (code_row dc now)))
  pure dc

-- `COALESCE(access_token, '')`
abbrev pub coalesce : Option String → String
coalesce none = ""
coalesce (some token) = token

abbrev pub device_code_of : DeviceCodeRow → DeviceCode
device_code_of c = record {
  device_code = c.device_code;
  user_code = c.user_code;
  expires_at = c.expires_at;
  interval = c.interval;
  status = c.status;
  access_token = coalesce c.access_token;
}

abbrev pub find_code : (DeviceCodeRow → Bool) → List DeviceCodeRow → Option DeviceCode
find_code where_clause rows = elim (query_row where_clause rows) [
  | none ↦ none
  | some c ↦ some (device_code_of c)
]

unfoldable pub get_device_code_by_user_code : String → Act String (Option DeviceCode)
get_device_code_by_user_code user_code =
    wrap_error "could not query device code: "
      (sql (λ db. (ok (find_code (λ c. c.user_code == user_code) db.device_codes.rows), db)))

unfoldable pub get_device_code_by_device_code : String → Act String (Option DeviceCode)
get_device_code_by_device_code device_code =
    wrap_error "could not query device code: "
      (sql (λ db. (ok (find_code (λ c. c.device_code == device_code) db.device_codes.rows), db)))

abbrev pub with_rows : Db → List DeviceCodeRow → Db
with_rows db rows = record db { device_codes = record db.device_codes { rows = rows } }

-- An `UPDATE` or a `DELETE` with its `RowsAffected`.
abbrev pub update_codes :
    (DeviceCodeRow → Bool) → (DeviceCodeRow → DeviceCodeRow) → Db → Outcome String ℕ × Db
update_codes where_clause set_clause db = (
  ok (affected where_clause db.device_codes.rows),
  with_rows db (update where_clause set_clause db.device_codes.rows),
)

abbrev pub delete_codes : (DeviceCodeRow → Bool) → Db → Outcome String ℕ × Db
delete_codes where_clause db = (
  ok (affected where_clause db.device_codes.rows),
  with_rows db (delete where_clause db.device_codes.rows),
)

abbrev pub is_pending_code : String → DeviceCodeRow → Bool
is_pending_code user_code c = c.user_code == user_code && c.status == "pending"

abbrev pub approved : String → String → DeviceCodeRow → DeviceCodeRow
approved token by c = record c { status = "approved"; access_token = some token; approved_by = by }

abbrev pub denied : String → DeviceCodeRow → DeviceCodeRow
denied by c = record c { status = "denied"; approved_by = by }

unfoldable pub approve_device_code : String → String → Act String String
approve_device_code user_code approved_by = do
  token ← wrap_error "could not generate access token: " (generate_random_hex 32)
  rows ←
      wrap_error "could not approve device code: "
        (sql (update_codes (is_pending_code user_code) (approved token approved_by)))
  if rows == 0 then fail "device code not found or not pending" else pure token

unfoldable pub deny_device_code : String → String → Act String (Unit {0})
deny_device_code user_code denied_by = do
  sql (update_codes (is_pending_code user_code) (denied denied_by))
  pure tt

-- A comparison with NULL is not true.
abbrev pub has_token : String → DeviceCodeRow → Bool
has_token token c = elim c.access_token [ none ↦ false | some t ↦ t == token ]

abbrev pub is_valid_token : String → ℕ → DeviceCodeRow → Bool
is_valid_token token now c = has_token token c && (c.status == "approved" && ltb now c.expires_at)

unfoldable pub consume_access_token : String → Act String Bool
consume_access_token token = do
  now ← ask (λ env. env.now)
  rows ←
      wrap_error "could not consume access token: " (sql (delete_codes (is_valid_token token now)))
  pure (ltb 0 rows)

unfoldable pub clean_expired_device_codes : Act String (Unit {0})
clean_expired_device_codes = do
  now ← ask (λ env. env.now)
  sql (delete_codes (λ c. ltb c.expires_at now))
  pure tt
