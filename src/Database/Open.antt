-- ===== src/Database/Open.antt =====
-- `GetDatabase` and `createTables` of internal/database.go. The tables are made where they are not
-- there: those of an earlier run stay as they are.
use wgxdp.Base.{String, ◌<>◌, ◌==◌, string_eq, if◌then◌else◌}
use wgxdp.Act.{Act, pure, ◌>>=◌, ◌>>◌}
use wgxdp.Sql.{check, wrap_error}

-- `CREATE TABLE IF NOT EXISTS`
abbrev create_table : String → Act String (Unit {0})
create_table name =
    wrap_error ("could not create " <> (name <> " table: ")) (check (λ env. env.sql_error))

unfoldable pub create_tables : Act String (Unit {0})
unfolding check ◌>>=◌
create_tables = do create_table "peers"; create_table "device_codes"; create_table "firewall_rules"

abbrev pub db_path_of : String → String
db_path_of path = if path == "" then "/var/lib/wgxdp/wgxdp.db" else path

-- The path of the database that is open.
unfoldable pub get_database : String → Act String String
unfolding create_tables check ◌>>=◌
get_database path = do
  wrap_error "could not open database: " (check (λ env. env.sql_error))
  create_tables
  pure (db_path_of path)
