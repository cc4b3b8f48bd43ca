-- ===== src/Database/Tokens.antt =====
-- An access token is good for one join.
use wgxdp.Base.{ℕ, ◌≤◌, ◌≡◌, ap, ◌∙◌, String, Bool, false, string_eq, nat_eq, any, arith}
use wgxdp.World.{Env, World, DeviceCodeRow}
use wgxdp.Act.{ok, ◌>>=◌}
use wgxdp.Sql.{sql, delete}
use wgxdp.Sql.Rows.{affected-any_iff, any-delete_self, any-false_mono}
use wgxdp.Database.Codes.{is_valid_token, consume_access_token, with_rows}

-- What a call that has returned has found, and done.
pub record Consumed (token : String) (now : ℕ) (w : World) (valid : Bool) (w' : World)
    : Type 0 where
  pub valid_is : valid ≡ any (is_valid_token token now) w.db.device_codes.rows
  pub db_is : w'.db ≡ with_rows w.db (delete (is_valid_token token now) w.db.device_codes.rows)
  pub same_rules : w'.peer_rules ≡ w.peer_rules
  pub same_link : w'.link ≡ w.link

-- A call that returns says whether a code was approved with the token and had not expired, and has
-- deleted exactly such codes.
pub consume_access_token-Consumed :
    (token : String) (env : Env) (w : World) {valid : Bool} {w' : World}
    → consume_access_token token env w ≡ (ok valid, w')
    → Consumed token (env.now w.tick) w valid w'
unfolding consume_access_token sql ◌>>=◌
consume_access_token-Consumed token env w e =
    ground (arith, affected-any_iff (is_valid_token token (env.now w.tick)) w.db.device_codes.rows)

valid_later :
    (token : String) (now later : ℕ) (c : DeviceCodeRow)
    → now ≤ later
    → is_valid_token token now c ≡ false
    → is_valid_token token later c ≡ false
valid_later token now later c le h = ground arith

-- A token that a call has found valid, or not, is not valid in a call after it, if the clock does not
-- run backwards.
pub consume_access_token_once :
    (token : String) (env : Env) (w : World) {first second : Bool} {w' w'' : World}
    → env.now w.tick ≤ env.now w'.tick
    → consume_access_token token env w ≡ (ok first, w')
    → consume_access_token token env w' ≡ (ok second, w'')
    → second ≡ false
consume_access_token_once token env w {w' = w'} le e f =
    let one = consume_access_token-Consumed token env w e in
    let two = consume_access_token-Consumed token env w' f in
    two.valid_is
    ∙ any-false_mono (is_valid_token token (env.now w.tick))
        (is_valid_token token (env.now w'.tick)) w'.db.device_codes.rows
        (λ c. valid_later token (env.now w.tick) (env.now w'.tick) c le)
        (ap (λ db. any (is_valid_token token (env.now w.tick)) db.device_codes.rows) one.db_is
          ∙ any-delete_self (is_valid_token token (env.now w.tick)) w.db.device_codes.rows)
