-- ===== src/Database/Approval.antt =====
-- What ApproveDeviceCode of internal/database.go does to the codes, row by row.
use wgxdp.Base.{
  ◌≡◌, refl, ap, ◌∙◌, String, true, false, some, List, [], ◌∷◌, ◌++◌, any, All, ==_iff, string_eq,
  arith, inl, inr, Bool-cases,
}
use wgxdp.World.{Env, World, DeviceCodeRow}
use wgxdp.Act.{ok, ◌>>=◌}
use wgxdp.Sql
use wgxdp.Sql.{update, check, checked, sql}
use wgxdp.Sql.Rows.{affected-any_iff, AreDistinct}
use wgxdp.Database.Random.{generate_random_hex, read_random}
use wgxdp.Database.Codes.{approve_device_code, is_pending_code, approved, with_rows}
use wgxdp.Database.Integrity.{IsSound, same_user_code}

-- One row was pending under the user code, and is approved now, with the token; the rows before and
-- after it, the other tables, the map and the interface are as they were.
pub record Granted (user_code by token : String) (w w' : World) : Type 0 where
  pub before : List DeviceCodeRow
  pub row : DeviceCodeRow
  pub after : List DeviceCodeRow
  pub was : w.db.device_codes.rows ≡ before ++ row ∷ after
  pub asked : row.user_code ≡ user_code
  pub was_pending : row.status ≡ "pending"
  pub is :
      w'.db.device_codes.rows
      ≡ before
        ++ record row { status = "approved"; access_token = some token; approved_by = by } ∷ after
  pub same_seq : w'.db.device_codes.seq ≡ w.db.device_codes.seq
  pub same_peers : w'.db.peers ≡ w.db.peers
  pub same_stored_rules : w'.db.firewall_rules ≡ w.db.firewall_rules
  pub same_rules : w'.peer_rules ≡ w.peer_rules
  pub same_link : w'.link ≡ w.link

module _ (user_code : String) (f : DeviceCodeRow → DeviceCodeRow) where
  -- A row with another user code is not updated.
  update_others :
      (c : DeviceCodeRow) (rows : List DeviceCodeRow)
      → c.user_code ≡ user_code
      → All (λ d. same_user_code c d ≡ false) rows
      → update (is_pending_code user_code) f rows ≡ rows
  update_others c [] own apart = refl
  update_others c (d ∷ rows) own apart = ground (
    arith,
    ==_iff c.user_code d.user_code,
    ==_iff d.user_code user_code,
    update_others c rows own apart.1,
  )

  update_one :
      (rows : List DeviceCodeRow)
      → AreDistinct same_user_code rows
      → any (is_pending_code user_code) rows ≡ true
      → (before : List DeviceCodeRow) × (c : DeviceCodeRow) × (after : List DeviceCodeRow) × (rows
          ≡ before ++ c ∷ after)
        × (c.user_code ≡ user_code)
        × (c.status ≡ "pending")
        × (update (is_pending_code user_code) f rows ≡ before ++ f c ∷ after)
  update_one [] distinct pending = cc
  update_one (c ∷ rows) distinct pending = elim (Bool-cases (is_pending_code user_code c)) [
    | inl hit ↦
        let own : c.user_code ≡ user_code = (==_iff c.user_code user_code).0 (ground arith) in
        let status : c.status ≡ "pending" = (==_iff c.status "pending").0 (ground arith) in
        ([], c, rows, refl, own, status, rw (hit, update_others c rows own distinct.0) refl)
    | inr miss ↦
        let (before, d, after, was, own, status, is) = update_one rows distinct.1 (ground arith) in
        (c ∷ before, d, after, ap (λ rs. c ∷ rs) was, own, status, rw miss (ap (λ rs. c ∷ rs) is))
  ]

approve_device_code-update :
    (user_code by : String) (env : Env) (w : World) {token : String} {w' : World}
    → approve_device_code user_code by env w ≡ (ok token, w')
    → (any (is_pending_code user_code) w.db.device_codes.rows ≡ true)
      × (w'.db
          ≡ with_rows w.db
              (update (is_pending_code user_code) (approved token by) w.db.device_codes.rows))
      × (w'.peer_rules ≡ w.peer_rules)
      × (w'.link ≡ w.link)
unfolding approve_device_code generate_random_hex read_random sql check checked Sql.apply ◌>>=◌
approve_device_code-update user_code by env w e =
    ground (arith, affected-any_iff (is_pending_code user_code) w.db.device_codes.rows)

-- On sound tables, an approval that returns a token has found one pending row with the user code, and has
-- made it approved, with the token and the user who approved it; every other row is as it was and where
-- it was, and so are the other tables, the map and the interface.
pub approve_device_code-Granted :
    (user_code by : String) (env : Env) (w : World) {token : String} {w' : World}
    → IsSound w.db
    → approve_device_code user_code by env w ≡ (ok token, w')
    → Granted user_code by token w w'
approve_device_code-Granted user_code by env w {token = token} sound e =
    let (pending, db, rules, link) = approve_device_code-update user_code by env w e in
    let (before, c, after, was, own, status, is) =
      update_one user_code (approved token by) w.db.device_codes.rows sound.user_codes pending in
    record {
      before = before;
      row = c;
      after = after;
      was = was;
      asked = own;
      was_pending = status;
      is = ap (λ db. db.device_codes.rows) db ∙ is;
      same_seq = ap (λ db. db.device_codes.seq) db;
      same_peers = ap (λ db. db.peers) db;
      same_stored_rules = ap (λ db. db.firewall_rules) db;
      same_rules = rules;
      same_link = link;
    }
