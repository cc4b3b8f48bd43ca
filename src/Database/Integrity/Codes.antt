-- ===== src/Database/Integrity/Codes.antt =====
-- The methods on device codes keep the integrity of the tables.
use mathlib.Core.Bool.{false≢true}
use wgxdp.Base.{
  ℕ, ◌≡◌, ◌≢◌, inl, inr, refl, sym, ◌∙◌, String, Bool, true, none, List, All, All-append, ◌==◌,
  ==_iff, string_eq, any, Bool-cases, arith,
}
use wgxdp.World.{Db, DeviceCodeRow}
use wgxdp.Act.Keeps.{Keeps}
use wgxdp.Sql.{delete, update}
use wgxdp.Sql.Keeps.{Keeps-sql}
use wgxdp.Sql.Rows.{
  AreDistinct, AreDistinct-append, AreDistinct-delete, AreDistinct-update, All-delete, All-update,
}
use wgxdp.Database.Reads.{read_rules}
use wgxdp.Database.Codes.{
  insert_code, code_row, with_rows, update_codes, delete_codes, is_pending_code, approved, denied,
  new_device_code, create_device_code, approve_device_code, deny_device_code, consume_access_token,
  clean_expired_device_codes,
}
use wgxdp.Database.Integrity.{same_device_code, same_user_code, IsCoherent, IsSound, Sound}

with_rows-IsSound :
    (db : Db) (rows : List DeviceCodeRow)
    → AreDistinct same_device_code rows
    → AreDistinct same_user_code rows
    → All IsCoherent rows
    → IsSound db
    → IsSound (with_rows db rows)
with_rows-IsSound db rows device user coherent h = record {
  peer_names = h.peer_names;
  peer_ips = h.peer_ips;
  device_codes = device;
  user_codes = user;
  coherent = coherent;
  rules = h.rules;
  rule_ids = h.rule_ids;
  ids_given = h.ids_given;
}

insert_code-IsSound :
    (device_code user_code : String) (now : ℕ) (db : Db)
    → IsSound db
    → IsSound (insert_code (code_row (new_device_code device_code user_code now) now) db).1
insert_code-IsSound device_code user_code now db h =
    elim (Bool-cases (any (λ c. c.device_code == device_code) db.device_codes.rows)) [
      | inl clash ↦ rw clash h
      | inr new ↦ elim (Bool-cases (any (λ c. c.user_code == user_code) db.device_codes.rows)) [
        | inl clash ↦ rw (new, clash) h
        | inr free ↦
            rw (new, free)
              (record {
                peer_names = h.peer_names;
                peer_ips = h.peer_ips;
                device_codes =
                    AreDistinct-append same_device_code db.device_codes.rows _ new h.device_codes;
                user_codes =
                    AreDistinct-append same_user_code db.device_codes.rows _ free h.user_codes;
                coherent =
                    All-append IsCoherent db.device_codes.rows _ h.coherent (inl (refl, refl), tt);
                rules = h.rules;
                rule_ids = h.rule_ids;
                ids_given = h.ids_given;
              })
      ]
    ]

approved-IsCoherent : (token by : String) (c : DeviceCodeRow) → IsCoherent (approved token by c)
approved-IsCoherent token by c = inr (inr (token, refl, refl))

pub approved-ne-pending : ◌≢◌ {A = String} "approved" "pending"
approved-ne-pending e = false≢true ((==_iff "approved" "pending").1 e)

denied-IsCoherent :
    (user_code by : String) (c : DeviceCodeRow)
    → IsCoherent c
    → is_pending_code user_code c ≡ true
    → IsCoherent (denied by c)
denied-IsCoherent user_code by c h p = inr (inl (refl, no_token h))
  where
    pending : c.status ≡ "pending"
    pending = (==_iff c.status "pending").0 (ground arith)

    no_token : IsCoherent c → c.access_token ≡ none
    no_token (inl a) = a.1
    no_token (inr (inl b)) = b.1
    no_token (inr (inr (token, s, t))) = absurd (approved-ne-pending (sym s ∙ pending))

update_codes-IsSound :
    (p : DeviceCodeRow → Bool) (f : DeviceCodeRow → DeviceCodeRow) (db : Db)
    → ((c : DeviceCodeRow) → (f c).device_code ≡ c.device_code)
    → ((c : DeviceCodeRow) → (f c).user_code ≡ c.user_code)
    → ((c : DeviceCodeRow) → IsCoherent c → p c ≡ true → IsCoherent (f c))
    → IsSound db
    → IsSound (update_codes p f db).1
update_codes-IsSound p f db device user coherent h =
    with_rows-IsSound db (update p f db.device_codes.rows)
      (AreDistinct-update same_device_code p f (λ a b. rw device) (λ a b. rw device)
        db.device_codes.rows h.device_codes)
      (AreDistinct-update same_user_code p f (λ a b. rw user) (λ a b. rw user) db.device_codes.rows
        h.user_codes)
      (All-update IsCoherent p f coherent db.device_codes.rows h.coherent) h

approve-IsSound :
    (user_code token by : String) (db : Db)
    → IsSound db
    → IsSound (update_codes (is_pending_code user_code) (approved token by) db).1
approve-IsSound user_code token by db =
    update_codes-IsSound (is_pending_code user_code) (approved token by) db (λ c. refl) (λ c. refl)
      (λ c _ _. approved-IsCoherent token by c)

deny-IsSound :
    (user_code by : String) (db : Db)
    → IsSound db
    → IsSound (update_codes (is_pending_code user_code) (denied by) db).1
deny-IsSound user_code by db =
    update_codes-IsSound (is_pending_code user_code) (denied by) db (λ c. refl) (λ c. refl)
      (denied-IsCoherent user_code by)

delete_codes-IsSound :
    (p : DeviceCodeRow → Bool) (db : Db) → IsSound db → IsSound (delete_codes p db).1
delete_codes-IsSound p db h =
    with_rows-IsSound db (delete p db.device_codes.rows)
      (AreDistinct-delete same_device_code p db.device_codes.rows h.device_codes)
      (AreDistinct-delete same_user_code p db.device_codes.rows h.user_codes)
      (All-delete IsCoherent p db.device_codes.rows h.coherent) h

ruleset code_rules = (
  read_rules, Keeps-sql, insert_code-IsSound, approve-IsSound, deny-IsSound, delete_codes-IsSound,
)

pub create_device_code-Sound : Keeps Sound create_device_code
unfolding create_device_code
create_device_code-Sound = search code_rules depth 9

pub approve_device_code-Sound :
    (user_code by : String) → Keeps Sound (approve_device_code user_code by)
unfolding approve_device_code
approve_device_code-Sound user_code by = search code_rules

pub deny_device_code-Sound : (user_code by : String) → Keeps Sound (deny_device_code user_code by)
unfolding deny_device_code
deny_device_code-Sound user_code by = search code_rules

pub consume_access_token-Sound : (token : String) → Keeps Sound (consume_access_token token)
unfolding consume_access_token
consume_access_token-Sound token = search code_rules

pub clean_expired_device_codes-Sound : Keeps Sound clean_expired_device_codes
unfolding clean_expired_device_codes
clean_expired_device_codes-Sound = search code_rules
