-- ===== src/Database/Lifecycle.antt =====
-- The life of a device code: it is made pending, is approved or denied once, and is deleted.
use mathlib.Core.Bool.{false≢true}
use mathlib.Core.List.{Mem, mem-cons_self, mem-cons_of_mem}
use mathlib.Core.Logic.{◌≢◌}
use wgxdp.Base.{
  ℕ, ◌≤◌, ◌<◌, ◌≡◌, ◌⊎◌, inl, inr, refl, subst, String, Bool, List, [], ◌∷◌, All, All-append, ◌==◌,
  ==_iff, string_eq, nat_eq, any, Bool-cases, arith,
}
use wgxdp.World.{Db, Table, DeviceCodeRow}
use wgxdp.Act.Keeps.{Invariant, Keeps}
use wgxdp.Sql.Keeps.{Keeps-sql}
use wgxdp.Sql.Rows.{All-delete, All-update}
use wgxdp.Database.Reads.{read_rules}
use wgxdp.Database.Integrity.Codes.{approved-ne-pending}
use wgxdp.Database.Codes.{
  insert_code, code_row, new_device_code, update_codes, delete_codes, is_pending_code, approved,
  denied, create_device_code, approve_device_code, deny_device_code, consume_access_token,
  clean_expired_device_codes,
}

-- One decision on a code.
pub data Decides (c : DeviceCodeRow) : DeviceCodeRow → Type 0 where
  approves : (token by : String) → c.status ≡ "pending" → Decides c (approved token by c)
  denies : (by : String) → c.status ≡ "pending" → Decides c (denied by c)

pub data Becomes (c d : DeviceCodeRow) : Type 0 where
  stays : c ≡ d → Becomes c d
  decided : Decides c d → Becomes c d

-- A row of later tables: it has an id that had not been given, or it comes from a row of then.
abbrev pub Descends : Table DeviceCodeRow → DeviceCodeRow → Type 0
Descends old d = (old.seq < d.id) ⊎ ((c : DeviceCodeRow) × Mem c old.rows × Becomes c d)

pub record IsLater (old new : Table DeviceCodeRow) : Type 0 where
  pub seq : old.seq ≤ new.seq
  pub rows : All (Descends old) new.rows

abbrev pub Later : Table DeviceCodeRow → Invariant
Later old db _ = IsLater old db.device_codes

denied-ne-pending : ◌≢◌ {A = String} "denied" "pending"
denied-ne-pending e = false≢true ((==_iff "denied" "pending").1 e)

-- What has been decided is not pending.
still_pending : {c d : DeviceCodeRow} → Becomes c d → d.status ≡ "pending" → c ≡ d
still_pending (stays e) p = e
still_pending (decided (approves token by q)) p = absurd (approved-ne-pending p)
still_pending (decided (denies by q)) p = absurd (denied-ne-pending p)

decide-Descends :
    (old : Table DeviceCodeRow) (f : DeviceCodeRow → DeviceCodeRow)
    → ((c : DeviceCodeRow) → (f c).id ≡ c.id)
    → ((c : DeviceCodeRow) → c.status ≡ "pending" → Decides c (f c))
    → (d : DeviceCodeRow) → Descends old d
    → d.status ≡ "pending"
    → Descends old (f d)
decide-Descends old f ids decide d (inl new) p = inl (rw ids new)
decide-Descends old f ids decide d (inr (c, m, b)) p =
    inr (d, subst (λ x. Mem x old.rows) (still_pending b p) m, decided (decide d p))

update-Later :
    (old : Table DeviceCodeRow) (code : String) (f : DeviceCodeRow → DeviceCodeRow) (db : Db)
    → ((c : DeviceCodeRow) → (f c).id ≡ c.id)
    → ((c : DeviceCodeRow) → c.status ≡ "pending" → Decides c (f c))
    → IsLater old db.device_codes
    → IsLater old (update_codes (is_pending_code code) f db).1.device_codes
update-Later old code f db ids decide h = record {
  seq = h.seq;
  rows =
      All-update (Descends old) (is_pending_code code) f
        (λ d des p.
          decide-Descends old f ids decide d des ((==_iff d.status "pending").0 (ground arith)))
        db.device_codes.rows h.rows;
}

module _ (old : Table DeviceCodeRow) where
  insert_code-Later :
      (device_code user_code : String) (now : ℕ) (db : Db)
      → IsLater old db.device_codes
      → IsLater old
          (insert_code (code_row (new_device_code device_code user_code now) now) db).1.device_codes
  insert_code-Later device_code user_code now db h =
      elim (Bool-cases (any (λ c. c.device_code == device_code) db.device_codes.rows)) [
        | inl clash ↦ rw clash h
        | inr new ↦ elim (Bool-cases (any (λ c. c.user_code == user_code) db.device_codes.rows)) [
          | inl clash ↦ rw (new, clash) h
          | inr free ↦
              rw (new, free)
                (record {
                  seq = omega (arith, h.seq);
                  rows =
                      All-append (Descends old) db.device_codes.rows _ h.rows
                        (inl (omega (arith, h.seq)), tt);
                })
        ]
      ]

  approve-Later :
      (code token by : String) (db : Db)
      → IsLater old db.device_codes
      → IsLater old (update_codes (is_pending_code code) (approved token by) db).1.device_codes
  approve-Later code token by db h =
      update-Later old code (approved token by) db (λ c. refl) (λ c p. approves token by p) h

  deny-Later :
      (code by : String) (db : Db)
      → IsLater old db.device_codes
      → IsLater old (update_codes (is_pending_code code) (denied by) db).1.device_codes
  deny-Later code by db h = update-Later old code (denied by) db (λ c. refl) (λ c p. denies by p) h

  delete-Later :
      (p : DeviceCodeRow → Bool) (db : Db)
      → IsLater old db.device_codes
      → IsLater old (delete_codes p db).1.device_codes
  delete-Later p db h = record {
    seq = h.seq;
    rows = All-delete (Descends old) p db.device_codes.rows h.rows;
  }

  ruleset later_rules =
      (read_rules, Keeps-sql, insert_code-Later, approve-Later, deny-Later, delete-Later)

  pub create_device_code-Later : Keeps (Later old) create_device_code
  unfolding create_device_code
  create_device_code-Later = search later_rules depth 9

  pub approve_device_code-Later :
      (code by : String) → Keeps (Later old) (approve_device_code code by)
  unfolding approve_device_code
  approve_device_code-Later code by = search later_rules

  pub deny_device_code-Later : (code by : String) → Keeps (Later old) (deny_device_code code by)
  unfolding deny_device_code
  deny_device_code-Later code by = search later_rules

  pub consume_access_token-Later : (token : String) → Keeps (Later old) (consume_access_token token)
  unfolding consume_access_token
  consume_access_token-Later token = search later_rules

  pub clean_expired_device_codes-Later : Keeps (Later old) clean_expired_device_codes
  unfolding clean_expired_device_codes
  clean_expired_device_codes-Later = search later_rules

-- Tables come from themselves.
from_itself :
    (old : Table DeviceCodeRow) (rows : List DeviceCodeRow)
    → ((c : DeviceCodeRow) → Mem c rows → Mem c old.rows)
    → All (Descends old) rows
from_itself old [] sub = tt
from_itself old (c ∷ cs) sub = (
  inr (c, sub c mem-cons_self, stays refl),
  from_itself old cs (λ d m. sub d (mem-cons_of_mem c m)),
)

pub IsLater-refl : (t : Table DeviceCodeRow) → IsLater t t
IsLater-refl t = record { seq = omega arith; rows = from_itself t t.rows (λ c m. m) }
