-- ===== src/Database/Integrity.antt =====
-- The integrity of the three tables: what the UNIQUE constraints promise, that ids are not reused,
-- and that the status of a device code agrees with its token. Every method keeps it, whether or not
-- SQLite refuses a statement.
pub mod Methods
pub mod Codes
use wgxdp.Base.{
  ℕ, ◌≤◌, ◌≡◌, ◌⊎◌, ◌≢◌, String, Bool, true, false, Option, none, some, List, All, ◌==◌, string_eq,
  nat_eq,
}
use wgxdp.World.{Db, PeerRow, DeviceCodeRow, RuleRow}
use wgxdp.Act.Keeps.{Invariant}
use wgxdp.Database.Rules.{same_rule}
use wgxdp.Sql.Rows.{AreDistinct}

abbrev pub same_name : PeerRow → PeerRow → Bool
same_name a b = a.name == b.name

abbrev pub same_ip : PeerRow → PeerRow → Bool
same_ip a b = a.assigned_ip == b.assigned_ip

abbrev pub same_device_code : DeviceCodeRow → DeviceCodeRow → Bool
same_device_code a b = a.device_code == b.device_code

abbrev pub same_user_code : DeviceCodeRow → DeviceCodeRow → Bool
same_user_code a b = a.user_code == b.user_code

abbrev pub same_id : RuleRow → RuleRow → Bool
same_id a b = a.id == b.id

-- A code is pending or denied and has no token, or it is approved and has one.
abbrev pub IsCoherent : DeviceCodeRow → Type 0
IsCoherent c =
    ((c.status ≡ "pending") × (c.access_token ≡ none))
    ⊎ ((c.status ≡ "denied") × (c.access_token ≡ none))
    ⊎ ((token : String) × (c.status ≡ "approved") × (c.access_token ≡ some token))

pub record IsSound (db : Db) : Type 0 where
  pub peer_names : AreDistinct same_name db.peers.rows
  pub peer_ips : AreDistinct same_ip db.peers.rows
  pub device_codes : AreDistinct same_device_code db.device_codes.rows
  pub user_codes : AreDistinct same_user_code db.device_codes.rows
  pub coherent : All IsCoherent db.device_codes.rows
  pub rules : AreDistinct same_rule db.firewall_rules.rows
  pub rule_ids : AreDistinct same_id db.firewall_rules.rows
  pub ids_given : All (λ r. r.id ≤ db.firewall_rules.seq) db.firewall_rules.rows

abbrev pub Sound : Invariant
Sound db _ = IsSound db
