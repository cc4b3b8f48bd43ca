-- ===== src/Database.antt =====
-- internal/database.go: the records that its methods take and return, and its constants.
pub mod Random
pub mod Peers
pub mod Codes
pub mod Rules
pub mod Alloc
pub mod Reads
pub mod Integrity
pub mod Lifecycle
pub mod Tokens
pub mod Approval
pub mod Open
use wgxdp.Base.{ℕ, String}
use wgxdp.Base.Int.{ℤ}

-- seconds
abbrev pub device_code_expiry : ℕ
device_code_expiry = 600

abbrev pub device_code_poll_interval : ℕ
device_code_poll_interval = 5

abbrev pub user_code_alphabet : String
user_code_alphabet = "ABCDEFGHJKMNPQRSTUVWXYZ23456789"

pub record DeviceCode : Type 0 where
  pub device_code : String
  pub user_code : String
  pub expires_at : ℕ
  pub interval : ℕ
  pub status : String
  pub access_token : String

pub record PeerRecord : Type 0 where
  pub name : String
  pub public_key : String
  pub assigned_ip : String

pub record RuleRecord : Type 0 where
  pub id : ℤ
  pub src_ip : String
  pub dst_ip : String
  pub port : ℤ
  pub proto : ℤ
