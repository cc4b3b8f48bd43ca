-- ===== src/World.antt =====
-- The state of a running server and what its environment answers: the SQLite tables
-- (internal/database.go), the WireGuard interface (wireguard/device.go) and the eBPF map
-- (firewall/service.go). The rows carry every column of the `CREATE TABLE` statements.
use wgxdp.Base.{ℕ, String, Bool, Option, List}
use wgxdp.Base.Int.{ℤ}
use wgxdp.Config.{Config}
use wgxdp.Net.Cidr.{IpNet}

pub record Table {ℓ} (R : Type ℓ) : Type ℓ where
  pub rows : List R
  -- the last id that AUTOINCREMENT has given
  pub seq : ℕ

pub record PeerRow : Type 0 where
  pub id : ℕ
  pub name : String
  pub public_key : String
  pub assigned_ip : String
  pub created_at : ℕ

pub record DeviceCodeRow : Type 0 where
  pub id : ℕ
  pub device_code : String
  pub user_code : String
  pub expires_at : ℕ
  pub interval : ℕ
  pub status : String
  pub access_token : Option String
  pub approved_by : String
  pub created_at : ℕ

pub record RuleRow : Type 0 where
  pub id : ℕ
  pub src_ip : String
  pub dst_ip : String
  pub port : ℤ
  pub proto : ℤ
  pub created_at : ℕ

pub record Db : Type 0 where
  pub peers : Table PeerRow
  pub device_codes : Table DeviceCodeRow
  pub firewall_rules : Table RuleRow

-- `PeerRuleKey` of firewall/service.go.
pub record PeerRuleKey : Type 0 where
  pub src_ip : ℕ
  pub dst_ip : ℕ
  pub port : ℕ
  pub proto : ℕ
  pub pad : ℕ

-- `wgtypes.PeerConfig` and `wgtypes.Config`, as far as the program fills them in.
pub record PeerConfig : Type 0 where
  pub public_key : List ℕ
  pub preshared_key : Option (List ℕ)
  pub replace_allowed_ips : Bool
  pub allowed_ips : List IpNet
  pub remove : Bool

pub record DeviceConfig : Type 0 where
  pub private_key : Option (List ℕ)
  pub listen_port : Option ℤ
  pub replace_peers : Bool
  pub peers : List PeerConfig

-- A peer as `client.Device` reports it; the handshake is `none` for the zero time.
pub record KernelPeer : Type 0 where
  pub public_key : List ℕ
  pub last_handshake : Option ℕ
  pub receive_bytes : ℕ
  pub transmit_bytes : ℕ

-- A file, with its permission bits.
pub record StoredFile : Type 0 where
  pub content : String
  pub mode : ℕ

-- The host: its files and directories, and what is set on the interface beside its configurations.
pub record Host : Type 0 where
  pub files : List (String × StoredFile)
  pub directories : List String
  pub addresses : List String
  pub is_up : Bool
  pub routes : List IpNet
  -- `filter_net` and `filter_mask` of the XDP program that is attached
  pub attached : Option (ℕ × ℕ)

pub record World : Type 0 where
  pub db : Db
  -- the configurations that the kernel has taken for the interface, the last one first; `none` when
  -- the interface does not exist
  pub link : Option (List DeviceConfig)
  pub peer_rules : List (PeerRuleKey × ℕ)
  pub host : Host
  -- how many calls of the outside have been made
  pub tick : ℕ

-- What the outside answers to the call of that number: SQLite, the kernel, the clock and the random
-- source. `random_key`, `public_of`, `parse_key` and `show_key` are those of wgtypes, `parses_address` is
-- the test in netlink.ParseAddr and `parse_yaml` is yaml.Unmarshal: their sources are not in the
-- repository. `config_file` is the environment variable CONFIG_FILE.
pub record Env : Type 0 where
  pub sql_error : ℕ → Option String
  pub now : ℕ → ℕ
  pub random : ℕ → ℕ → Option (List ℕ)
  pub wgctrl_error : ℕ → Option String
  pub netlink_error : ℕ → Option String
  pub map_error : ℕ → Option String
  pub file_error : ℕ → Option String
  pub bpf_error : ℕ → Option String
  pub link_index : ℕ
  pub kernel_peers : ℕ → List KernelPeer
  pub parse_key : String → Option (List ℕ)
  pub show_key : List ℕ → String
  pub random_key : ℕ → Option (List ℕ)
  pub public_of : List ℕ → List ℕ
  pub parses_address : String → Bool
  pub parse_yaml : String → Option Config
  pub config_file : Option String
