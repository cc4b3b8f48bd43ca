-- ===== src/Wireguard.antt =====
-- wireguard/device.go and wireguard/utils.go: the peers of the WireGuard interface. What the kernel
-- makes of a configuration is not modelled: the state is the sequence of configurations it has taken.
pub mod Peers
pub mod Keys
pub mod KeyFile
pub mod Setup
pub mod Tables
pub mod Fresh
use wgxdp.Base.{
  ℕ, suc, ◌-◌, String, ◌<>◌, Bool, true, false, ◌&&◌, Option, none, some, List, [], ◌∷◌, ltb,
}
use wgxdp.Base.Int.{ℤ}
use wgxdp.World.{Env, World, Host, PeerConfig, DeviceConfig, KernelPeer}
use wgxdp.Act.{Act, Outcome, ok, err, pure, fail, lift, ask, on_error, attempt, ◌>>=◌, ◌>>◌}
use wgxdp.Sql.{check, wrap_error}
use wgxdp.Net.Cidr.{IpNet, parse_cidr}

-- `DeviceAttrs`; `keepalive` is set and read nowhere.
pub record DeviceAttrs : Type 0 where
  pub listen_port : ℤ
  pub private_key : List ℕ
  pub public_key : List ℕ
  pub psk : Option (List ℕ)
  pub name : String
  pub mtu : ℕ

-- What goes with the interface.
abbrev pub detached : Host → Host
detached h = record h { addresses = []; is_up = false; routes = []; attached = none }

unfoldable pub delete_link : Act String (Unit {0})
delete_link env w = elim w.link [
  | none ↦ (err "Link not found", w)
  | some _ ↦ (ok tt, record w { link = none; host = detached w.host })
]

-- `dev.remove`
unfoldable pub remove : Act String (Unit {0})
unfolding check delete_link ◌>>=◌
remove =
    wrap_error "could not remove wireguard device: "
      (do check (λ env. env.netlink_error); delete_link)

unfoldable pub take_config : DeviceConfig → Act String (Unit {0})
take_config cfg env w = elim w.link [
  | none ↦ (err "file does not exist", w)
  | some taken ↦ (ok tt, record w { link = some (cfg ∷ taken) })
]

-- `client.ConfigureDevice`
unfoldable pub configure_device : DeviceConfig → Act String (Unit {0})
unfolding check take_config ◌>>=◌
configure_device cfg = do check (λ env. env.wgctrl_error); take_config cfg

-- A configuration that is refused takes the interface down; the error of that is ignored.
unfoldable pub apply : DeviceConfig → Act String (Unit {0})
unfolding configure_device remove ◌>>=◌
apply cfg = do
  wrap_error "failed to open wgctrl: " (check (λ env. env.wgctrl_error))
  on_error (configure_device cfg) (λ e. attempt remove >> fail ("failed to configure device " <> e))

unfoldable pub parsed_key : String → Act String (List ℕ)
parsed_key text env w = elim (env.parse_key text) [
  | none ↦ (err "failed to parse publicKey: wgtypes: failed to parse base64-encoded key", w)
  | some key ↦ (ok key, w)
]

unfoldable pub allowed_net : String → Act String IpNet
allowed_net ip = elim (parse_cidr (ip <> "/32")) [
  | none ↦ fail ("failed to parse allowed IP: invalid CIDR address: " <> (ip <> "/32"))
  | some net ↦ pure net
]

abbrev pub peer_added : DeviceAttrs → List ℕ → IpNet → DeviceConfig
peer_added dev key net = record {
  private_key = none;
  listen_port = none;
  replace_peers = false;
  peers =
      record {
        public_key = key;
        preshared_key = dev.psk;
        replace_allowed_ips = true;
        allowed_ips = net ∷ [];
        remove = false;
      }
      ∷ [];
}

unfoldable pub add_peer : DeviceAttrs → String → String → Act String (Unit {0})
unfolding parsed_key allowed_net apply
add_peer dev public_key allowed_ip = do
  key ← parsed_key public_key
  net ← allowed_net allowed_ip
  wrap_error "failed to add peer: " (apply (peer_added dev key net))

abbrev pub peer_removed : List ℕ → DeviceConfig
peer_removed key = record {
  private_key = none;
  listen_port = none;
  replace_peers = false;
  peers =
      record {
        public_key = key;
        preshared_key = none;
        replace_allowed_ips = false;
        allowed_ips = [];
        remove = true;
      }
      ∷ [];
}

unfoldable pub remove_peer : DeviceAttrs → String → Act String (Unit {0})
unfolding parsed_key allowed_net apply
remove_peer dev public_key = do
  key ← parsed_key public_key
  wrap_error "failed to remove peer: " (apply (peer_removed key))

pub record PeerStatus : Type 0 where
  pub public_key : String
  pub last_handshake : Option ℕ
  pub receive_bytes : ℕ
  pub transmit_bytes : ℕ
  pub active : Bool

-- A handshake less than three minutes ago.
abbrev pub is_active : ℕ → Option ℕ → Bool
is_active now none = false
is_active now (some t) = ltb (now - t) 180

abbrev status_of : (List ℕ → String) → ℕ → KernelPeer → PeerStatus
status_of show_key now p = record {
  public_key = show_key p.public_key;
  last_handshake = p.last_handshake;
  receive_bytes = p.receive_bytes;
  transmit_bytes = p.transmit_bytes;
  active = is_active now p.last_handshake;
}

-- The loop over `d.Peers`, which reads the clock for each; the last status is first in the list.
unfoldable pub statuses_from :
    List (String × PeerStatus) → List KernelPeer → Act String (List (String × PeerStatus))
statuses_from found [] env w = (ok found, w)
statuses_from found (p ∷ ps) env w =
    statuses_from ((env.show_key p.public_key, status_of env.show_key (env.now w.tick) p) ∷ found)
      ps env (record w { tick = suc w.tick })

unfoldable pub get_peer_statuses : Act String (List (String × PeerStatus))
unfolding check statuses_from ◌>>=◌
get_peer_statuses = do
  wrap_error "failed to open wgctrl: " (check (λ env. env.wgctrl_error))
  wrap_error "failed to get device: " (check (λ env. env.wgctrl_error))
  peers ← ask (λ env. env.kernel_peers)
  statuses_from [] peers
