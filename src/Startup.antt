-- ===== src/Startup.antt =====
-- cmd/wgxdp-server/main.go: the server from its configuration file to its routes. A call of
-- `logrus.Fatalf` ends the process: it is an error of `start`, with its text.
pub mod Restore
pub mod Loading
pub mod Peers
pub mod Running
pub mod Tables
pub mod Traffic
use wgxdp.Base.{
  ℕ, zero, suc, ◌+◌, ◌*◌, ◌%◌, leb, if◌then◌else◌, String, ◌<>◌, Option, none, some, List, [], ◌∷◌,
}
use wgxdp.Base.Int.{to_uint8}
use wgxdp.Base.Text.{decimal}
use wgxdp.World.{Env, World}
use wgxdp.Act.{Act, Outcome, ok, err, pure, fail, on_error, attempt, ◌>>=◌, ◌>>◌}
use wgxdp.Sql.{wrap_error}
use wgxdp.Net.Cidr.{IpNet, parse_cidr}
use wgxdp.Config.{Config}
use wgxdp.Config.Load.{new_config}
use wgxdp.Database.{PeerRecord, RuleRecord}
use wgxdp.Database.Open.{get_database}
use wgxdp.Database.Peers.{get_all_peers}
use wgxdp.Database.Rules.{get_all_rules}
use wgxdp.Wireguard.{DeviceAttrs, add_peer, remove}
use wgxdp.Wireguard.Setup.{new_device, set_address, up_and_add_route}
use wgxdp.Firewall.{add_peer_rule}
use wgxdp.Firewall.Load.{new_firewall}
use wgxdp.Server.{Server}

-- `Mask.Size` of a mask that `net.ParseCIDR` has made: its leading ones, a byte at a time.
leading_ones : ℕ → ℕ → ℕ
leading_ones zero b = 0
leading_ones (suc bits) b =
    let rest = leading_ones bits (b * 2 % 256) in if leb 128 b then suc rest else 0

unfoldable pub mask_size : List ℕ → ℕ
unfolding leading_ones
mask_size [] = 0
mask_size (b ∷ bs) = leading_ones 8 b + mask_size bs

-- The two loops: a peer or a rule that is refused is logged, and the next one is tried.
unfoldable pub restore_peers : DeviceAttrs → List PeerRecord → Act String (Unit {0})
restore_peers dev [] = pure tt
restore_peers dev (p ∷ ps) =
    attempt (add_peer dev p.public_key p.assigned_ip) >> restore_peers dev ps

unfoldable pub restore_rules : List RuleRecord → Act String (Unit {0})
restore_rules [] = pure tt
restore_rules (r ∷ rs) =
    attempt (add_peer_rule r.src_ip r.dst_ip r.port (to_uint8 r.proto)) >> restore_rules rs

unfoldable pub subnet_of : String → Act String IpNet
subnet_of text = elim (parse_cidr text) [
  | none ↦ fail ("[WireGuard] Invalid subnet " <> (text <> ": invalid CIDR address: " <> text))
  | some subnet ↦ pure subnet
]

-- The interface with its address, its route and the peers of the database.
unfoldable pub start_device : Config → Act String DeviceAttrs
start_device cfg = do
  dev ←
      wrap_error "[WireGuard] Could not create device: "
        (new_device cfg.wg_interface_name cfg.wg_listen_port cfg.wg_key_file)
  subnet ← subnet_of cfg.wg_subnet
  wrap_error "[WireGuard] Could not set address: "
      (set_address dev (cfg.wg_interface_ip <> ("/" <> decimal (mask_size subnet.mask))))
  wrap_error "[WireGuard] Could not bring up interface: " (up_and_add_route dev subnet)
  peers ← wrap_error "[SQLite] Could not load peers: " get_all_peers
  restore_peers dev peers
  pure dev

-- The XDP program with the rules of the database.
unfoldable pub start_firewall : Config → Act String (Unit {0})
start_firewall cfg = do
  wrap_error "[XDP] Could not load program: " (new_firewall cfg.wg_interface_name cfg.wg_subnet)
  rules ← wrap_error "[SQLite] Could not load rules: " get_all_rules
  restore_rules rules

-- `main`; `index_html` is the embedded page that `StartServer` reads.
unfoldable pub start : String → Act String Server
start index_html = do
  cfg ← wrap_error "[Config] " new_config
  wrap_error "[SQLite] Could not get database: " (get_database cfg.db_path)
  dev ← start_device cfg
  start_firewall cfg
  pure (record { device = some dev; config = some cfg; xdp = some tt; index_html = index_html })

-- `shutdownHandler` cancels the context, upon which the device is removed; an error of that is logged.
unfoldable pub shutdown : Act String (Unit {0})
unfolding remove ◌>>=◌
shutdown = do result ← attempt {F = String} remove; pure tt
