-- ===== src/Server/Unlinking.antt =====
-- The interface is neither a table nor the eBPF map: taking a peer off it keeps what is known of those.
use wgxdp.Base.{String}
use wgxdp.Act.Keeps.{Invariant, Keeps}
use wgxdp.Database.Reads.{read_rules}
use wgxdp.Wireguard.Peers.{device_rules}
use wgxdp.Server.{Server}
use wgxdp.Server.Keeps.{server_rules}
use wgxdp.Server.Peers.{unlink}

pub unlink-Keeps : {J : Invariant} (s : Server) (key : String) → Keeps J (unlink s key)
unfolding unlink
unlink-Keeps s key = search (read_rules, device_rules, server_rules)
