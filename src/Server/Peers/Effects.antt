-- ===== src/Server/Peers/Effects.antt =====
-- What the handlers of internal/handlers_peers.go have done when they report success.
use wgxdp.Base.{◌≡◌, String, false, none, some, ◌==◌, string_eq, nat_eq, arith}
use wgxdp.Base.Int.{int_eq}
use wgxdp.World.{Env, World}
use wgxdp.Act.{◌>>=◌}
use wgxdp.Sql.{sql, check, checked, apply}
use wgxdp.Database.{PeerRecord}
use wgxdp.Database.Rules.{delete_rules}
use wgxdp.Database.Peers.{find_peer, get_peer_by_name, remove_peer, delete_peer_row}
use wgxdp.Wireguard
use wgxdp.Wireguard.{DeviceAttrs, peer_removed}
use wgxdp.Server.{handler, Server, Request}
use wgxdp.Server.Peers.{delete_peer, delete_named, unlink}

-- Neither the tables nor the interface.
pub record SameTables (w w' : World) : Type 0 where
  pub db : w'.db ≡ w.db
  pub link : w'.link ≡ w.link

-- The rows of the peer and of the rules that have its address as their source are gone, and every other
-- row of the three tables is there.
pub record PeerDeleted (peer : PeerRecord) (name : String) (w w' : World) : Type 0 where
  pub db_is :
      w'.db ≡ (delete_peer_row name (delete_rules (λ r. r.src_ip == peer.assigned_ip) w.db).1).1

abbrev pub Deleted : String → World → World → Type 0
Deleted name w v =
    (peer : PeerRecord) × (find_peer name w.db.peers.rows ≡ some peer) × PeerDeleted peer name w v

-- A peer whose public key is not a key cannot be deleted while there is an interface: the answer is
-- 500 and the tables stay.
pub delete_peer_unparsed :
    {B : Type 0} (s : Server) (req : Request B) (env : Env) (w : World) {dev : DeviceAttrs}
    {peer : PeerRecord}
    → s.device ≡ some dev
    → (req.path_value "name" == "") ≡ false
    → find_peer (req.path_value "name") w.db.peers.rows ≡ some peer
    → env.parse_key peer.public_key ≡ none
    → ((delete_peer s req env w).0.status ≡ 500) × ((delete_peer s req env w).1.db ≡ w.db)
unfolding delete_peer handler delete_named ◌>>=◌ unlink get_peer_by_name sql check checked apply
    Wireguard.remove_peer Wireguard.parsed_key
delete_peer_unparsed s req env w dev named there key = ground arith
