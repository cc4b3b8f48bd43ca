-- ===== src/Server/Peers.antt =====
-- internal/handlers_peers.go: the peers.
pub mod Effects
pub mod Joining
pub mod Deleting
pub mod Blind
pub mod Covering
use wgxdp.Base.{
  ℕ, String, ◌<>◌, Bool, true, false, not, Option, none, some, List, [], ◌∷◌, map, ◌==◌, string_eq,
  if◌then◌else◌,
}
use wgxdp.Base.Int.{to_uint8}
use wgxdp.World.{Env, World}
use wgxdp.Act.{Act, Outcome, ok, err, pure, fail, attempt, on_error, guard, ◌>>=◌, ◌>>◌}
use wgxdp.Config.{Config}
use wgxdp.Database.{PeerRecord, RuleRecord}
use wgxdp.Database.Peers.{get_all_peers, get_peer_by_name, add_peer, remove_peer}
use wgxdp.Database.Rules.{remove_rules_for_peer}
use wgxdp.Database.Codes.{consume_access_token}
use wgxdp.Database.Alloc.{next_available_ip}
use wgxdp.Firewall.{remove_peer_rule}
use wgxdp.Wireguard
use wgxdp.Wireguard.{DeviceAttrs, PeerStatus, get_peer_statuses}
use wgxdp.Server.{
  Server, Request, Body, Response, respond, http_error, Handler, handler, or_respond, no_content,
  PeerResponse, peers, joined, server_info,
}
use wgxdp.Server.DeviceFlow.{config_of, method_not_allowed, unmarshal}
use wgxdp.Server.Rules.{with_xdp}

pub record JoinRequest : Type 0 where
  pub access_token : String
  pub public_key : String
  pub name : String

abbrev interface_ip : Option Config → String
interface_ip none = ""
interface_ip (some config) = config.wg_interface_ip

unfoldable pub server_info_handler : {B : Type 0} → Server → Request B → Handler
unfolding handler ◌>>=◌
server_info_handler s req = handler (pure (respond 200 (server_info (interface_ip s.config))))

abbrev pub lookup_status : String → List (String × PeerStatus) → Option PeerStatus
lookup_status key [] = none
lookup_status key ((k, st) ∷ rest) = if k == key then some st else lookup_status key rest

abbrev active_in : List (String × PeerStatus) → String → Bool
active_in statuses key = elim (lookup_status key statuses) [ none ↦ false | some st ↦ st.active ]

abbrev pub peer_response : List (String × PeerStatus) → PeerRecord → PeerResponse
peer_response statuses p = record {
  name = p.name;
  public_key = p.public_key;
  assigned_ip = p.assigned_ip;
  active = active_in statuses p.public_key;
}

-- The error is ignored, and leaves the nil map.
abbrev or_nil : Outcome String (List (String × PeerStatus)) → List (String × PeerStatus)
or_nil (ok found) = found
or_nil (err e) = []

unfoldable pub statuses_of : Server → Act Response (List (String × PeerStatus))
statuses_of s = elim s.device [
  | none ↦ pure []
  | some dev ↦ do r ← attempt get_peer_statuses; pure (or_nil r)
]

unfoldable pub list_peers : {B : Type 0} → Server → Request B → Handler
unfolding handler statuses_of ◌>>=◌
list_peers s req = handler (do
  found ← or_respond get_all_peers (λ e. http_error 500 ("could not get peers: " <> e))
  statuses ← statuses_of s
  pure (respond 200 (peers (map (peer_response statuses) found))))

-- `s.Device != nil`
unfoldable pub with_device :
    Server → (DeviceAttrs → Act Response (Unit {0})) → Act Response (Unit {0})
with_device s m = elim s.device [ none ↦ pure tt | some dev ↦ m dev ]

unfoldable pub existing_peer : Option PeerRecord → Act Response PeerRecord
existing_peer none = fail (http_error 404 "peer not found")
existing_peer (some p) = pure p

-- The errors of the removals are ignored.
unfoldable pub remove_from_map : List RuleRecord → Act Response (Unit {0})
remove_from_map [] = pure tt
remove_from_map (r ∷ rs) = do
  attempt (remove_peer_rule r.src_ip r.dst_ip r.port (to_uint8 r.proto))
  remove_from_map rs

unfoldable pub unlink : Server → String → Act Response (Unit {0})
unfolding with_device
unlink s public_key = with_device s (λ dev.
    or_respond (Wireguard.remove_peer dev public_key)
      (λ e. http_error 500 ("could not remove wireguard peer: " <> e)))

unfoldable pub unload : Server → List RuleRecord → Act Response (Unit {0})
unfolding with_xdp remove_from_map
unload s deleted = with_xdp s (remove_from_map deleted)

-- The rows of a peer, and its rules.
unfoldable pub forget : Server → PeerRecord → String → Act Response Response
unfolding unload
forget s peer name = do
  deleted ←
      or_respond (remove_rules_for_peer peer.assigned_ip)
        (λ e. http_error 500 ("could not remove rules for peer: " <> e))
  unload s deleted
  or_respond (remove_peer name) (λ e. http_error 500 ("could not remove peer: " <> e))
  pure (respond 204 no_content)

-- The part after the peer is found.
unfoldable pub delete_found : Server → PeerRecord → String → Act Response Response
unfolding unlink forget
delete_found s peer name = unlink s peer.public_key >> forget s peer name

-- The part after the name is read.
unfoldable pub delete_named : Server → String → Act Response Response
unfolding existing_peer delete_found
delete_named s name = do
  found ← or_respond (get_peer_by_name name) (λ e. http_error 500 ("could not look up peer: " <> e))
  peer ← existing_peer found
  delete_found s peer name

unfoldable pub delete_peer : {B : Type 0} → Server → Request B → Handler
delete_peer s req = handler (do
  let name = req.path_value "name"
  guard (not (name == "")) (http_error 400 "missing peer name")
  delete_named s name)

abbrev pub peer_name_or : String → String → String
peer_name_or name assigned_ip = if name == "" then "peer-" <> assigned_ip else name

abbrev pub server_key : (List ℕ → String) → Option DeviceAttrs → String
server_key show_key none = ""
server_key show_key (some dev) = show_key dev.public_key

unfoldable pub joined_response : Server → Config → String → String → Act Response Response
joined_response s config assigned_ip peer_name env w = (
  ok (
      respond 200 (
        joined assigned_ip config.wg_subnet (server_key env.show_key s.device) config.wg_endpoint
          peer_name)),
  w,
)

-- The part after the token is spent.
unfoldable pub admit_peer : Server → JoinRequest → Act Response Response
unfolding config_of with_device joined_response
admit_peer s jr = do
  config ← config_of s
  assigned_ip ←
      or_respond (next_available_ip config.wg_subnet)
        (λ e. http_error 500 ("could not allocate IP: " <> e))
  let peer_name = peer_name_or jr.name assigned_ip
  or_respond (add_peer peer_name jr.public_key assigned_ip)
      (λ e. http_error 500 ("could not add peer: " <> e))
  with_device s (λ dev.
      or_respond (Wireguard.add_peer dev jr.public_key assigned_ip)
        (λ e. http_error 500 ("could not configure wireguard peer: " <> e)))
  joined_response s config assigned_ip peer_name

abbrev pub unsupported : Response
unsupported = http_error 415 "invalid Content-Type, expect `application/json`"

abbrev pub is_empty : {B : Type 0} → Body B → Bool
is_empty Body.empty = true
is_empty _ = false

unfoldable pub join_handler : Server → Request JoinRequest → Handler
join_handler s req = handler (do
  guard (req.method == "POST") method_not_allowed
  guard (not (is_empty req.body)) (http_error 400 "empty body")
  guard (req.header "Content-Type" == "application/json") unsupported
  jr ← unmarshal 500 "could not parse json" req.body
  guard (not (jr.access_token == "")) (http_error 401 "missing access_token")
  guard (not (jr.public_key == "")) (http_error 400 "missing public_key")
  valid ←
      or_respond (consume_access_token jr.access_token)
        (λ e. http_error 500 ("could not verify token: " <> e))
  guard valid (http_error 401 "invalid or expired access token")
  admit_peer s jr)
