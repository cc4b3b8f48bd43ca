-- ===== src/Tests/Data.antt =====
-- A server, its state and requests to it, on which the theorems are tried.
use wgxdp.Base.{ℕ, true, false, none, some, List, [], ◌∷◌, ◌==◌, string_eq, if◌then◌else◌}
use wgxdp.Base.Int.{pos}
use wgxdp.Base.{list_eq, nat_eq}
use wgxdp.World.{Host, Env, World, Db, PeerRow, DeviceCodeRow, RuleRow}
use wgxdp.Config.{Config}
use wgxdp.Wireguard.{DeviceAttrs}
use wgxdp.Net.{Ip4}
use wgxdp.Server.{Server, Request, Body}
use wgxdp.Server.Rules.{CreateRuleRequest}
use wgxdp.Server.Peers.{JoinRequest}
use wgxdp.Server.DeviceFlow.{DeviceTokenRequest}

-- Nothing fails; the clock stands at 1000; the random source gives zeros.
abbrev pub calm : Env
calm = record {
  sql_error = λ t. none;
  now = λ t. 1000;
  random = λ t n. some (0 ∷ 1 ∷ 2 ∷ 3 ∷ 4 ∷ 5 ∷ 6 ∷ 7 ∷ []);
  wgctrl_error = λ t. none;
  netlink_error = λ t. none;
  map_error = λ t. none;
  kernel_peers = λ t. [];
  parse_key = λ text. if text == "key" then some (1 ∷ []) else none;
  show_key = λ key. if key == 1 ∷ [] then "key" else "shown";
  file_error = λ t. none;
  bpf_error = λ t. none;
  link_index = 3;
  random_key = λ t. some (1 ∷ []);
  public_of = λ key. 7 ∷ key;
  parses_address = λ text. true;
  parse_yaml = λ text. none;
  config_file = none;
}

abbrev pub alice : PeerRow
alice = record {
  id = 1;
  name = "alice";
  public_key = "key";
  assigned_ip = "10.0.0.2";
  created_at = 900;
}

abbrev pub broken : PeerRow
broken = record {
  id = 2;
  name = "broken";
  public_key = "no key";
  assigned_ip = "10.0.0.3";
  created_at = 900;
}

abbrev pub ready : DeviceCodeRow
ready = record {
  id = 1;
  device_code = "dc";
  user_code = "ABCD-EFGH";
  expires_at = 1500;
  interval = 5;
  status = "approved";
  access_token = some "token";
  approved_by = "bob";
  created_at = 900;
}

abbrev pub web : RuleRow
web = record {
  id = 1;
  src_ip = "10.0.0.2";
  dst_ip = "10.0.0.9";
  port = pos 443;
  proto = pos 6;
  created_at = 900;
}

abbrev pub tables : Db
tables = record {
  peers = record { rows = alice ∷ broken ∷ []; seq = 2 };
  device_codes = record { rows = ready ∷ []; seq = 1 };
  firewall_rules = record { rows = web ∷ []; seq = 1 };
}

abbrev pub bare : Host
bare = record {
  files = [];
  directories = [];
  addresses = [];
  is_up = false;
  routes = [];
  attached = none;
}

abbrev pub start : World
start = record { db = tables; link = some []; peer_rules = []; host = bare; tick = 0 }

abbrev pub device : DeviceAttrs
device = record {
  listen_port = pos 51820;
  private_key = [];
  public_key = [];
  psk = none;
  name = "wg0";
  mtu = 1420;
}

abbrev pub config : Config
config = record {
  name = "";
  server_url = "https://vpn";
  wg_endpoint = "vpn:51820";
  wg_subnet = "10.0.0.0/24";
  wg_interface_ip = "10.0.0.1";
  wg_interface_name = "wg0";
  wg_listen_port = pos 51820;
  auth_header = "";
  auth_redirect_url = "";
  listen_addr = "";
  wg_key_file = "";
  db_path = "";
}

abbrev pub server : Server
server = record { device = some device; config = some config; xdp = some tt; index_html = "" }

abbrev pub request : {B : Type 0} → Body B → Request B
request body = record {
  method = "POST";
  header = λ name.
      if name == "X-Forwarded-User"
      then "bob"
      else if name == "Content-Type"
      then "application/json"
      else "";
  request_uri = "/";
  query_code = "";
  path_value = λ name. if name == "id" then "1" else "alice";
  body = body;
}

-- A request without the header of the user, for the peer whose key is no key.
abbrev pub anonymous : Request (Unit {0})
anonymous = record (request Body.empty) { header = λ name. ""; path_value = λ name. "broken" }

abbrev pub ssh : CreateRuleRequest
ssh = record { src_ip = "10.0.0.2"; dst_ip = "10.0.0.3"; port = pos 22; proto = pos 0 }

abbrev pub source : Ip4
source = record { a = 10; b = 0; c = 0; d = 2 }

abbrev pub destination : Ip4
destination = record { a = 10; b = 0; c = 0; d = 3 }

-- A TCP packet from the one to the other, to port 22.
abbrev pub packet : List ℕ
packet =
    69 ∷ 0 ∷ 0 ∷ 28 ∷ 0 ∷ 0 ∷ 0 ∷ 0 ∷ 64 ∷ 6 ∷ 0 ∷ 0 ∷ 10 ∷ 0 ∷ 0 ∷ 2 ∷ 10 ∷ 0 ∷ 0 ∷ 3 ∷ 200 ∷ 0 ∷ 0
    ∷ 22 ∷ 0 ∷ 0 ∷ 0 ∷ 0 ∷ []

abbrev pub newcomer : JoinRequest
newcomer = record { access_token = "token"; public_key = "key"; name = "carol" }

abbrev pub poll : DeviceTokenRequest
poll = record { device_code = "dc"; grant_type = "" }

-- The rule of the packet, in the table.
abbrev pub stored : World
stored = record start {
  db = record tables {
    firewall_rules = record {
      rows = record web { dst_ip = "10.0.0.3"; port = pos 22 } ∷ [];
      seq = 1;
    };
  };
}

-- A code that waits for its decision.
abbrev pub waiting : World
waiting = record start {
  db = record tables {
    device_codes = record {
      rows = record ready { status = "pending"; access_token = none } ∷ [];
      seq = 1;
    };
  };
}

-- A rule to an IPv6 address, in the table.
abbrev pub stored_v6 : World
stored_v6 = record start {
  db = record tables {
    firewall_rules = record { rows = record web { dst_ip = "::1" } ∷ []; seq = 1 };
  };
}

-- A host with a configuration file, before the start.
abbrev pub starting : Env
starting = record calm { parse_yaml = λ text. some config }

abbrev pub begun : World
begun = record stored {
  link = none;
  host = record bare {
    files = ("/config/config.yaml", record { content = "yaml"; mode = 420 }) ∷ [];
  };
}

-- The write of the key file is refused, the sixth call.
abbrev pub full_disk : Env
full_disk = record calm {
  file_error = λ t. if t == 5 then some "no space left on device" else none;
}
