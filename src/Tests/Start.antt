-- ===== src/Tests/Start.antt =====
-- A start of the server, and of its parts.
use Prim.Native.Nat.{bit_and}
use wgxdp.Base.{
  ◌+◌, ap, subst, String, length, map, ◌≡◌, ◌≢◌, ◌↔◌, refl, none, some, [], ◌∷◌, arith,
}
use wgxdp.Base.Int.{pos, to_uint16, to_uint8}
use wgxdp.World.{World}
use wgxdp.Act.{Outcome, ok, err, ◌>>=◌}
use wgxdp.Net.{Ip4, bytes4, little_endian}
use wgxdp.Net.RoundTrip.{IsBytes}
use wgxdp.Net.Cidr.{IpNet, and_bytes, parse_cidr}
use wgxdp.Server.{Server}
use wgxdp.Firewall.Filter.{daddr, filter, saddr, ihl, protocol, dest_port, xdp_pass}
use wgxdp.Firewall.Permits.{Implements, verdict_of}
use wgxdp.Firewall.Keys.{source_of}
use wgxdp.Config.Load.{new_config, load}
use wgxdp.Files.{
  read_file, stat, found_file, find_file, split_dir, put_file, mkdir_all, create, chmod,
  write_string, change_file,
}
use wgxdp.Database.Open.{get_database, create_tables}
use wgxdp.Database.Peers.{get_all_peers}
use wgxdp.Database.Rules.{get_all_rules}
use wgxdp.Wireguard
use wgxdp.Wireguard.{DeviceAttrs}
use wgxdp.Wireguard.KeyFile.{ReadsBack, setup_keys-setup_keys, setup_keys-Interrupted}
use wgxdp.Wireguard.Fresh.{IsFresh, new_device-IsFresh}
use wgxdp.Firewall.Subnet.{new_firewall-Contains, new_firewall-unfiltered}
use wgxdp.Wireguard.Keys.{
  Keys, some_key, setup_keys, save_key, generate_key, write_private_key, load_key,
}
use wgxdp.Wireguard.Setup.{
  new_device, ensure_link, link_add, netlink_call, new_link, set_address, addr_add, on_link,
  up_and_add_route, route_add,
}
use wgxdp.Firewall.{add_peer_rule, get_rule_key, lookup_elem, update_elem, same_key}
use wgxdp.Firewall.Load.{or_panic, new_firewall, interface_by_name, set_constants}
use wgxdp.Net.Parse.{parse_ip, v4_fields}
use wgxdp.Sql.{rows_err, sql, check, checked, apply}
use wgxdp.Base.Text.{decimal}
use wgxdp.Startup.{
  start, start_device, start_firewall, subnet_of, restore_peers, restore_rules, mask_size,
}
use wgxdp.Startup.Loading.{rules_in}
use wgxdp.Server.Rules.{list_rules}
use wgxdp.Server.Middleware.{require_auth}
use wgxdp.Database.Codes.{clean_expired_device_codes}
use wgxdp.Startup.Traffic.{start-Implements, start-permitted}
use wgxdp.Startup.Peers.{with_peers, start-with_peers}
use wgxdp.Wireguard.Setup.{first_config}
use wgxdp.Database.Peers.{peer_record}
use wgxdp.Tests.Mux.{site, quiet}
use wgxdp.Server.Mux.{run_http, arrive, serve_http, answered, find_target, spa_fallback}
use wgxdp.Server.Calls.{step}
use wgxdp.Tests.Data
use wgxdp.Tests.Data.{anonymous, request, calm, starting, begun, full_disk, packet, config, device}
use wgxdp.Tests.Store.{filtered, source-IsBytes}

abbrev pub after : World
after = (start "page" starting begun).1

abbrev pub started : Server
started = record Data.server {
  device = some (record device { private_key = 1 ∷ []; public_key = 7 ∷ 1 ∷ [] });
  index_html = "page";
}

-- The start succeeds, one rule is stored, its packet passes, and the interface has its address.
pub runs :
    (start "page" starting begun ≡ (ok started, after))
    × (length (rules_in after) ≡ 1)
    × (filter 0 0 after.peer_rules packet ≡ xdp_pass)
    × (after.host.addresses ≡ "10.0.0.1/24" ∷ [])
    × (filter 0 0 (run_http started site quiet starting after).peer_rules packet ≡ xdp_pass)
unfolding run_http arrive serve_http answered find_target spa_fallback step
    clean_expired_device_codes require_auth list_rules start new_config load read_file stat
    found_file find_file get_database create_tables start_device new_device setup_keys some_key
    save_key generate_key write_private_key split_dir put_file mkdir_all create chmod write_string
    change_file ensure_link link_add netlink_call new_link Wireguard.apply
    Wireguard.configure_device Wireguard.take_config Wireguard.add_peer Wireguard.parsed_key
    Wireguard.allowed_net subnet_of parse_cidr v4_fields set_address addr_add on_link
    up_and_add_route route_add get_all_peers restore_peers start_firewall new_firewall
    interface_by_name or_panic set_constants get_all_rules restore_rules add_peer_rule get_rule_key
    parse_ip to_uint16 to_uint8 lookup_elem update_elem rows_err sql check checked apply mask_size
    decimal ◌>>=◌ filter ihl saddr daddr protocol dest_port same_key
runs = (refl, refl, refl, refl, refl)

start-Implements_example : (after.db ≡ begun.db) × Implements (rules_in begun) after.peer_rules
start-Implements_example =
    start-Implements "page" starting begun {s = started} {w' = after} runs.0 (λ t. refl)
      (omega arith)

start-permitted_example : verdict_of (rules_in begun) packet ≡ xdp_pass
start-permitted_example =
    start-permitted "page" starting begun {s = started} {w' = after} runs.0 0 0 packet filtered
      runs.2

start-with_peers_example :
    (dev : DeviceAttrs) × (started.device ≡ some dev)
    × (after.link
        ≡ some (
            with_peers starting.parse_key dev
              (map peer_record begun.db.peers.rows)
              (first_config dev ∷ [])))
start-with_peers_example =
    start-with_peers "page" starting begun {s = started} {w' = after} runs.0 (λ t. refl)

drawn-ReadsBack : ReadsBack calm
drawn-ReadsBack t key e =
    subst (λ k. calm.parse_key (calm.show_key k) ≡ some k)
      (ap (λ o. elim o [ none ↦ [] | some k ↦ k ]) e) refl

abbrev first_keys : Outcome String Keys × World
first_keys = setup_keys "" "" calm begun

made : first_keys.0 ≡ ok (record { private_key = 1 ∷ []; public_key = 7 ∷ 1 ∷ []; psk = none })
unfolding setup_keys some_key save_key generate_key load_key write_private_key read_file stat
    found_file find_file split_dir put_file mkdir_all create chmod write_string change_file check
    checked ◌>>=◌
made = refl

setup_keys-setup_keys_example : setup_keys "" "" calm first_keys.1 ≡ (
  ok (record { private_key = 1 ∷ []; public_key = 7 ∷ 1 ∷ []; psk = none }),
  record first_keys.1 { tick = 2 + first_keys.1.tick },
)
setup_keys-setup_keys_example =
    setup_keys-setup_keys calm "" "" begun first_keys.1 {w' = first_keys.1} drawn-ReadsBack
      (ap (λ o. (o, first_keys.1)) made) refl refl refl

setup_keys-Interrupted_example :
    ((setup_keys "" "" full_disk begun).0 ≡ err "could not write key file: no space left on device")
    × ((setup_keys "" "" full_disk (record (setup_keys "" "" full_disk begun).1 { tick = 20 })).0
        ≡ err "could not parse private key from file: wgtypes: failed to parse base64-encoded key")
unfolding find_file split_dir
setup_keys-Interrupted_example =
    setup_keys-Interrupted full_disk "" "" begun
      (record (setup_keys "" "" full_disk begun).1 { tick = 20 }) {key = 1 ∷ []}
      (record {
        missing = refl;
        directory = refl;
        drawn = refl;
        looked = refl;
        made = refl;
        created = refl;
        closed = refl;
        cut_short = refl;
      })
      refl refl refl refl

abbrev made_device : Outcome String DeviceAttrs × World
made_device = new_device "wg0" (pos 51820) "" calm begun

new_device-IsFresh_example :
    IsFresh calm "/var/lib/wgxdp/wgkey"
      (record device { private_key = 1 ∷ []; public_key = 7 ∷ 1 ∷ [] })
      made_device.1
unfolding new_device setup_keys some_key save_key generate_key load_key write_private_key read_file
    stat found_file find_file split_dir put_file mkdir_all create chmod write_string change_file
    check checked ◌>>=◌ ensure_link link_add netlink_call new_link Wireguard.apply
    Wireguard.configure_device Wireguard.take_config
new_device-IsFresh_example =
    new_device-IsFresh "wg0" (pos 51820) "" calm begun {w' = made_device.1} drawn-ReadsBack refl

abbrev network : Ip4
network = record { a = 10; b = 0; c = 0; d = 0 }

abbrev mask : Ip4
mask = record { a = 255; b = 255; c = 255; d = 0 }

abbrev subnet : IpNet
subnet = record { ip = bytes4 network; mask = bytes4 mask }

network-IsBytes : IsBytes network
network-IsBytes = record { a = omega arith; b = omega arith; c = omega arith; d = omega arith }

mask-IsBytes : IsBytes mask
mask-IsBytes = record { a = omega arith; b = omega arith; c = omega arith; d = omega arith }

abbrev loaded : Outcome String (Unit {0}) × World
loaded = new_firewall "wg0" "10.0.0.0/24" calm Data.start

new_firewall-Contains_example :
    (loaded.1.host.attached ≡ some (little_endian network, little_endian mask))
    × ((bit_and (saddr packet) (little_endian mask) ≡ little_endian network)
        ↔ (and_bytes (bytes4 (source_of packet)) (bytes4 mask) ≡ bytes4 network))
unfolding new_firewall interface_by_name or_panic set_constants parse_cidr v4_fields check checked
    ◌>>=◌
new_firewall-Contains_example =
    new_firewall-Contains "wg0" "10.0.0.0/24" calm Data.start {w' = loaded.1} {n = subnet} network
      mask packet refl refl refl refl network-IsBytes mask-IsBytes source-IsBytes

abbrev loaded_mapped : Outcome String (Unit {0}) × World
loaded_mapped = new_firewall "wg0" "::ffff:10.0.0.0/120" calm Data.start

other_source : source_of packet ≢ network
other_source e = ground (arith, ap (λ ip. ip.d) e)

new_firewall-unfiltered_example :
    (loaded_mapped.1.host.attached ≡ some (little_endian network, 4294967295))
    × (filter (little_endian network) 4294967295 [] packet ≡ xdp_pass)
unfolding new_firewall interface_by_name or_panic set_constants parse_cidr v4_fields ihl check
    checked ◌>>=◌
new_firewall-unfiltered_example =
    new_firewall-unfiltered "wg0" "::ffff:10.0.0.0/120" calm Data.start {w' = loaded_mapped.1}
      network [] packet refl refl refl refl network-IsBytes source-IsBytes (omega arith)
      (omega arith) other_source
