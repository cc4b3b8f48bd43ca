-- ===== src/Tests/Http.antt =====
-- Runs of the handlers.
use wgxdp.Base.{◌≡◌, refl, inr, String, true, some, List, [], ◌∷◌, ◌==◌, string_eq, arith}
use wgxdp.Base.Int.{pos, to_uint8}
use wgxdp.World.{World, PeerRuleKey}
use wgxdp.Act.{ok, ◌>>=◌}
use wgxdp.Sql
use wgxdp.Sql.{sql, check, checked, rows_err}
use wgxdp.Net.Parse.{parse_ip, v4_fields}
use wgxdp.Net.Cidr.{parse_cidr}
use wgxdp.Base.Text.{decimal}
use wgxdp.Base.Int.{to_uint16}
use wgxdp.Net.{ip_string}
use wgxdp.Database.Alloc.{next_available_ip, search_net, search_from, broadcast_of, address_text}
use wgxdp.Database.Integrity.{IsSound}
use wgxdp.Database.Lifecycle.{IsLater}
use wgxdp.Database.Codes.{find_code, consume_access_token, get_device_code_by_device_code}
use wgxdp.Database.Peers.{find_peer, add_peer}
use wgxdp.Database.Rules.{find_rule, add_rule, get_rule_by_id}
use wgxdp.Database.Tokens.{Consumed}
use wgxdp.Firewall.{get_rule_key, add_peer_rule, lookup_elem, remove_peer_rule}
use wgxdp.Firewall.Filter.{xdp_drop, filter, xdp_pass, ihl, protocol, dest_port}
use wgxdp.Firewall.{rule_key, same_key}
use wgxdp.Firewall.Permits.{Implements}
use wgxdp.Startup.Loading.{rules_in}
use wgxdp.Server.Rules.Refinement.{create_rule-Implements, delete_rule-Implements}
use wgxdp.Wireguard
use wgxdp.Server.{Body, decoded, Response, respond, joined, access_token, handler}
use wgxdp.Server.Calls.{Event, call, clean_up, protected, join, post_rules, run}
use wgxdp.Server.Integrity.{run-IsSound}
use wgxdp.Server.Lifecycle.{run-IsLater}
use wgxdp.Server.DeviceFlow.{device_token_handler, unmarshal, config_of, live_code, token_answer}
use wgxdp.Server.Answers.{Polled, device_token_handler-Polled}
use wgxdp.Server.Tokens.{IsApproved, device_token_handler-IsApproved}
use wgxdp.Server.Rules.{create_rule, proto_or_tcp, with_xdp}
use wgxdp.Database.Rules as Stored
use wgxdp.Database.Peers as Stored_peers
use wgxdp.Server.Rules as Api
use wgxdp.Server.Rules.ParseInt.{parse_int}
use wgxdp.Server.Rules.Effects.{
  delete_rule_unkeyed, RuleCreated, create_rule-RuleCreated, RuleDeleted, delete_rule_found,
}
use wgxdp.Server.Rules.Traffic.{IsOfStored, delete_rule-drops, IsOfRule, create_rule-passes}
use wgxdp.Server.Peers.{
  JoinRequest, join_handler, delete_peer, admit_peer, peer_name_or, server_key, with_device,
  joined_response,
}
use wgxdp.Server.Peers
use wgxdp.Config.{Config}
use wgxdp.Server.Peers.Joining.{Admitted, join_handler-Admitted}
use wgxdp.Server.Peers.Effects.{delete_peer_unparsed}
use wgxdp.Tests.Data.{
  stored_v6, stored, calm, start, tables, server, request, anonymous, ssh, source, destination,
  packet, newcomer, poll, device, config,
}
use wgxdp.Tests.Store.{source-IsBytes, destination-IsBytes, filtered}

abbrev pub events : List Event
events =
    call (join (request (decoded newcomer)))
    ∷ call (protected (post_rules (request (decoded ssh))))
    ∷ clean_up
    ∷ []

pub start-IsSound : IsSound tables
start-IsSound = record {
  peer_names = ((refl, tt), (tt, tt));
  peer_ips = ((refl, tt), (tt, tt));
  device_codes = (tt, tt);
  user_codes = (tt, tt);
  coherent = (inr (inr ("token", refl, refl)), tt);
  rules = (tt, tt);
  rule_ids = (tt, tt);
  ids_given = (omega arith, tt);
}

run-IsSound_example : IsSound (run server events calm start).db
run-IsSound_example = run-IsSound server events calm start start-IsSound

run-IsLater_example : IsLater tables.device_codes (run server events calm start).db.device_codes
run-IsLater_example = run-IsLater server events calm start

device_token_handler-Polled_example :
    Polled "dc" 1000 tables.device_codes.rows
      (device_token_handler server (request (decoded poll)) calm start).0
    × ((device_token_handler server (request (decoded poll)) calm start).1.db ≡ tables)
    × ((device_token_handler server (request (decoded poll)) calm start).1.peer_rules ≡ [])
device_token_handler-Polled_example =
    device_token_handler-Polled server (request (decoded poll)) poll calm start refl refl refl
      start-IsSound

device_token_handler-IsApproved_example :
    IsApproved
      (find_code (λ c. c.device_code == "dc") tables.device_codes.rows)
      1000
      (respond 200 (access_token "token" "Bearer"))
unfolding device_token_handler handler unmarshal get_device_code_by_device_code live_code
    token_answer sql check checked Sql.apply ◌>>=◌
device_token_handler-IsApproved_example =
    device_token_handler-IsApproved server (request (decoded poll)) poll calm start refl refl refl

abbrev post : Response × World
post = create_rule server (request (decoded ssh)) calm start

create_rule-RuleCreated_example :
    (key : PeerRuleKey) × (get_rule_key "10.0.0.2" "10.0.0.3" (pos 22) (to_uint8 (pos 6)) ≡ ok key)
    × RuleCreated ssh 1000 key start post.1
unfolding create_rule handler unmarshal with_xdp add_rule add_peer_rule get_rule_key lookup_elem
    parse_ip v4_fields to_uint8 sql check checked Sql.apply ◌>>=◌
create_rule-RuleCreated_example =
    create_rule-RuleCreated server (request (decoded ssh)) ssh calm start refl refl refl refl

packet-IsOfRule : IsOfRule source destination ssh 0 0 packet
unfolding dest_port protocol ihl to_uint16 to_uint8
packet-IsOfRule = record {
  filtered = filtered;
  source = refl;
  destination = refl;
  port = refl;
  proto = refl;
}

create_rule-passes_example : filter 0 0 post.1.peer_rules packet ≡ xdp_pass
unfolding create_rule handler unmarshal with_xdp add_rule add_peer_rule get_rule_key lookup_elem
    parse_ip v4_fields to_uint8 sql check checked Sql.apply ip_string decimal ◌>>=◌
create_rule-passes_example =
    create_rule-passes server (request (decoded ssh)) ssh calm start source destination 0 0 packet
      refl refl refl refl refl refl source-IsBytes destination-IsBytes packet-IsOfRule

abbrev erase : Response × World
erase = Api.delete_rule server (request {B = Unit {0}} Body.empty) calm start

delete_rule_found_example :
    RuleDeleted
      (pos 1)
      (record {
        id = pos 1;
        src_ip = "10.0.0.2";
        dst_ip = "10.0.0.9";
        port = pos 443;
        proto = pos 6;
      })
      start
      erase.1
unfolding Api.delete_rule handler Api.rule_id Api.existing_rule Api.remove_from_map with_xdp
    get_rule_by_id Stored.remove_rule remove_peer_rule parse_int get_rule_key parse_ip v4_fields
    to_uint8 sql check checked Sql.apply ◌>>=◌
delete_rule_found_example =
    delete_rule_found server (request {B = Unit {0}} Body.empty) (pos 1) calm start refl refl refl
      refl

abbrev leave : Response × World
leave = delete_peer server (request {B = Unit {0}} Body.empty) calm start

delete_peer_unparsed_example :
    ((delete_peer server anonymous calm start).0.status ≡ 500)
    × ((delete_peer server anonymous calm start).1.db ≡ tables)
delete_peer_unparsed_example =
    delete_peer_unparsed server anonymous calm start {dev = device} refl refl refl refl

abbrev entry : Response × World
entry = join_handler server (request (decoded newcomer)) calm start

join_handler-Admitted_example :
    (jr : JoinRequest) × (config' : Config) × (ip : String) × (u : World) × (decoded newcomer
      ≡ decoded jr)
    × (some config ≡ some config')
    × Consumed jr.access_token 1000 start true u
    × Admitted config' jr calm u entry.1 ip
    × (entry.0
        ≡ respond 200 (
            joined ip config'.wg_subnet
              (server_key calm.show_key server.device)
              config'.wg_endpoint
              (peer_name_or jr.name ip)))
unfolding join_handler handler unmarshal consume_access_token admit_peer config_of next_available_ip
    search_net search_from broadcast_of parse_cidr v4_fields ip_string decimal add_peer with_device
    Wireguard.add_peer Wireguard.parsed_key Wireguard.allowed_net Wireguard.apply
    Wireguard.configure_device Wireguard.take_config joined_response address_text rows_err sql check
    checked Sql.apply ◌>>=◌
join_handler-Admitted_example =
    join_handler-Admitted server (request (decoded newcomer)) calm start {v = entry.1} refl refl

packet-IsOfStored :
    IsOfStored source destination
      (record {
        id = pos 1;
        src_ip = "10.0.0.2";
        dst_ip = "10.0.0.3";
        port = pos 22;
        proto = pos 6;
      })
      0
      0
      packet
unfolding dest_port protocol ihl to_uint16 to_uint8
packet-IsOfStored = record {
  filtered = filtered;
  source = refl;
  destination = refl;
  port = refl;
  proto = refl;
}

abbrev retract : Response × World
retract = Api.delete_rule server (request {B = Unit {0}} Body.empty) calm stored

delete_rule-drops_example : filter 0 0 retract.1.peer_rules packet ≡ xdp_drop
unfolding Api.delete_rule handler Api.rule_id Api.existing_rule Api.remove_from_map with_xdp
    get_rule_by_id Stored.remove_rule remove_peer_rule parse_int get_rule_key parse_ip v4_fields
    to_uint8 ip_string decimal sql check checked Sql.apply ◌>>=◌
delete_rule-drops_example =
    delete_rule-drops server (request {B = Unit {0}} Body.empty) (pos 1) calm stored source
      destination 0 0 packet refl refl refl refl refl refl refl source-IsBytes destination-IsBytes
      packet-IsOfStored

delete_rule_unkeyed_example :
    ((Api.delete_rule server (request {B = Unit {0}} Body.empty) calm stored_v6).0.status ≡ 500)
    × ((Api.delete_rule server (request {B = Unit {0}} Body.empty) calm stored_v6).1.db
        ≡ stored_v6.db)
unfolding parse_int get_rule_key parse_ip v4_fields
delete_rule_unkeyed_example =
    delete_rule_unkeyed server (request {B = Unit {0}} Body.empty) (pos 1) calm stored_v6 refl
      {why = "destination IP is not IPv4: ::1"} refl refl refl refl refl

-- An empty map, and one that holds the rule of the packet.

abbrev no_rules : World
no_rules = record start { db = record tables { firewall_rules = record { rows = []; seq = 1 } } }

no_rules-Implements : Implements (rules_in no_rules) []
unfolding lookup_elem
no_rules-Implements = record { agrees = λ k. refl }

abbrev post_first : Response × World
post_first = create_rule server (request (decoded ssh)) calm no_rules

create_rule-Implements_example : Implements (rules_in post_first.1) post_first.1.peer_rules
unfolding create_rule handler unmarshal with_xdp add_rule add_peer_rule get_rule_key lookup_elem
    parse_ip v4_fields to_uint8 sql check checked Sql.apply ◌>>=◌
create_rule-Implements_example =
    create_rule-Implements server (request (decoded ssh)) ssh calm no_rules refl refl refl refl
      no_rules-Implements

abbrev packet_rule : PeerRuleKey
packet_rule = rule_key source destination (pos 22) 6

abbrev loaded : World
loaded = record stored { peer_rules = (packet_rule, 1) ∷ [] }

loaded-Implements : Implements (rules_in loaded) loaded.peer_rules
unfolding lookup_elem get_rule_key parse_ip v4_fields to_uint8 to_uint16
loaded-Implements = record { agrees = λ k. ground arith }

abbrev withdraw : Response × World
withdraw = Api.delete_rule server (request {B = Unit {0}} Body.empty) calm loaded

delete_rule-Implements_example : Implements (rules_in withdraw.1) withdraw.1.peer_rules
unfolding Api.delete_rule handler Api.rule_id Api.existing_rule Api.remove_from_map with_xdp
    get_rule_by_id Stored.remove_rule remove_peer_rule parse_int get_rule_key parse_ip v4_fields
    same_key to_uint8 to_uint16 sql check checked Sql.apply ◌>>=◌
delete_rule-Implements_example =
    delete_rule-Implements server (request {B = Unit {0}} Body.empty) (pos 1) calm loaded
      {w' = withdraw.1} {key = packet_rule} refl refl refl refl refl refl refl refl (refl, tt)
      loaded-Implements
