-- ===== src/Tests/Store.antt =====
-- Runs of the tables, the addresses and the firewall.
use wgxdp.Base.{
  ℕ, ◌≡◌, ◌↔◌, ◌+◌, ◌<◌, refl, inl, String, true, false, some, [], ◌∷◌, ◌++◌, string_eq, arith,
}
use wgxdp.Base.Int.{pos, to_uint16}
use wgxdp.World.{World, PeerRuleKey}
use wgxdp.Act.{ok, ◌>>=◌}
use wgxdp.Net.{Ip4, bytes4, ip_string, v4_in_v6_prefix}
use wgxdp.Net.Parse.{v4_fields, parse_ip}
use wgxdp.Net.Cidr.{IpNet, parse_cidr}
use wgxdp.Net.RoundTrip.{IsBytes, parse_ip-ip_string}
use wgxdp.Database.Alloc.{
  search_net, search_from, next_available_ip, Search, first_candidate, broadcast_of, address_text,
  answer,
}
use wgxdp.Database.Alloc.FirstFree.{Finds, IsFirstFree}
use wgxdp.Database.Alloc.Answers.{next_available_ip-Finds}
use wgxdp.Database.Alloc.Capacity.{next_available_ip_succeeds}
use wgxdp.Database.Codes.{approve_device_code, consume_access_token}
use wgxdp.Database.Approval.{Granted, approve_device_code-Granted}
use wgxdp.Database.Integrity.{IsSound}
use wgxdp.Database.Tokens.{consume_access_token_once}
use wgxdp.Database.Random.{
  encode_to_string, generate_random_hex, read_random, write_letters, generate_user_code,
}
use wgxdp.Database.Random.Alphabet.{IsCode, generate_user_code-IsCode}
use wgxdp.Sql
use wgxdp.Sql.{sql, check, checked, rows_err}
use wgxdp.Base.Text.{decimal}
use wgxdp.Firewall.{rule_key, get_rule_key, same_key, lookup_elem}
use wgxdp.Firewall.Filter.{ihl, saddr, xdp_pass, filter, packet_key, dest_port, protocol}
use wgxdp.Firewall.Verdicts.{IsFiltered, filter_iff}
use wgxdp.Firewall.Keys.{source_of, destination_of, rule_key_iff}
use wgxdp.Tests.Data.{waiting, calm, start, tables, source, destination, packet}

abbrev subnet : IpNet
subnet = record { ip = 10 ∷ 0 ∷ 0 ∷ 0 ∷ []; mask = 255 ∷ 255 ∷ 255 ∷ 0 ∷ [] }

abbrev network : Ip4
network = record { a = 10; b = 0; c = 0; d = 0 }

parsed : parse_cidr "10.0.0.0/24" ≡ some subnet
unfolding parse_cidr v4_fields
parsed = refl

pub source-IsBytes : IsBytes source
source-IsBytes = record { a = omega arith; b = omega arith; c = omega arith; d = omega arith }

pub destination-IsBytes : IsBytes destination
destination-IsBytes = record { a = omega arith; b = omega arith; c = omega arith; d = omega arith }

pub filtered : IsFiltered 0 0 packet
unfolding ihl saddr protocol
filtered = record {
  whole_ip = omega arith;
  header = omega arith;
  inside = inl refl;
  tcp_or_udp = inl refl;
  whole_l4 = omega arith;
}

abbrev key : PeerRuleKey
key = rule_key source destination (pos 22) 6

keyed : get_rule_key "10.0.0.2" "10.0.0.3" (pos 22) 6 ≡ ok key
unfolding get_rule_key parse_ip to_uint16 v4_fields
keyed = refl

next_available_ip-Finds_example :
    (r : Search) × Finds
      ("10.0.0.2" ∷ "10.0.0.3" ∷ [])
      (first_candidate 167772160)
      (broadcast_of 167772160 4294967040)
      r
    × ((next_available_ip "10.0.0.0/24" calm start).0 ≡ answer "10.0.0.0/24" r)
    × ((next_available_ip "10.0.0.0/24" calm start).1.db ≡ tables)
next_available_ip-Finds_example =
    next_available_ip-Finds "10.0.0.0/24" subnet network calm start parsed refl refl refl

room : first_candidate 167772160 + 2 < broadcast_of 167772160 4294967040
unfolding broadcast_of
room = omega arith

next_available_ip_succeeds_example :
    (text : String) × ((next_available_ip "10.0.0.0/24" calm start).0 ≡ ok text)
    × IsFirstFree
        ("10.0.0.2" ∷ "10.0.0.3" ∷ [])
        (first_candidate 167772160)
        (broadcast_of 167772160 4294967040)
        text
next_available_ip_succeeds_example =
    next_available_ip_succeeds "10.0.0.0/24" subnet network calm start parsed refl refl refl room

fourth : (next_available_ip "10.0.0.0/24" calm start).0 ≡ ok "10.0.0.4"
unfolding next_available_ip sql check checked Sql.apply rows_err ◌>>=◌ parse_cidr v4_fields
    search_net search_from address_text ip_string decimal broadcast_of
fourth = refl

abbrev two : ℕ
two = 1 + 1

parse_ip-ip_string_example : parse_ip (ip_string source) ≡ some (v4_in_v6_prefix ++ bytes4 source)
parse_ip-ip_string_example = parse_ip-ip_string source source-IsBytes

consume_access_token_once_example : false ≡ false
unfolding consume_access_token sql check checked Sql.apply ◌>>=◌
consume_access_token_once_example =
    consume_access_token_once "token" calm start {w' = (consume_access_token "token" calm start).1}
      (omega arith) refl refl

generate_user_code-IsCode_example : IsCode 8 "ABCDEFGH"
unfolding generate_user_code write_letters ◌>>=◌
generate_user_code-IsCode_example =
    generate_user_code-IsCode 8 calm start {bytes = 0 ∷ 1 ∷ 2 ∷ 3 ∷ 4 ∷ 5 ∷ 6 ∷ 7 ∷ []} refl refl
      refl

filter_iff_example :
    (filter 0 0 ((key, 1) ∷ []) packet ≡ xdp_pass)
    ↔ (lookup_elem (packet_key packet) ((key, 1) ∷ []) ≡ some 1)
filter_iff_example = filter_iff 0 0 ((key, 1) ∷ []) packet filtered

abbrev pub loaded : World
loaded = record start { peer_rules = (key, 1) ∷ [] }

rule_key_iff_example : (same_key key (packet_key packet) ≡ true) ↔ (
    (source ≡ source_of packet)
    × (destination ≡ destination_of packet)
    × (to_uint16 (pos 22) ≡ dest_port packet)
    × (6 ≡ protocol packet))
rule_key_iff_example =
    rule_key_iff source destination (pos 22) 6 packet source-IsBytes destination-IsBytes
      source-IsBytes destination-IsBytes

abbrev token : String
token = encode_to_string (0 ∷ 1 ∷ 2 ∷ 3 ∷ 4 ∷ 5 ∷ 6 ∷ 7 ∷ [])

waiting-IsSound : IsSound waiting.db
waiting-IsSound = record {
  peer_names = ((refl, tt), (tt, tt));
  peer_ips = ((refl, tt), (tt, tt));
  device_codes = (tt, tt);
  user_codes = (tt, tt);
  coherent = (inl (refl, refl), tt);
  rules = (tt, tt);
  rule_ids = (tt, tt);
  ids_given = (omega arith, tt);
}

approve_device_code-Granted_example :
    Granted "ABCD-EFGH" "bob" token waiting (approve_device_code "ABCD-EFGH" "bob" calm waiting).1
unfolding approve_device_code generate_random_hex read_random sql check checked Sql.apply ◌>>=◌
approve_device_code-Granted_example =
    approve_device_code-Granted "ABCD-EFGH" "bob" calm waiting waiting-IsSound refl
