-- ===== src/Firewall.antt =====
-- firewall/service.go: the keys of the eBPF map `peer_rules`, and the two methods that write it.
pub mod Filter
pub mod Verdicts
pub mod Keys
pub mod Keeps
pub mod Load
pub mod Permits
pub mod Covers
pub mod Subnet
use wgxdp.Base.{
  ℕ, suc, ◌+◌, ◌≡◌, String, ◌<>◌, Bool, true, false, ◌&&◌, ◌||◌, not, Option, none, some, List, [],
  ◌∷◌, length, leb, any, ◌==◌, nat_eq, if◌then◌else◌,
}
use wgxdp.Base.Int.{ℤ, to_uint16}
use wgxdp.World.{Env, World, PeerRuleKey}
use wgxdp.Act.{Act, Outcome, ok, err, pure, fail, lift, ◌>>=◌, ◌>>◌}
use wgxdp.Sql.{check, wrap_error}
use wgxdp.Net.{Ip4, to4, little_endian}
use wgxdp.Net.Parse.{parse_ip}

-- `key_of_source` and `key_of_destination`: the two halves of `getRuleKey`, with their errors.
abbrev pub address_of : String → String → String → Outcome String Ip4
address_of invalid not_v4 text = elim (parse_ip text) [
  | none ↦ err (invalid <> text)
  | some ip ↦ elim (to4 ip) [ none ↦ err (not_v4 <> text) | some ip4 ↦ ok ip4 ]
]

abbrev pub rule_key : Ip4 → Ip4 → ℤ → ℕ → PeerRuleKey
rule_key src dst port proto = record {
  src_ip = little_endian src;
  dst_ip = little_endian dst;
  port = to_uint16 port;
  proto = proto;
  pad = 0;
}

abbrev pub and_then : {A B : Type 0} → Outcome String A → (A → Outcome String B) → Outcome String B
and_then (ok a) f = f a
and_then (err e) f = err e

unfoldable pub get_rule_key : String → String → ℤ → ℕ → Outcome String PeerRuleKey
get_rule_key src_ip dst_ip port proto =
    and_then (address_of "invalid source IP: " "source IP is not IPv4: " src_ip) λ src.
      and_then (address_of "invalid destination IP: " "destination IP is not IPv4: " dst_ip)
        λ dst. ok (rule_key src dst port proto)

unfoldable pub same_key : PeerRuleKey → PeerRuleKey → Bool
same_key a b =
    a.src_ip == b.src_ip
    && (a.dst_ip == b.dst_ip && (a.port == b.port && (a.proto == b.proto && a.pad == b.pad)))

abbrev pub Rules : Type 0
Rules = List (PeerRuleKey × ℕ)

-- `bpf_map_lookup_elem`
unfoldable pub lookup_elem : PeerRuleKey → Rules → Option ℕ
lookup_elem k [] = none
lookup_elem k ((j, v) ∷ m) = if same_key j k then some v else lookup_elem k m

unfoldable pub update_elem : PeerRuleKey → ℕ → Rules → Rules
update_elem k v [] = (k, v) ∷ []
update_elem k v ((j, u) ∷ m) = if same_key j k then (j, v) ∷ m else (j, u) ∷ update_elem k v m

unfoldable pub delete_elem : PeerRuleKey → Rules → Rules
delete_elem k [] = []
delete_elem k ((j, v) ∷ m) =
    let rest = delete_elem k m in if same_key j k then rest else (j, v) ∷ rest

abbrev pub max_entries : ℕ
max_entries = 1024

abbrev is_some : Option ℕ → Bool
is_some none = false
is_some (some _) = true

-- The kernel's hash map of the size that the program declares: a full one takes no new key.
abbrev pub put_elem : PeerRuleKey → ℕ → World → Outcome String (Unit {0}) × World
put_elem k v w =
    if is_some (lookup_elem k w.peer_rules) || not (leb max_entries (length w.peer_rules))
    then (ok tt, record w { peer_rules = update_elem k v w.peer_rules })
    else (err "argument list too long", w)

-- `PeerRules.Put`
unfoldable pub put_world : PeerRuleKey → ℕ → Act String (Unit {0})
put_world k v env w = put_elem k v w

unfoldable pub put_rule : PeerRuleKey → ℕ → Act String (Unit {0})
unfolding check put_world ◌>>=◌
put_rule k v = do check (λ env. env.map_error); put_world k v

-- `PeerRules.Delete`, with `ErrKeyNotExist` taken for success.
unfoldable pub delete_world : PeerRuleKey → Act String (Unit {0})
delete_world k env w = (ok tt, record w { peer_rules = delete_elem k w.peer_rules })

unfoldable pub delete_rule : PeerRuleKey → Act String (Unit {0})
unfolding check delete_world ◌>>=◌
delete_rule k = do check (λ env. env.map_error); delete_world k

unfoldable pub add_peer_rule : String → String → ℤ → ℕ → Act String (Unit {0})
unfolding put_rule ◌>>=◌
add_peer_rule src_ip dst_ip port proto = do
  key ← wrap_error "could not parse rule key: " (lift (get_rule_key src_ip dst_ip port proto))
  wrap_error "could not add peer rule: " (put_rule key 1)

unfoldable pub remove_peer_rule : String → String → ℤ → ℕ → Act String (Unit {0})
unfolding delete_rule ◌>>=◌
remove_peer_rule src_ip dst_ip port proto = do
  key ← wrap_error "could not parse rule key: " (lift (get_rule_key src_ip dst_ip port proto))
  wrap_error "could not delete rule key: " (delete_rule key)
