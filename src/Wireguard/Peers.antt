-- ===== src/Wireguard/Peers.antt =====
-- What the methods of the device keep of the tables and the eBPF map: they touch neither.
use wgxdp.Base.{◌<>◌, Option-elim, String, List, [], ◌∷◌}
use wgxdp.World.{Env, World, DeviceConfig, KernelPeer}
use wgxdp.Act.{Outcome, pure, fail}
use wgxdp.Act.Keeps.{Invariant, Keeps, Keeps-fail, Keeps-pure}
use wgxdp.Sql.Keeps.{sql_rules}
use wgxdp.Net.Cidr.{parse_cidr}
use wgxdp.Wireguard.{
  DeviceAttrs, PeerStatus, delete_link, remove, take_config, configure_device, apply, parsed_key,
  allowed_net, add_peer, remove_peer, statuses_from, get_peer_statuses,
}

abbrev After : {B : Type 0} → Invariant → Outcome String B × World → Type 0
After J r = J r.1.db r.1.peer_rules

statuses-keeps :
    (J : Invariant) (ps : List KernelPeer) (found : List (String × PeerStatus)) (env : Env)
    (w : World)
    → J w.db w.peer_rules
    → J (statuses_from found ps env w).1.db (statuses_from found ps env w).1.peer_rules
unfolding statuses_from
statuses-keeps J [] found env w j = j
statuses-keeps J (p ∷ ps) found env w j = statuses-keeps J ps _ env _ j

module _ {J : Invariant} where
  pub delete_link-Keeps : Keeps J delete_link
  unfolding delete_link
  delete_link-Keeps = record { at = λ env w j. Option-elim (After J) _ _ w.link j (λ _. j) }

  remove-Keeps : Keeps J remove
  unfolding remove
  remove-Keeps = search (sql_rules, delete_link-Keeps)

  take_config-Keeps : (cfg : DeviceConfig) → Keeps J (take_config cfg)
  unfolding take_config
  take_config-Keeps cfg = record { at = λ env w j. Option-elim (After J) _ _ w.link j (λ _. j) }

  configure_device-Keeps : (cfg : DeviceConfig) → Keeps J (configure_device cfg)
  unfolding configure_device
  configure_device-Keeps cfg = search (sql_rules, take_config-Keeps)

  pub apply-Keeps : (cfg : DeviceConfig) → Keeps J (apply cfg)
  unfolding apply
  apply-Keeps cfg = search (sql_rules, configure_device-Keeps, remove-Keeps)

  parsed_key-Keeps : (text : String) → Keeps J (parsed_key text)
  unfolding parsed_key
  parsed_key-Keeps text = record {
    at = λ env w j. Option-elim (After J) _ _ (env.parse_key text) j (λ _. j);
  }

  allowed_net-Keeps : (ip : String) → Keeps J (allowed_net ip)
  unfolding allowed_net
  allowed_net-Keeps ip =
      Option-elim (Keeps J) (fail _) pure (parse_cidr (ip <> "/32")) (Keeps-fail _) Keeps-pure

  pub add_peer-Keeps : (dev : DeviceAttrs) (key ip : String) → Keeps J (add_peer dev key ip)
  unfolding add_peer
  add_peer-Keeps dev key ip = search (sql_rules, parsed_key-Keeps, allowed_net-Keeps, apply-Keeps)

  pub remove_peer-Keeps : (dev : DeviceAttrs) (key : String) → Keeps J (remove_peer dev key)
  unfolding remove_peer
  remove_peer-Keeps dev key = search (sql_rules, parsed_key-Keeps, apply-Keeps)

  statuses_from-Keeps : (ps : List KernelPeer) → Keeps J (statuses_from [] ps)
  statuses_from-Keeps ps = record { at = statuses-keeps J ps [] }

  pub get_peer_statuses-Keeps : Keeps J get_peer_statuses
  unfolding get_peer_statuses
  get_peer_statuses-Keeps = search (sql_rules, statuses_from-Keeps)

pub ruleset device_rules = (add_peer-Keeps, remove_peer-Keeps, get_peer_statuses-Keeps)
