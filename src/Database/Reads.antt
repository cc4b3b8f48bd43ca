-- ===== src/Database/Reads.antt =====
-- The methods that only read change neither the tables nor the eBPF map.
use wgxdp.Base.{ℕ, String}
use wgxdp.Base.Int.{ℤ}
use wgxdp.Act.Keeps.{Invariant, Keeps}
use wgxdp.Sql.Keeps.{sql_rules}
use wgxdp.Database.Random.{read_random, generate_random_hex, generate_user_code}
use wgxdp.Database.Peers.{get_all_peers, get_peer_by_name}
use wgxdp.Database.Rules.{get_all_rules, get_rule_by_id}
use wgxdp.Database.Codes.{get_device_code_by_user_code, get_device_code_by_device_code}
use wgxdp.Database.Alloc.{next_available_ip}

module _ {J : Invariant} where
  pub read_random-Keeps : (n : ℕ) → Keeps J (read_random n)
  unfolding read_random
  read_random-Keeps n = search sql_rules

  pub generate_random_hex-Keeps : (n : ℕ) → Keeps J (generate_random_hex n)
  unfolding generate_random_hex
  generate_random_hex-Keeps n = search sql_rules

  pub generate_user_code-Keeps : (n : ℕ) → Keeps J (generate_user_code n)
  unfolding generate_user_code
  generate_user_code-Keeps n = search sql_rules

  pub get_all_peers-Keeps : Keeps J get_all_peers
  unfolding get_all_peers
  get_all_peers-Keeps = search sql_rules

  pub get_peer_by_name-Keeps : (name : String) → Keeps J (get_peer_by_name name)
  unfolding get_peer_by_name
  get_peer_by_name-Keeps name = search sql_rules

  pub get_all_rules-Keeps : Keeps J get_all_rules
  unfolding get_all_rules
  get_all_rules-Keeps = search sql_rules

  pub get_rule_by_id-Keeps : (id : ℤ) → Keeps J (get_rule_by_id id)
  unfolding get_rule_by_id
  get_rule_by_id-Keeps id = search sql_rules

  pub get_device_code_by_user_code-Keeps :
      (code : String) → Keeps J (get_device_code_by_user_code code)
  unfolding get_device_code_by_user_code
  get_device_code_by_user_code-Keeps code = search sql_rules

  pub get_device_code_by_device_code-Keeps :
      (code : String) → Keeps J (get_device_code_by_device_code code)
  unfolding get_device_code_by_device_code
  get_device_code_by_device_code-Keeps code = search sql_rules

  pub next_available_ip-Keeps : (cidr : String) → Keeps J (next_available_ip cidr)
  unfolding next_available_ip
  next_available_ip-Keeps cidr = search sql_rules

pub ruleset read_rules = (
  sql_rules, read_random-Keeps, generate_random_hex-Keeps, generate_user_code-Keeps,
  get_all_peers-Keeps, get_peer_by_name-Keeps, get_all_rules-Keeps, get_rule_by_id-Keeps,
  get_device_code_by_user_code-Keeps, get_device_code_by_device_code-Keeps, next_available_ip-Keeps,
)
