-- ===== src/Startup/Tables.antt =====
-- The start of the server changes no table.
use wgxdp.Base.{ℕ, ◌≡◌, refl, String, string_eq, Option, none, some, List, [], ◌∷◌, Option-elim}
use wgxdp.Base.Int.{to_uint8}
use wgxdp.World.{Env, World, Db}
use wgxdp.Act.{Outcome, modify}
use wgxdp.Act.Keeps.{Keeps, Keeps-bind, Keeps-attempt, Keeps-pure, Keeps-fail}
use wgxdp.Sql.Keeps.{sql_rules}
use wgxdp.Database.{PeerRecord, RuleRecord}
use wgxdp.Database.Reads.{read_rules}
use wgxdp.Database.Open.{create_tables, get_database}
use wgxdp.Config.{Config}
use wgxdp.Config.Load.{load, new_config}
use wgxdp.Net.Cidr.{IpNet, parse_cidr}
use wgxdp.Wireguard.{DeviceAttrs}
use wgxdp.Wireguard.Peers.{add_peer-Keeps}
use wgxdp.Firewall.Keeps.{Tables, add_peer_rule-Keeps}
use wgxdp.Firewall.Load.{or_panic, set_constants, interface_by_name, new_firewall}
use wgxdp.Startup.{restore_peers, restore_rules, subnet_of, start_device, start_firewall, start}
use wgxdp.Files.Keeps.{Keeps-modify, Keeps-host, file_rules, Keeps-some}
use wgxdp.Wireguard.Tables.{new_device-Keeps, set_address-Keeps, up_and_add_route-Keeps}

module _ (P : Db → Type 0) where
  load-Keeps : Keeps (Tables P) load
  unfolding load
  load-Keeps = search (file_rules, Keeps-some)

  pub new_config-Keeps : Keeps (Tables P) new_config
  unfolding new_config
  new_config-Keeps = search (sql_rules, load-Keeps)

  create_tables-Keeps : Keeps (Tables P) create_tables
  unfolding create_tables
  create_tables-Keeps = search sql_rules

  pub get_database-Keeps : (path : String) → Keeps (Tables P) (get_database path)
  unfolding get_database
  get_database-Keeps path = search (sql_rules, create_tables-Keeps)

  subnet_of-Keeps : (text : String) → Keeps (Tables P) (subnet_of text)
  unfolding subnet_of
  subnet_of-Keeps text = Keeps-some P _ (parse_cidr text)

  restore_peers-Keeps :
      (dev : DeviceAttrs) (ps : List PeerRecord) → Keeps (Tables P) (restore_peers dev ps)
  unfolding restore_peers
  restore_peers-Keeps dev [] = Keeps-pure tt
  restore_peers-Keeps dev (p ∷ ps) =
      Keeps-bind _ (λ _. restore_peers dev ps)
        (Keeps-attempt _ (add_peer-Keeps dev p.public_key p.assigned_ip))
        (λ _. restore_peers-Keeps dev ps)

  restore_rules-Keeps : (rs : List RuleRecord) → Keeps (Tables P) (restore_rules rs)
  unfolding restore_rules
  restore_rules-Keeps [] = Keeps-pure tt
  restore_rules-Keeps (r ∷ rs) =
      Keeps-bind _ (λ _. restore_rules rs)
        (Keeps-attempt _ (add_peer_rule-Keeps P r.src_ip r.dst_ip r.port (to_uint8 r.proto)))
        (λ _. restore_rules-Keeps rs)

  start_device-Keeps : (cfg : Config) → Keeps (Tables P) (start_device cfg)
  unfolding start_device
  start_device-Keeps cfg =
      search
        (
          read_rules, new_device-Keeps, subnet_of-Keeps, set_address-Keeps, up_and_add_route-Keeps,
          restore_peers-Keeps,
        )
        depth 14

  or_panic-Keeps : (o : Option ℕ) → Keeps (Tables P) (or_panic o)
  unfolding or_panic
  or_panic-Keeps none = Keeps-fail _
  or_panic-Keeps (some word) = Keeps-pure word

  set_constants-Keeps : (n : Option IpNet) → Keeps (Tables P) (set_constants n)
  unfolding set_constants
  set_constants-Keeps none = Keeps-pure _
  set_constants-Keeps (some subnet) = search (sql_rules, or_panic-Keeps) depth 12

  interface_by_name-Keeps : Keeps (Tables P) interface_by_name
  unfolding interface_by_name
  interface_by_name-Keeps = record {
    at = λ env w h.
        Option-elim (λ (r : Outcome String (Unit {0}) × World). P r.1.db) _ _ w.link h (λ _. h);
  }

  emptied-Keeps : Keeps (Tables P) (modify {E = String} (λ w. record w { peer_rules = [] }))
  emptied-Keeps = Keeps-modify P (λ w. record w { peer_rules = [] }) (λ w. refl)

  new_firewall-Keeps : (name subnet : String) → Keeps (Tables P) (new_firewall name subnet)
  unfolding new_firewall
  new_firewall-Keeps name subnet =
      search (sql_rules, interface_by_name-Keeps, set_constants-Keeps, emptied-Keeps, Keeps-host)
        depth 14

  start_firewall-Keeps : (cfg : Config) → Keeps (Tables P) (start_firewall cfg)
  unfolding start_firewall
  start_firewall-Keeps cfg = search (read_rules, new_firewall-Keeps, restore_rules-Keeps)

  start-Keeps : (index_html : String) → Keeps (Tables P) (start index_html)
  unfolding start
  start-Keeps index_html =
      search
        (sql_rules, new_config-Keeps, get_database-Keeps, start_device-Keeps, start_firewall-Keeps)
        depth 12

-- Whatever the outside answers, and wherever the start ends, the tables are as they were.
pub start-db : (index_html : String) (env : Env) (w : World) → (start index_html env w).1.db ≡ w.db
start-db index_html env w = (start-Keeps (λ db. db ≡ w.db) index_html).at env w refl
