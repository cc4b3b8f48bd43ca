-- ===== src/Wireguard/Tables.antt =====
-- The creation of the interface changes no table.
use wgxdp.Base.{ℕ, String, string_eq, Option, none, some, List, Option-elim}
use wgxdp.Base.Int.{ℤ}
use wgxdp.World.{World, Db, Host}
use wgxdp.Act.{Outcome}
use wgxdp.Act.Keeps.{Keeps, Keeps-pure, Keeps-fail}
use wgxdp.Sql.Keeps.{sql_rules}
use wgxdp.Net.Cidr.{IpNet}
use wgxdp.Wireguard.{DeviceAttrs}
use wgxdp.Wireguard.Peers.{delete_link-Keeps, apply-Keeps}
use wgxdp.Wireguard.Keys.{
  some_key, write_private_key, save_key, generate_key, load_key, psk_of, setup_keys,
}
use wgxdp.Wireguard.Setup.{
  NetlinkError, eexist, other, new_link, netlink_call, link_add, link_del, recreate, ensure_link,
  new_device, on_link, addr_add, set_address, route_add, unless_exists, up_and_add_route,
}
use wgxdp.Firewall.Keeps.{Tables}
use wgxdp.Files.Keeps.{file_rules}

module _ (P : Db → Type 0) where
  pub write_private_key-Keeps :
      (path text : String) → Keeps (Tables P) (write_private_key path text)
  unfolding write_private_key
  write_private_key-Keeps path text = search file_rules

  pub some_key-Keeps : (e : String) (o : Option (List ℕ)) → Keeps (Tables P) (some_key e o)
  unfolding some_key
  some_key-Keeps e none = Keeps-fail e
  some_key-Keeps e (some key) = Keeps-pure key

  pub save_key-Keeps : (path : String) (key : List ℕ) → Keeps (Tables P) (save_key path key)
  unfolding save_key
  save_key-Keeps path key = search (file_rules, write_private_key-Keeps)

  pub generate_key-Keeps : (path : String) → Keeps (Tables P) (generate_key path)
  unfolding generate_key
  generate_key-Keeps path = search (sql_rules, save_key-Keeps, some_key-Keeps)

  pub load_key-Keeps : (path : String) → Keeps (Tables P) (load_key path)
  unfolding load_key
  load_key-Keeps path = search (file_rules, some_key-Keeps)

  pub psk_of-Keeps : (psk : String) → Keeps (Tables P) (psk_of psk)
  unfolding psk_of
  psk_of-Keeps psk = search (sql_rules, some_key-Keeps)

  pub setup_keys-Keeps : (key_file psk : String) → Keeps (Tables P) (setup_keys key_file psk)
  unfolding setup_keys
  setup_keys-Keeps key_file psk =
      search (file_rules, generate_key-Keeps, load_key-Keeps, psk_of-Keeps) depth 12

  pub new_link-Keeps : Keeps (Tables P) new_link
  unfolding new_link
  new_link-Keeps = record {
    at = λ env w h.
        Option-elim (λ (r : Outcome NetlinkError (Unit {0}) × World). P r.1.db) _ _ w.link h
          (λ _. h);
  }

  pub netlink_call-Keeps : Keeps (Tables P) netlink_call
  unfolding netlink_call
  netlink_call-Keeps = search sql_rules

  pub link_add-Keeps : Keeps (Tables P) link_add
  unfolding link_add
  link_add-Keeps = search (sql_rules, netlink_call-Keeps, new_link-Keeps)

  pub link_del-Keeps : Keeps (Tables P) link_del
  unfolding link_del
  link_del-Keeps = search (sql_rules, delete_link-Keeps)

  pub recreate-Keeps : (e : NetlinkError) → Keeps (Tables P) (recreate e)
  unfolding recreate
  recreate-Keeps eexist = search (sql_rules, link_add-Keeps, link_del-Keeps)
  recreate-Keeps (other e) = Keeps-fail _

  pub ensure_link-Keeps : Keeps (Tables P) ensure_link
  unfolding ensure_link
  ensure_link-Keeps = search (sql_rules, link_add-Keeps, recreate-Keeps)

  pub new_device-Keeps :
      (name : String) (port : ℤ) (key_file : String)
      → Keeps (Tables P) (new_device name port key_file)
  unfolding new_device
  new_device-Keeps name port key_file =
      search (sql_rules, setup_keys-Keeps, ensure_link-Keeps, apply-Keeps)

  pub on_link-Keeps : (f : Host → Host) → Keeps (Tables P) (on_link f)
  unfolding on_link
  on_link-Keeps f = record {
    at = λ env w h.
        Option-elim (λ (r : Outcome String (Unit {0}) × World). P r.1.db) _ _ w.link h (λ _. h);
  }

  pub addr_add-Keeps : (ip : String) → Keeps (Tables P) (addr_add ip)
  unfolding addr_add
  addr_add-Keeps ip = search (sql_rules, on_link-Keeps)

  pub set_address-Keeps : (dev : DeviceAttrs) (ip : String) → Keeps (Tables P) (set_address dev ip)
  unfolding set_address
  set_address-Keeps dev ip = search (sql_rules, addr_add-Keeps)

  pub route_add-Keeps : (dst : IpNet) → Keeps (Tables P) (route_add dst)
  unfolding route_add
  route_add-Keeps dst = search (sql_rules, on_link-Keeps, netlink_call-Keeps)

  pub unless_exists-Keeps :
      (name : String) (e : NetlinkError) → Keeps (Tables P) (unless_exists name e)
  unfolding unless_exists
  unless_exists-Keeps name eexist = Keeps-pure tt
  unless_exists-Keeps name (other e) = Keeps-fail _

  pub up_and_add_route-Keeps :
      (dev : DeviceAttrs) (dst : IpNet) → Keeps (Tables P) (up_and_add_route dev dst)
  unfolding up_and_add_route
  up_and_add_route-Keeps dev dst =
      search (sql_rules, on_link-Keeps, route_add-Keeps, unless_exists-Keeps)
