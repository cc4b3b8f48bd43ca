-- ===== src/Wireguard/Setup.antt =====
-- wireguard/device.go and wireguard/utils.go: the interface at start-up, by calls of netlink.
use wgxdp.Base.{
  String, ◌<>◌, Bool, true, not, ◌&&◌, none, some, [], ◌∷◌, ◌==◌, string_eq, nat_eq, list_eq, any,
}
use wgxdp.Base.Text.{decimal}
use wgxdp.Base.Int.{ℤ}
use wgxdp.World.{Host, DeviceConfig}
use wgxdp.Act.{Act, ok, err, pure, fail, reads, gets, on_error, guard, ◌>>=◌, ◌>>◌}
use wgxdp.Sql.{check, wrap_error}
use wgxdp.Net.Cidr.{IpNet}
use wgxdp.Wireguard.{DeviceAttrs, delete_link, apply}
use wgxdp.Wireguard.Keys.{Keys, setup_keys}

-- An error of netlink is `EEXIST` or another.
pub data NetlinkError : Type 0 where
  eexist : NetlinkError
  other : String → NetlinkError

abbrev netlink_text : NetlinkError → String
netlink_text eexist = "file exists"
netlink_text (other e) = e

unfoldable pub new_link : Act NetlinkError (Unit {0})
new_link env w = elim w.link [
  | some _ ↦ (err eexist, w)
  | none ↦ (ok tt, record w { link = some [] })
]

unfoldable pub netlink_call : Act NetlinkError (Unit {0})
unfolding check ◌>>=◌
netlink_call = on_error (check (λ env. env.netlink_error)) (λ e. fail (other e))

-- `netlink.LinkAdd`
unfoldable pub link_add : Act NetlinkError (Unit {0})
unfolding netlink_call new_link ◌>>=◌
link_add = do netlink_call; new_link

-- `netlink.LinkDel`
unfoldable pub link_del : Act String (Unit {0})
unfolding check delete_link ◌>>=◌
link_del = do check (λ env. env.netlink_error); delete_link

-- An interface of the name that is there is deleted first.
unfoldable pub recreate : NetlinkError → Act String (Unit {0})
unfolding link_add link_del check ◌>>=◌
recreate (other e) = fail ("could not create wireguard interface: " <> e)
recreate eexist = do
  check (λ env. env.netlink_error)
  link_del
  on_error link_add (λ e. fail ("could not create wireguard interface: " <> netlink_text e))

unfoldable pub ensure_link : Act String (Unit {0})
unfolding recreate link_add check ◌>>=◌
ensure_link = do
  on_error link_add recreate
  index ← reads (λ env. env.link_index)
  wrap_error ("can't locate created wireguard device with index " <> (decimal index <> ": "))
      (check (λ env. env.netlink_error))

abbrev pub first_config : DeviceAttrs → DeviceConfig
first_config attrs = record {
  private_key = some attrs.private_key;
  listen_port = some attrs.listen_port;
  replace_peers = true;
  peers = [];
}

abbrev pub attrs_of : String → ℤ → Keys → DeviceAttrs
attrs_of name listen_port keys = record {
  listen_port = listen_port;
  private_key = keys.private_key;
  public_key = keys.public_key;
  psk = keys.psk;
  name = name;
  mtu = 1420;
}

-- `NewDevice`; what it does when the context is cancelled is `remove`.
unfoldable pub new_device : String → ℤ → String → Act String DeviceAttrs
new_device name listen_port key_file = do
  keys ← setup_keys key_file ""
  ensure_link
  apply (first_config (attrs_of name listen_port keys))
  pure (attrs_of name listen_port keys)

-- A change of what is set on the interface.
unfoldable pub on_link : (Host → Host) → Act String (Unit {0})
on_link f env w = elim w.link [
  | none ↦ (err "no such device", w)
  | some _ ↦ (ok tt, record w { host = f w.host })
]

-- `netlink.AddrAdd`, which refuses an address that is set.
unfoldable pub addr_add : String → Act String (Unit {0})
unfolding check on_link ◌>>=◌
addr_add ip_cidr = do
  check (λ env. env.netlink_error)
  set_twice ← gets (λ w. any (λ a. a == ip_cidr) w.host.addresses)
  guard (not set_twice) "file exists"
  on_link (λ h. record h { addresses = ip_cidr ∷ h.addresses })

unfoldable pub set_address : DeviceAttrs → String → Act String (Unit {0})
unfolding addr_add ◌>>=◌
set_address dev ip_cidr = do
  parsed ← reads (λ env. env.parses_address ip_cidr)
  guard parsed ("could not parse address " <> (ip_cidr <> ": invalid CIDR address"))
  wrap_error ("could not add address to " <> (dev.name <> ": ")) (addr_add ip_cidr)

abbrev pub same_net : IpNet → IpNet → Bool
same_net a b = a.ip == b.ip && a.mask == b.mask

-- `netlink.RouteAdd`, which refuses a route that is there.
unfoldable pub route_add : IpNet → Act NetlinkError (Unit {0})
unfolding netlink_call on_link ◌>>=◌
route_add dst = do
  netlink_call
  there ← gets (λ w. any (same_net dst) w.host.routes)
  guard (not there) eexist
  on_error (on_link (λ h. record h { routes = dst ∷ h.routes })) (λ e. fail (other e))

unfoldable pub unless_exists : String → NetlinkError → Act String (Unit {0})
unless_exists name eexist = pure tt
unless_exists name (other e) = fail ("failed to add route " <> (name <> (": " <> e)))

unfoldable pub up_and_add_route : DeviceAttrs → IpNet → Act String (Unit {0})
unfolding unless_exists route_add on_link check ◌>>=◌
up_and_add_route dev dst = do
  wrap_error ("failed to set interface " <> (dev.name <> " to UP state: "))
      (do check (λ env. env.netlink_error); on_link (λ h. record h { is_up = true }))
  on_error (route_add dst) (unless_exists dev.name)
