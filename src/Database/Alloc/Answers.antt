-- ===== src/Database/Alloc/Answers.antt =====
-- What `NextAvailableIP` answers, over the whole method.
use wgxdp.Base.{ℕ, suc, ◌-◌, ◌<◌, ◌≡◌, String, none, some, List, arith}
use wgxdp.Base.Bits.{bit_or-lt}
use wgxdp.World.{Env, World}
use wgxdp.Act.{◌>>=◌}
use wgxdp.Sql.{sql, rows_err}
use wgxdp.Net.{Ip4, to4, big_endian}
use wgxdp.Net.RoundTrip.{IsBytes}
use wgxdp.Net.Cidr.{IpNet, parse_cidr}
use wgxdp.Net.Cidr.Bytes.{parse_cidr-to4-IsBytes}
use wgxdp.Database.Alloc.{
  u32, answer, Search, search_net, first_candidate, broadcast_of, mask_number, assigned_ips,
  next_available_ip,
}
use wgxdp.Database.Alloc.FirstFree.{Finds, search_from-Finds}

broadcast_of-lt : (net mask : ℕ) → net < u32 → broadcast_of net mask < u32
unfolding broadcast_of
broadcast_of-lt net mask h = bit_or-lt 32 net (u32 - 1 - mask) h (omega arith)

big_endian-lt : (ip : Ip4) → IsBytes ip → big_endian ip < u32
big_endian-lt ip h = omega arith

-- The search of a network, with the fuel that the model gives it.
pub search_net-Finds :
    (used : List String) (net mask : ℕ)
    → net < u32
    → Finds used (first_candidate net) (broadcast_of net mask) (search_net used net mask)
unfolding search_net
search_net-Finds used net mask h =
    search_from-Finds used (broadcast_of net mask) (suc (broadcast_of net mask))
      (first_candidate net) (broadcast_of-lt net mask h) (omega arith)

pub next_available_ip-broadcast :
    (cidr : String) (subnet : IpNet) (ip : Ip4)
    → parse_cidr cidr ≡ some subnet
    → to4 subnet.ip ≡ some ip
    → broadcast_of (big_endian ip) (mask_number subnet.mask) < u32
next_available_ip-broadcast cidr subnet ip parsed v4 =
    broadcast_of-lt (big_endian ip) (mask_number subnet.mask)
      (big_endian-lt ip (parse_cidr-to4-IsBytes cidr subnet ip parsed v4))

-- On an IPv4 subnet, when SQLite answers both the query and the iteration, the method returns the
-- first free address between network + 2 (in uint32) and the broadcast address, or its error when
-- every address there is assigned; the database is left as it was.
pub next_available_ip-Finds :
    (cidr : String) (subnet : IpNet) (ip : Ip4) (env : Env) (w : World)
    → parse_cidr cidr ≡ some subnet
    → to4 subnet.ip ≡ some ip
    → env.sql_error w.tick ≡ none
    → env.sql_error (suc w.tick) ≡ none
    → (r : Search) × Finds
        (assigned_ips w.db.peers.rows)
        (first_candidate (big_endian ip))
        (broadcast_of (big_endian ip) (mask_number subnet.mask))
        r
      × ((next_available_ip cidr env w).0 ≡ answer cidr r)
      × ((next_available_ip cidr env w).1.db ≡ w.db)
unfolding next_available_ip sql rows_err ◌>>=◌
next_available_ip-Finds cidr subnet ip env w parsed v4 answered iterated = (
  search_net (assigned_ips w.db.peers.rows) (big_endian ip) (mask_number subnet.mask),
  search_net-Finds (assigned_ips w.db.peers.rows) (big_endian ip) (mask_number subnet.mask)
      (big_endian-lt ip (parse_cidr-to4-IsBytes cidr subnet ip parsed v4)),
  simp (parsed, answered, iterated, v4),
  simp (parsed, answered, iterated, v4),
)
