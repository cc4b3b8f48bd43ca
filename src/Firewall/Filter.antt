-- ===== src/Firewall/Filter.antt =====
-- The XDP program of firewall/c/program.c, over the bytes of a packet. Words of the header are read
-- in the byte order of a little-endian machine.
use Prim.Native.Nat.{bit_and}
use wgxdp.Base.{
  ℕ, zero, suc, ◌+◌, ◌*◌, ◌%◌, Bool, false, ◌&&◌, ◌||◌, not, Option, none, some, List, [], ◌∷◌,
  length, ltb, ◌==◌, nat_eq, if◌then◌else◌,
}
use wgxdp.World.{PeerRuleKey}
use wgxdp.Net.{little_endian}
use wgxdp.Firewall.{Rules, lookup_elem}

pub data Verdict : Type 0 where
  xdp_pass xdp_drop : Verdict

-- A byte of the packet; the program reads none past the end.
abbrev pub byte_at : List ℕ → ℕ → ℕ
byte_at [] i = 0
byte_at (b ∷ bs) zero = b
byte_at (b ∷ bs) (suc i) = byte_at bs i

abbrev word_at : List ℕ → ℕ → ℕ
word_at p i = little_endian (record {
  a = byte_at p i;
  b = byte_at p (i + 1);
  c = byte_at p (i + 2);
  d = byte_at p (i + 3);
})

-- The low four bits of the first byte.
unfoldable pub ihl : List ℕ → ℕ
ihl p = byte_at p 0 % 16

unfoldable pub protocol : List ℕ → ℕ
protocol p = byte_at p 9

unfoldable pub saddr : List ℕ → ℕ
saddr p = word_at p 12

unfoldable pub daddr : List ℕ → ℕ
daddr p = word_at p 16

-- `bpf_ntohs(l4->dest)`
unfoldable pub dest_port : List ℕ → ℕ
dest_port p = byte_at p (ihl p * 4 + 2) * 256 + byte_at p (ihl p * 4 + 3)

abbrev pub packet_key : List ℕ → PeerRuleKey
packet_key p = record {
  src_ip = saddr p;
  dst_ip = daddr p;
  port = dest_port p;
  proto = protocol p;
  pad = 0;
}

abbrev pub is_one : Option ℕ → Bool
is_one none = false
is_one (some action) = action == 1

unfoldable pub filter : ℕ → ℕ → Rules → List ℕ → Verdict
filter filter_net filter_mask rules p =
    if ltb (length p) 20
    then xdp_drop
    else if ltb (ihl p) 5 || ltb 15 (ihl p)
    then xdp_drop
    else if not (filter_mask == 0) && not (bit_and (saddr p) filter_mask == filter_net)
    then xdp_pass
    else if not (protocol p == 6) && not (protocol p == 17)
    then xdp_pass
    else if ltb (length p) (ihl p * 4 + 8)
    then xdp_drop
    else if is_one (lookup_elem (packet_key p) rules)
    then xdp_pass
    else xdp_drop
