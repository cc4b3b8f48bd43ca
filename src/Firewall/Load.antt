-- ===== src/Firewall/Load.antt =====
-- `New` of firewall/service.go: the XDP program is loaded with the subnet in its constants, and attached.
-- The process ends where the code calls `log.Fatal`.
use wgxdp.Base.{ℕ, String, ◌<>◌, Option, none, some, List, [], ◌∷◌}
use wgxdp.Act.{Act, ok, err, pure, fail, modify, ◌>>=◌, ◌>>◌}
use wgxdp.Sql.{check, wrap_error}
use wgxdp.Net.{to4, little_endian}
use wgxdp.Net.Cidr.{IpNet, parse_cidr}

-- `binary.LittleEndian.Uint32` of a slice: its first four bytes; one that is shorter ends the process.
abbrev pub first_word : List ℕ → Option ℕ
first_word (a ∷ b ∷ c ∷ d ∷ _) = some (little_endian (record { a = a; b = b; c = c; d = d }))
first_word _ = none

abbrev pub word_of_ip : List ℕ → Option ℕ
word_of_ip ip = elim (to4 ip) [ none ↦ none | some ip4 ↦ some (little_endian ip4) ]

unfoldable pub or_panic : Option ℕ → Act String ℕ
or_panic none = fail "runtime error: index out of range [3] with length 0"
or_panic (some word) = pure word

-- `filter_net` and `filter_mask`: zeros when the subnet does not parse.
unfoldable pub set_constants : Option IpNet → Act String (ℕ × ℕ)
unfolding or_panic check ◌>>=◌
set_constants none = pure (0, 0)
set_constants (some subnet) = do
  filter_net ← or_panic (word_of_ip subnet.ip)
  filter_mask ← or_panic (first_word subnet.mask)
  wrap_error "Setting filter_net:" (check (λ env. env.bpf_error))
  wrap_error "Setting filter_mask:" (check (λ env. env.bpf_error))
  pure (filter_net, filter_mask)

unfoldable pub interface_by_name : Act String (Unit {0})
interface_by_name env w = elim w.link [
  | none ↦ (err "no such network interface", w)
  | some _ ↦ (ok tt, w)
]

unfoldable pub new_firewall : String → String → Act String (Unit {0})
unfolding interface_by_name set_constants check ◌>>=◌
new_firewall iface_name wg_subnet = do
  wrap_error ("Getting interface " <> (iface_name <> ": "))
      (do check (λ env. env.netlink_error); interface_by_name)
  wrap_error "Loading eBPF spec:" (check (λ env. env.bpf_error))
  constants ← set_constants (parse_cidr wg_subnet)
  wrap_error "Loading eBPF objects:" (check (λ env. env.bpf_error))
  modify (λ w. record w { peer_rules = [] })
  wrap_error "Attaching XDP:" (check (λ env. env.bpf_error))
  modify (λ w. record w { host = record w.host { attached = some constants } })
