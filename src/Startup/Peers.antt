-- ===== src/Startup/Peers.antt =====
-- The interface after the peers of the database have been put back.
use wgxdp.Base.{
  ℕ, suc, ◌≡◌, refl, ap, sym, subst, ◌∙◌, String, ◌<>◌, string_eq, Option, none, some, List, [],
  ◌∷◌, map, arith, inl, inr, Option-cases,
}
use wgxdp.World.{Env, World, DeviceConfig}
use wgxdp.Act.{ok, err, pure, fail, bind-cases, ◌>>=◌}
use wgxdp.Sql.{check, checked, sql, apply, rows_err, wrap_error}
use wgxdp.Net.Cidr.{IpNet, parse_cidr}
use wgxdp.Config.{Config}
use wgxdp.Database.{PeerRecord}
use wgxdp.Database.Peers.{peer_record, get_all_peers}
use wgxdp.Wireguard
use wgxdp.Wireguard.{
  DeviceAttrs, add_peer, peer_added, parsed_key, allowed_net, remove, configure_device, take_config,
  delete_link,
}
use wgxdp.Wireguard.Setup.{
  first_config, set_address, addr_add, on_link, up_and_add_route, unless_exists, route_add,
  netlink_call,
}
use wgxdp.Wireguard.Fresh.{new_device-link}
use wgxdp.Wireguard.Tables.{new_device-Keeps}
use wgxdp.Sql.Past.{past_wrap}
use wgxdp.Startup.Loading.{start_firewall-link}
use wgxdp.Startup.Tables.{new_config-Keeps, get_database-Keeps}
use wgxdp.Config.Load.{new_config}
use wgxdp.Database.Open.{get_database}
use wgxdp.Server.{Server}
use wgxdp.Startup.{subnet_of, restore_peers, start_device, start}

-- The configurations of the interface with those of one more peer, and of all peers of a list. A peer
-- whose key or address does not parse is passed over.
abbrev with_peer :
    DeviceAttrs → Option (List ℕ) → Option IpNet → List DeviceConfig → List DeviceConfig
with_peer dev none net taken = taken
with_peer dev (some key) none taken = taken
with_peer dev (some key) (some net) taken = peer_added dev key net ∷ taken

abbrev pub with_peers :
    (String → Option (List ℕ))
    → DeviceAttrs
    → List PeerRecord
    → List DeviceConfig
    → List DeviceConfig
with_peers parse_key dev [] taken = taken
with_peers parse_key dev (p ∷ ps) taken =
    with_peers parse_key dev ps
      (with_peer dev (parse_key p.public_key) (parse_cidr (p.assigned_ip <> "/32")) taken)

add_peer-link :
    (dev : DeviceAttrs) (key_text ip : String) (env : Env) (w : World) {taken : List DeviceConfig}
    → ((t : ℕ) → env.wgctrl_error t ≡ none)
    → w.link ≡ some taken
    → (add_peer dev key_text ip env w).1.link
      ≡ some (with_peer dev (env.parse_key key_text) (parse_cidr (ip <> "/32")) taken)
unfolding add_peer parsed_key allowed_net Wireguard.apply remove configure_device take_config
    delete_link check checked ◌>>=◌
add_peer-link dev key_text ip env w answers up = elim (Option-cases (env.parse_key key_text)) [
  | inl bad ↦ ground arith
  | inr (key, read) ↦ elim (Option-cases (parse_cidr (ip <> "/32"))) [
    | inl bad ↦ ground arith
    | inr (net, parsed) ↦ ground (arith, answers w.tick, answers (suc w.tick))
  ]
]

restore_peers-link :
    (dev : DeviceAttrs) (ps : List PeerRecord) (env : Env) (w : World) {taken : List DeviceConfig}
    → ((t : ℕ) → env.wgctrl_error t ≡ none)
    → w.link ≡ some taken
    → (restore_peers dev ps env w).1.link ≡ some (with_peers env.parse_key dev ps taken)
unfolding restore_peers ◌>>=◌
restore_peers-link dev [] env w answers up = up
restore_peers-link dev (p ∷ ps) env w answers up =
    restore_peers-link dev ps env (add_peer dev p.public_key p.assigned_ip env w).1 answers
      (add_peer-link dev p.public_key p.assigned_ip env w answers up)

-- The steps between the interface and its peers.
set_address-link :
    (dev : DeviceAttrs) (ip : String) (env : Env) (w : World) {v : World}
    → set_address dev ip env w ≡ (ok tt, v)
    → (v.link ≡ w.link) × (v.db ≡ w.db)
unfolding set_address addr_add on_link check checked ◌>>=◌
set_address-link dev ip env w e = ground arith

up_and_add_route-link :
    (dev : DeviceAttrs) (dst : IpNet) (env : Env) (w : World) {v : World}
    → up_and_add_route dev dst env w ≡ (ok tt, v)
    → (v.link ≡ w.link) × (v.db ≡ w.db)
unfolding up_and_add_route unless_exists route_add netlink_call on_link check checked ◌>>=◌
up_and_add_route-link dev dst env w e = ground arith

subnet_of-same :
    (text : String) (env : Env) (w : World) {n : IpNet} {v : World}
    → subnet_of text env w ≡ (ok n, v)
    → (v.link ≡ w.link) × (v.db ≡ w.db)
unfolding subnet_of pure fail
subnet_of-same text env w e = ground arith

get_all_peers-all :
    (env : Env) (w : World) {peers : List PeerRecord} {v : World}
    → get_all_peers env w ≡ (ok peers, v)
    → (peers ≡ map peer_record w.db.peers.rows) × (v.link ≡ w.link)
unfolding get_all_peers rows_err sql apply check checked ◌>>=◌
get_all_peers-all env w e = ground arith

module _ (cfg : Config) (env : Env) (answers : (t : ℕ) → env.wgctrl_error t ≡ none) where
  -- The interface has the configuration of the device, and those of the peers.
  start_device-link :
      (w : World) {dev : DeviceAttrs} {w' : World}
      → start_device cfg env w ≡ (ok dev, w')
      → w'.link
        ≡ some
            (with_peers env.parse_key dev (map peer_record w.db.peers.rows) (first_config dev ∷ []))
  unfolding start_device pure
  start_device-link w {dev = dev} {w' = w'} e = elim (bind-cases _ _ env w e) [
    | inr (why, _, bad) ↦ absurd (cc)
    | inl (d, w1, e0, r0) ↦ elim (bind-cases _ _ env w1 r0) [
      | inr (why, _, bad) ↦ absurd (cc)
      | inl (subnet, w2, e1, r1) ↦ elim (bind-cases _ _ env w2 r1) [
        | inr (why, _, bad) ↦ absurd (cc)
        | inl (_, w3, e2, r2) ↦ elim (bind-cases _ _ env w3 r2) [
          | inr (why, _, bad) ↦ absurd (cc)
          | inl (_, w4, e3, r3) ↦ elim (bind-cases _ _ env w4 r3) [
            | inr (why, _, bad) ↦ absurd (cc)
            | inl (peers, w5, e4, r4) ↦ elim (bind-cases _ _ env w5 r4) [
              | inr (why, _, bad) ↦ absurd (cc)
              | inl (_, w6, e5, done) ↦
                  let made = past_wrap _ _ env w e0 in
                  let fresh = new_device-link _ _ _ env w made in
                  let kept =
                    ap (λ r. r.1.db) (sym made)
                    ∙ (new_device-Keeps (λ db. db ≡ w.db) cfg.wg_interface_name cfg.wg_listen_port
                          cfg.wg_key_file).at
                        env w refl in
                  let one = subnet_of-same _ env w1 e1 in
                  let two = set_address-link d _ env w2 (past_wrap _ _ env w2 e2) in
                  let three = up_and_add_route-link d subnet env w3 (past_wrap _ _ env w3 e3) in
                  let four = get_all_peers-all env w4 (past_wrap _ _ env w4 e4) in
                  let up : w5.link ≡ some (first_config d ∷ []) =
                    four.1 ∙ (three.0 ∙ (two.0 ∙ (one.0 ∙ fresh))) in
                  let rows : peers ≡ map peer_record w.db.peers.rows =
                    four.0
                    ∙ ap (λ d. map peer_record d.peers.rows) (three.1 ∙ (two.1 ∙ (one.1 ∙ kept))) in
                  let link : w6.link
                      ≡ some (
                          with_peers env.parse_key d (map peer_record w.db.peers.rows)
                            (first_config d ∷ [])) =
                    ap (λ r. r.1.link) (sym e5)
                    ∙ (restore_peers-link d peers env w5 answers up
                        ∙ ap (λ ps. some (with_peers env.parse_key d ps (first_config d ∷ [])))
                            rows) in
                  subst
                    (λ r.
                      r.1.link
                      ≡ some (
                          with_peers env.parse_key (elim r.0 [ ok a ↦ a | err _ ↦ d ])
                            (map peer_record w.db.peers.rows)
                            (first_config (elim r.0 [ ok a ↦ a | err _ ↦ d ]) ∷ [])))
                    done link
            ]
          ]
        ]
      ]
    ]
  ]

-- The state before the interface is made has the tables of the file.
opened-db :
    (path : String) (env : Env) (w : World) {a : String} {v : World}
    → wrap_error "[SQLite] Could not get database: " (get_database path) env w ≡ (ok a, v)
    → v.db ≡ w.db
opened-db path env w e =
    ap (λ r. r.1.db) (sym (past_wrap _ _ env w e))
    ∙ (get_database-Keeps (λ db. db ≡ w.db) path).at env w refl

configured-db :
    (env : Env) (w : World) {cfg : Config} {v : World}
    → wrap_error "[Config] " new_config env w ≡ (ok cfg, v)
    → v.db ≡ w.db
configured-db env w e =
    ap (λ r. r.1.db) (sym (past_wrap _ _ env w e))
    ∙ (new_config-Keeps (λ db. db ≡ w.db)).at env w refl

-- A start that succeeds, with no error of wgctrl, leaves on the interface the configuration of the
-- device of the server and, on top of it, in the order of the table, one configuration for each stored
-- peer whose key and address parse.
pub start-with_peers :
    (index_html : String) (env : Env) (w : World) {s : Server} {w' : World}
    → start index_html env w ≡ (ok s, w')
    → ((t : ℕ) → env.wgctrl_error t ≡ none)
    → (dev : DeviceAttrs) × (s.device ≡ some dev)
      × (w'.link
          ≡ some (
              with_peers env.parse_key dev
                (map peer_record w.db.peers.rows)
                (first_config dev ∷ [])))
unfolding start pure
start-with_peers index_html env w {s = s} {w' = w'} e answers = elim (bind-cases _ _ env w e) [
  | inr (why, _, bad) ↦ absurd (cc)
  | inl (cfg, w1, e0, r0) ↦ elim (bind-cases _ _ env w1 r0) [
    | inr (why, _, bad) ↦ absurd (cc)
    | inl (_, w2, e1, r1) ↦ elim (bind-cases _ _ env w2 r1) [
      | inr (why, _, bad) ↦ absurd (cc)
      | inl (dev, w3, e2, r2) ↦ elim (bind-cases _ _ env w3 r2) [
        | inr (why, _, bad) ↦ absurd (cc)
        | inl (_, w4, e3, done) ↦
            let same = opened-db _ env w1 e1 ∙ configured-db env w e0 in
            (
              dev,
              ap (λ r. elim r.0 [ ok s ↦ s.device | err _ ↦ some dev ]) (sym done),
              ap (λ r. r.1.link) (sym done)
                  ∙ (start_firewall-link cfg env w3 e3
                      ∙ (start_device-link cfg env answers w2 e2
                          ∙ ap
                              (λ d. some (
                                with_peers env.parse_key dev (map peer_record d.peers.rows)
                                  (first_config dev ∷ [])))
                              same)),
            )
      ]
    ]
  ]
]
