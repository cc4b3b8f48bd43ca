-- ===== src/Startup/Loading.antt =====
-- The start of the firewall, up to the loop that puts the rules of the tables into the map.
use wgxdp.Base.{
  ◌≡◌, none, some, List, [], ◌∷◌, map, String, string_eq, arith, Option, suc, refl, ap, sym, subst,
  ◌∙◌, inl, inr,
}
use wgxdp.Base.Int.{to_uint8}
use wgxdp.World.{Env, World}
use wgxdp.Act.{ok, bind-cases, ◌>>=◌}
use wgxdp.Sql.{check, checked, sql, apply, rows_err, wrap_error}
use wgxdp.Net.Cidr.{IpNet, parse_cidr}
use wgxdp.Config.{Config}
use wgxdp.Database.{RuleRecord}
use wgxdp.Database.Rules.{rule_record, get_all_rules}
use wgxdp.Firewall.{add_peer_rule, put_rule, put_world}
use wgxdp.Firewall.Load.{or_panic, new_firewall, set_constants, interface_by_name}
use wgxdp.Startup.{restore_rules, start_firewall}
use wgxdp.Sql.Past.{past_wrap}

-- The rules of the tables.
abbrev pub rules_in : World → List RuleRecord
rules_in w = map rule_record w.db.firewall_rules.rows

-- A state with the same tables and the same host.
pub record Beside (w w' : World) : Type 0 where
  pub same_db : w'.db ≡ w.db
  pub same_host : w'.host ≡ w.host
  pub same_link : w'.link ≡ w.link

add_peer_rule-Beside :
    (r : RuleRecord) (env : Env) (w : World)
    → Beside w (add_peer_rule r.src_ip r.dst_ip r.port (to_uint8 r.proto) env w).1
unfolding add_peer_rule put_rule put_world check checked ◌>>=◌
add_peer_rule-Beside r env w = ground arith

pub restore_rules-Beside :
    (rs : List RuleRecord) (env : Env) (w : World) → Beside w (restore_rules rs env w).1
unfolding restore_rules ◌>>=◌
restore_rules-Beside [] env w = record { same_db = refl; same_host = refl; same_link = refl }
restore_rules-Beside (r ∷ rs) env w =
    let first = add_peer_rule-Beside r env w in
    let rest =
      restore_rules-Beside rs env
        (add_peer_rule r.src_ip r.dst_ip r.port (to_uint8 r.proto) env w).1 in
    record {
      same_db = rest.same_db ∙ first.same_db;
      same_host = rest.same_host ∙ first.same_host;
      same_link = rest.same_link ∙ first.same_link;
    }

new_firewall-empty :
    (cfg : Config) (env : Env) (w : World) {v : World}
    → wrap_error "[XDP] Could not load program: "
        (new_firewall cfg.wg_interface_name cfg.wg_subnet)
        env
        w
      ≡ (ok tt, v)
    → (v.peer_rules ≡ []) × (v.db ≡ w.db)
unfolding or_panic new_firewall set_constants interface_by_name check checked ◌>>=◌
new_firewall-empty cfg env w e = ground arith

set_constants-link :
    (n : Option IpNet) (env : Env) (w : World) → (set_constants n env w).1.link ≡ w.link
unfolding set_constants or_panic check checked ◌>>=◌
set_constants-link none env w = refl
set_constants-link (some subnet) env w = ground arith

new_firewall-link :
    (name subnet : String) (env : Env) (w : World) {v : World}
    → new_firewall name subnet env w ≡ (ok tt, v)
    → v.link ≡ w.link
unfolding new_firewall interface_by_name check checked ◌>>=◌
new_firewall-link name subnet env w e = ground (
  arith,
  set_constants-link (parse_cidr subnet) env (record w { tick = suc (suc w.tick) }),
  set_constants-link (parse_cidr subnet) env (record w { tick = suc (suc (suc w.tick)) }),
)

get_all_rules-all :
    (env : Env) (w : World) {rules : List RuleRecord} {v : World}
    → wrap_error "[SQLite] Could not load rules: " get_all_rules env w ≡ (ok rules, v)
    → (rules ≡ rules_in w) × (v.peer_rules ≡ w.peer_rules) × (v.db ≡ w.db) × (v.link ≡ w.link)
unfolding get_all_rules rows_err sql apply check checked ◌>>=◌
get_all_rules-all env w e = ground arith

-- The start of the firewall ends in the loop over the rules, from an empty map.
pub start_firewall_loop :
    (cfg : Config) (env : Env) (w : World) {w' : World}
    → start_firewall cfg env w ≡ (ok tt, w')
    → (u : World) × (u.peer_rules ≡ [])
      × (u.db ≡ w.db)
      × (u.link ≡ w.link)
      × (restore_rules (rules_in w) env u ≡ (ok tt, w'))
unfolding start_firewall
start_firewall_loop cfg env w {w' = w'} e = elim (bind-cases _ _ env w e) [
  | inr (why, _, bad) ↦ absurd (cc)
  | inl (_, v, made, rest) ↦ elim (bind-cases _ _ env v rest) [
    | inr (why, _, bad) ↦ absurd (cc)
    | inl (rules, u, read, loop) ↦
        let (empty, db) = new_firewall-empty cfg env w made in
        let link = new_firewall-link _ _ env w (past_wrap _ _ env w made) in
        let (all, same, db', link') = get_all_rules-all env v read in
        (
          u,
          same ∙ empty,
          db' ∙ db,
          link' ∙ link,
          subst (λ rs. restore_rules rs env u ≡ (ok tt, w'))
              (all ∙ ap (λ d. map rule_record d.firewall_rules.rows) db) loop,
        )
  ]
]

-- The start of the firewall leaves the interface.
pub start_firewall-link :
    (cfg : Config) (env : Env) (w : World) {w' : World}
    → start_firewall cfg env w ≡ (ok tt, w')
    → w'.link ≡ w.link
start_firewall-link cfg env w e =
    let (u, _, _, same, loop) = start_firewall_loop cfg env w e in
    ap (λ r. r.1.link) (sym loop) ∙ ((restore_rules-Beside (rules_in w) env u).same_link ∙ same)
