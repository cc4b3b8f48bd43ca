-- ===== src/Startup/Traffic.antt =====
-- From the start of the server to the packets that the XDP program lets through.
use wgxdp.Base.{
  ℕ, ◌≤◌, ◌≡◌, true, ◌||◌, none, List, [], any, length, map, String, string_eq, arith, ap, sym,
  subst, ◌∙◌, inl, inr,
}
use wgxdp.World.{Env, World, PeerRuleKey}
use wgxdp.Act.{ok, bind-cases, pure}
use wgxdp.Database.Rules.{rule_record}
use wgxdp.Firewall.{lookup_elem}
use wgxdp.Firewall.Filter.{is_one, filter, xdp_pass}
use wgxdp.Firewall.Covers.{Covers, Covers-filter}
use wgxdp.Firewall.Verdicts.{IsFiltered}
use wgxdp.Firewall.Permits.{has_key, Implements, verdict_of}
use wgxdp.Server.{Server}
use wgxdp.Startup.{restore_rules, start}
use wgxdp.Startup.Loading.{rules_in, restore_rules-Beside, start_firewall_loop}
use wgxdp.Startup.Tables.{start-db}
use wgxdp.Startup.Restore.{restore_rules_only, restore_rules_all}

-- The start of the server ends in the start of the firewall.
start_loop :
    (index_html : String) (env : Env) (w : World) {s : Server} {w' : World}
    → start index_html env w ≡ (ok s, w')
    → (u : World) × (u.peer_rules ≡ []) × (restore_rules (rules_in u) env u ≡ (ok tt, w'))
unfolding start pure
start_loop index_html env w {w' = w'} e = elim (bind-cases _ _ env w e) [
  | inr (why, _, bad) ↦ absurd (cc)
  | inl (cfg, w1, _, e1) ↦ elim (bind-cases _ _ env w1 e1) [
    | inr (why, _, bad) ↦ absurd (cc)
    | inl (_, w2, _, e2) ↦ elim (bind-cases _ _ env w2 e2) [
      | inr (why, _, bad) ↦ absurd (cc)
      | inl (dev, w3, _, e3) ↦ elim (bind-cases _ _ env w3 e3) [
        | inr (why, _, bad) ↦ absurd (cc)
        | inl (_, w4, loaded, e4) ↦
            let (u, empty, db, _, loop) = start_firewall_loop cfg env w3 loaded in
            (
              u,
              empty,
              subst (λ d. restore_rules (map rule_record d.firewall_rules.rows) env u ≡ (ok tt, w'))
                  (sym db) (loop ∙ ap (λ r. (ok tt, r.1)) e4),
            )
      ]
    ]
  ]
]

module _ (index_html : String) (env : Env) (w : World) {s : Server} {w' : World}
    (e : start index_html env w ≡ (ok s, w')) where
  start_restored :
      (u : World) × (u.peer_rules ≡ []) × (restore_rules (rules_in w') env u ≡ (ok tt, w'))
  start_restored =
      let (u, empty, loop) = start_loop index_html env w e in
      let same : rules_in w' ≡ rules_in u =
        ap (λ r. rules_in r.1) (sym loop)
        ∙ ap (λ d. map rule_record d.firewall_rules.rows)
            (restore_rules-Beside (rules_in u) env u).same_db in
      (u, empty, subst (λ rs. restore_rules rs env u ≡ (ok tt, w')) (sym same) loop)

  -- Whatever the map has answered, its entries are those of rules that are stored.
  start_only :
      (k : PeerRuleKey)
      → is_one (lookup_elem k w'.peer_rules) ≡ true
      → any (has_key k) (rules_in w') ≡ true
  unfolding lookup_elem
  start_only k held =
      let (u, empty, loop) = start_restored in
      subst (λ m. (is_one (lookup_elem k m) || any (has_key k) (rules_in w')) ≡ true) empty
        (restore_rules_only (rules_in w') env u k
          (subst (λ r. is_one (lookup_elem k r.1.peer_rules) ≡ true) (sym loop) held))

  pub same_tables : w'.db ≡ w.db
  same_tables = ap (λ r. r.1.db) (sym e) ∙ start-db index_html env w

  same_rules : rules_in w' ≡ rules_in w
  same_rules = ap (λ d. map rule_record d.firewall_rules.rows) same_tables

  start_holds :
      ((t : ℕ) → env.map_error t ≡ none)
      → length (rules_in w') ≤ 1024
      → Implements (rules_in w') w'.peer_rules
  unfolding lookup_elem
  start_holds answers room =
      let (u, empty, loop) = start_restored in
      record {
        agrees = λ k.
            ap (λ r. is_one (lookup_elem k r.1.peer_rules)) (sym loop)
            ∙ (restore_rules_all (rules_in w') env u k answers (rw empty (omega arith))
                ∙ ap (λ m. is_one (lookup_elem k m) || any (has_key k) (rules_in w')) empty);
      }

  -- The start of a server whose map refuses nothing, and has room for the rules, leaves a map that
  -- implements the rules of the tables, which are as they were.
  pub start-Implements :
      ((t : ℕ) → env.map_error t ≡ none)
      → length (rules_in w) ≤ 1024
      → (w'.db ≡ w.db) × Implements (rules_in w) w'.peer_rules
  start-Implements answers room = (
    same_tables,
    subst (λ rules. Implements rules w'.peer_rules) same_rules
        (start_holds answers (rw same_rules room)),
  )

  -- Whatever the map has refused, its keys are those of stored rules.
  pub start-Covers : Covers (rules_in w) w'.peer_rules
  start-Covers = record {
    covered = λ k held. ap (any (has_key k)) (sym same_rules) ∙ start_only k held;
  }

  -- After any start, whatever the map has refused, the packets of the subnet that pass are packets
  -- that the rules of the tables permit.
  pub start-permitted :
      (filter_net filter_mask : ℕ) (p : List ℕ)
      → IsFiltered filter_net filter_mask p
      → filter filter_net filter_mask w'.peer_rules p ≡ xdp_pass
      → verdict_of (rules_in w) p ≡ xdp_pass
  start-permitted filter_net filter_mask p filtered passes =
      Covers-filter start-Covers filter_net filter_mask p filtered passes
