-- ===== src/Startup/Running.antt =====
-- A server from its start on, over the requests and clean-ups that follow.
use wgxdp.Base.{subst, ℕ, ◌≡◌, ap, sym, String, none, some, List, inl, inr}
use wgxdp.World.{Env, World}
use wgxdp.Act.{ok, err, pure, bind-cases}
use wgxdp.Database.Integrity.{IsSound}
use wgxdp.Firewall.Filter.{filter, xdp_pass}
use wgxdp.Firewall.Verdicts.{IsFiltered}
use wgxdp.Firewall.Permits.{verdict_of}
use wgxdp.Firewall.Covers.{Covers-filter}
use wgxdp.Server.{Server}
use wgxdp.Server.Calls.{Event, run}
use wgxdp.Server.Mux.{Site, Arrival, run_http}
use wgxdp.Server.Mux.Routing.{events_of}
use wgxdp.Server.Mux.Simulation.{run_http-run}
use wgxdp.Server.Covering.{run-Covers}
use wgxdp.Startup.{start}
use wgxdp.Startup.Loading.{rules_in}
use wgxdp.Startup.Traffic.{start-Covers, same_tables}

module _ (index_html : String) (env : Env) (w : World) {s : Server} {w' : World}
    (e : start index_html env w ≡ (ok s, w')) where
  start-xdp : s.xdp ≡ some tt
  unfolding start pure
  start-xdp = elim (bind-cases _ _ env w e) [
    | inr (why, _, bad) ↦ absurd (cc)
    | inl (cfg, w1, _, e1) ↦ elim (bind-cases _ _ env w1 e1) [
      | inr (why, _, bad) ↦ absurd (cc)
      | inl (_, w2, _, e2) ↦ elim (bind-cases _ _ env w2 e2) [
        | inr (why, _, bad) ↦ absurd (cc)
        | inl (dev, w3, _, e3) ↦ elim (bind-cases _ _ env w3 e3) [
          | inr (why, _, bad) ↦ absurd (cc)
          | inl (_, w4, _, done) ↦ ap (λ r. elim r.0 [ ok s ↦ s.xdp | err _ ↦ some tt ]) (sym done)
        ]
      ]
    ]
  ]

  start-run :
      (es : List Event) (filter_net filter_mask : ℕ) (p : List ℕ)
      → ((t : ℕ) → env.map_error t ≡ none)
      → IsSound w.db
      → IsFiltered filter_net filter_mask p
      → filter filter_net filter_mask (run s es env w').peer_rules p ≡ xdp_pass
      → verdict_of (rules_in (run s es env w')) p ≡ xdp_pass
  start-run es filter_net filter_mask p answers sound filtered passes =
      let same = same_tables index_html env w e in
      Covers-filter
        (run-Covers s start-xdp env answers es w' (rw same sound)
          (rw same (start-Covers index_html env w e)))
        filter_net filter_mask p filtered passes

  -- From sound tables, with a map that refuses nothing, the whole TCP and UDP packets of the subnet that
  -- pass at any time after the start, whatever requests have arrived, are packets that the rules stored at
  -- that time permit.
  pub start-run_http :
      (site : Site) (arrivals : List Arrival) (filter_net filter_mask : ℕ) (p : List ℕ)
      → ((t : ℕ) → env.map_error t ≡ none)
      → IsSound w.db
      → IsFiltered filter_net filter_mask p
      → filter filter_net filter_mask (run_http s site arrivals env w').peer_rules p ≡ xdp_pass
      → verdict_of (rules_in (run_http s site arrivals env w')) p ≡ xdp_pass
  start-run_http site arrivals filter_net filter_mask p answers sound filtered passes =
      let same = run_http-run s site arrivals env w' in
      subst (λ v. verdict_of (rules_in v) p ≡ xdp_pass) (sym same)
        (start-run (events_of arrivals) filter_net filter_mask p answers sound filtered
          (subst (λ v. filter filter_net filter_mask v.peer_rules p ≡ xdp_pass) same passes))
