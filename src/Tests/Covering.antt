-- ===== src/Tests/Covering.antt =====
-- Runs of the server, and the deletion of a peer, with the rules and the map that they leave.
use wgxdp.Base.{◌≡◌, refl, inr, [], arith, some}
use wgxdp.Database.Integrity.{IsSound}
use wgxdp.Firewall.{lookup_elem}
use wgxdp.Firewall.Filter.{xdp_pass}
use wgxdp.Firewall.Permits.{verdict_of}
use wgxdp.Firewall.Covers.{Covers}
use wgxdp.Server.Calls.{run}
use wgxdp.Server.Covering.{run-Covers}
use wgxdp.Server.Rules.Covering.{rules_of}
use wgxdp.Server.Peers.{delete_peer}
use wgxdp.Server.Peers.Blind.{IsSame, delete_peer-IsSame}
use wgxdp.Server.{Body}
use wgxdp.World.{Env}
use wgxdp.Startup.Running.{start-run_http}
use wgxdp.Startup.Loading.{rules_in}
use wgxdp.Tests.Store.{filtered, loaded}
use wgxdp.Tests.Start.{started, after, runs}
use wgxdp.Server.Mux.{run_http}
use wgxdp.Tests.Mux.{site, quiet}
use wgxdp.Tests.Data.{request, starting, begun, calm, start, tables, server, packet}
use wgxdp.Tests.Http.{start-IsSound, events}

empty-Covers : Covers (rules_of tables) []
unfolding lookup_elem
empty-Covers = record { covered = λ k one. absurd (ground (arith, one)) }

run-Covers_example :
    Covers (rules_of (run server events calm start).db) (run server events calm start).peer_rules
run-Covers_example = run-Covers server refl calm (λ t. refl) events start start-IsSound empty-Covers

begun-IsSound : IsSound begun.db
begun-IsSound = record {
  peer_names = ((refl, tt), (tt, tt));
  peer_ips = ((refl, tt), (tt, tt));
  device_codes = (tt, tt);
  user_codes = (tt, tt);
  coherent = (inr (inr ("token", refl, refl)), tt);
  rules = (tt, tt);
  rule_ids = (tt, tt);
  ids_given = (omega arith, tt);
}

start-run_http_example :
    verdict_of (rules_in (run_http started site quiet starting after)) packet ≡ xdp_pass
start-run_http_example =
    start-run_http "page" starting begun {s = started} {w' = after} runs.0 site quiet 0 0 packet
      (λ t. refl) begun-IsSound filtered runs.4

abbrev stubborn : Env
stubborn = record calm { map_error = λ t. some "operation not permitted" }

-- A peer goes in the same way from a map that refuses every call.
delete_peer-IsSame_example :
    IsSame
      (delete_peer server (request {B = Unit {0}} Body.empty) calm loaded)
      (delete_peer server (request {B = Unit {0}} Body.empty) stubborn loaded)
delete_peer-IsSame_example =
    delete_peer-IsSame server (request {B = Unit {0}} Body.empty)
      (λ t. some "operation not permitted") calm loaded.peer_rules loaded
