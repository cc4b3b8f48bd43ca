-- ===== src/Server/Mux/Simulation.antt =====
-- The requests that arrive act on the state as the calls of their paths and methods do.
use wgxdp.Base.{◌≡◌, refl, ap, sym, ◌∙◌, Option, none, some, List, [], ◌∷◌, string_eq, arith}
use wgxdp.World.{Env, World}
use wgxdp.Server.{Server}
use wgxdp.Server.Middleware.{require_auth}
use wgxdp.Server.Calls.{Call, Event, clean_up, serve, step, run}
use wgxdp.Server.Mux.{
  Incoming, Target, api, file, Site, spa_fallback, answered, serve_http, find_target, patterns,
  Arrival, request, ticker, arrive, run_http,
}
use wgxdp.Server.Mux.Routing.{call_of, call_in, with_call, events_of}
use wgxdp.Server.Mux.Paths.{find_target-call_of}

module _ (s : Server) (site : Site) where
  spa_fallback-state : (m : Incoming) (env : Env) (w : World) → (spa_fallback site m env w).1 ≡ w
  unfolding spa_fallback
  spa_fallback-state m env w = ground arith

  abbrev called : Option Call → Env → World → World
  called none env w = w
  called (some c) env w = (serve s c env w).1

  answered-called :
      (m : Incoming) (o : Option Target) (env : Env) (w : World)
      → (answered s site m o env w).1 ≡ called (call_in o) env w
  unfolding answered require_auth
  answered-called m none env w = ground (arith, spa_fallback-state m env w)
  answered-called m (some (api c)) env w = refl
  answered-called m (some file) env w = refl

  -- A request leaves the state that its call does.
  arrive-called :
      (m : Incoming) (env : Env) (w : World)
      → arrive s site (request m) env w ≡ called (call_of m) env w
  unfolding arrive serve_http
  arrive-called m env w =
      answered-called m (find_target patterns m) env w
      ∙ ap (λ o. called o env w) (find_target-call_of m)

  run-with_call :
      (o : Option Call) (events : List Event) (env : Env) (w : World)
      → run s (with_call o events) env w ≡ run s events env (called o env w)
  unfolding run step
  run-with_call none events env w = refl
  run-with_call (some c) events env w = refl

  -- The state after any requests and ticks is the one after their events, in their order: each tick is a
  -- clean-up, and each request is the call of the API that its path and its method name, with the bodies
  -- and the values of the path that the request has, or is no event if they name none.
  pub run_http-run :
      (arrivals : List Arrival) (env : Env) (w : World)
      → run_http s site arrivals env w ≡ run s (events_of arrivals) env w
  unfolding run_http run arrive step
  run_http-run [] env w = refl
  run_http-run (ticker ∷ arrivals) env w = run_http-run arrivals env (step s clean_up env w)
  run_http-run (request m ∷ arrivals) env w =
      run_http-run arrivals env (arrive s site (request m) env w)
      ∙ ap (run s (events_of arrivals) env) (arrive-called m env w)
      ∙ sym (run-with_call (call_of m) (events_of arrivals) env w)
