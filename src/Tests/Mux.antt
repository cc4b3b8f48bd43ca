-- ===== src/Tests/Mux.antt =====
-- Requests as they arrive.
use wgxdp.Base.{◌≡◌, refl, String, ◌||◌, List, [], ◌∷◌, ◌==◌, string_eq, if◌then◌else◌}
use wgxdp.Server.{Body, respond, html, decoded}
use wgxdp.Server.Access.{IsRefused}
use wgxdp.Server.Calls.{
  call, clean_up, serve, run, protected, delete_peers, delete_rules, get_rules,
}
use wgxdp.Server.Middleware.{get_auth_header, require_auth, get_auth_user}
use wgxdp.Server.Mux.{
  Incoming, Site, Arrival, request, ticker, serve_http, run_http, bodyless, find_target, answered,
  spa_fallback,
}
use wgxdp.Server.Mux.Open.{serve_http-IsRefused}
use wgxdp.Server.Mux.Simulation.{run_http-run}
use wgxdp.Tests.Data.{calm, start, server, ssh}

abbrev pub site : Site
site = record {
  has_file = λ p. p == "index.html" || p == "sw.js";
  index_html = "page";
  file_server = λ m. respond 200 (html "file");
}

abbrev pub visit : String → List String → String → Incoming
visit method segments user = record {
  method = method;
  segments = segments;
  header = λ name. if name == "X-Forwarded-User" then user else "";
  request_uri = "/";
  query_code = "";
  rule_body = decoded ssh;
  join_body = Body.empty;
  token_body = Body.empty;
  verify_body = Body.empty;
}

-- A deletion without a user, a look at the rules, a view of the page, and a tick.
abbrev pub quiet : List Arrival
quiet =
    request (visit "DELETE" ("rules" ∷ "1" ∷ []) "")
    ∷ request (visit "GET" ("rules" ∷ []) "bob")
    ∷ request (visit "GET" ("peers" ∷ "alice" ∷ []) "bob")
    ∷ ticker
    ∷ []

-- A path of the browser client has the page, a file has the file server, and HEAD is taken for GET.
pages :
    (serve_http server site (visit "GET" ("peers" ∷ "alice" ∷ []) "bob") calm start
      ≡ (respond 200 (html "page"), start))
    × (serve_http server site (visit "HEAD" ("sw.js" ∷ []) "") calm start
        ≡ (respond 200 (html "file"), start))
    × (serve_http server site (visit "POST" ("index.html" ∷ []) "bob") calm start
        ≡ (respond 200 (html "file"), start))
unfolding serve_http find_target answered spa_fallback require_auth get_auth_user get_auth_header
pages = (refl, refl, refl)

-- The name of the peer is a segment of the path.
routed :
    serve_http server site (visit "DELETE" ("peers" ∷ "alice" ∷ []) "bob") calm start
    ≡ serve server
        (protected (
          delete_peers
            (bodyless (visit "DELETE" ("peers" ∷ "alice" ∷ []) "bob") (("name", "alice") ∷ []))))
        calm
        start
unfolding serve_http find_target answered
routed = refl

serve_http-IsRefused_example :
    IsRefused start (serve_http server site (visit "DELETE" ("peers" ∷ "alice" ∷ []) "") calm start)
unfolding get_auth_header
serve_http-IsRefused_example =
    serve_http-IsRefused server (visit "DELETE" ("peers" ∷ "alice" ∷ []) "") refl site calm start
      refl

run_http-run_example :
    run_http server site quiet calm start
    ≡ run server
        (call (
            protected
              (delete_rules (bodyless (visit "DELETE" ("rules" ∷ "1" ∷ []) "") (("id", "1") ∷ []))))
          ∷ call (protected (get_rules (bodyless (visit "GET" ("rules" ∷ []) "bob") [])))
          ∷ clean_up
          ∷ [])
        calm
        start
run_http-run_example = run_http-run server site quiet calm start
