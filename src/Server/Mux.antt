-- ===== src/Server/Mux.antt =====
-- The requests of `StartServer` in internal/server.go as they arrive: the patterns of its ServeMux, the
-- files of the browser client, and `spaFallback`.
pub mod Open
pub mod Paths
pub mod Patterns
pub mod Routing
pub mod Simulation
use wgxdp.Base.{
  String, ◌<>◌, Bool, true, false, ◌||◌, ◌&&◌, Option, none, some, List, [], ◌∷◌, ◌==◌, string_eq,
  if◌then◌else◌,
}
use wgxdp.World.{Env, World}
use wgxdp.Server.{Server, Request, Body, empty, Response, respond, html, Handler}
use wgxdp.Server.Middleware.{require_auth}
use wgxdp.Server.DeviceFlow.{DeviceTokenRequest, DeviceVerifyRequest}
use wgxdp.Server.Rules.{CreateRuleRequest}
use wgxdp.Server.Peers.{JoinRequest}
use wgxdp.Server.Calls.{
  Bodyless, Protected, get_peers, delete_peers, get_rules, delete_rules, get_server_info,
  get_device_verify, post_rules, post_device_verify, Call, protected, join, device_code,
  device_token, serve, Event, call, clean_up, step,
}

-- A request before it has a route. ServeMux redirects a request whose path is not clean, and so the path
-- is clean: `segments` is what stands after its slashes, unescaped, with "" after a last slash. The four
-- bodies are what the JSON decoder makes of the one body, for each type that a handler decodes.
pub record Incoming : Type 0 where
  pub method : String
  pub segments : List String
  pub header : String → String
  pub request_uri : String
  pub query_code : String
  pub rule_body : Body CreateRuleRequest
  pub join_body : Body JoinRequest
  pub token_body : Body DeviceTokenRequest
  pub verify_body : Body DeviceVerifyRequest

abbrev pub joined_by_slash : List String → String
joined_by_slash [] = ""
joined_by_slash (s ∷ []) = s
joined_by_slash (s ∷ t ∷ ss) = s <> ("/" <> joined_by_slash (t ∷ ss))

-- `URL.Path`
abbrev pub path_of : Incoming → String
path_of m = "/" <> joined_by_slash m.segments

-- A segment of a pattern: itself, or `{name}`.
pub data Segment : Type 0 where
  literal wildcard : String → Segment

-- A method of a pattern; GET takes HEAD as well.
abbrev pub takes : Option String → String → Bool
takes none method = true
takes (some m) method = m == method || (m == "GET" && method == "HEAD")

-- The values of the wildcards. No wildcard takes the "" after a last slash.
abbrev pub match_path : List Segment → List String → Option (List (String × String))
match_path [] [] = some []
match_path [] (s ∷ ss) = none
match_path (p ∷ ps) [] = none
match_path (literal l ∷ ps) (s ∷ ss) = if l == s then match_path ps ss else none
match_path (wildcard v ∷ ps) (s ∷ ss) =
    if s == ""
    then none
    else elim (match_path ps ss) [ none ↦ none | some values ↦ some ((v, s) ∷ values) ]

-- `PathValue`
abbrev pub value_of : List (String × String) → String → String
value_of [] name = ""
value_of ((v, s) ∷ values) name = if v == name then s else value_of values name

abbrev pub request_of : {B : Type 0} → Incoming → List (String × String) → Body B → Request B
request_of m values body = record {
  method = m.method;
  header = m.header;
  request_uri = m.request_uri;
  query_code = m.query_code;
  path_value = value_of values;
  body = body;
}

abbrev pub bodyless : Incoming → List (String × String) → Bodyless
bodyless m values = request_of m values empty

-- What a pattern leads to: a handler of the API, or the file server.
pub data Target : Type 0 where
  api : Call → Target
  file : Target

pub record Pattern : Type 0 where
  pub method : Option String
  pub path : List Segment
  pub target : Incoming → List (String × String) → Target

abbrev pub guarded :
    String → List Segment → (Incoming → List (String × String) → Protected) → Pattern
guarded method path target = record {
  method = some method;
  path = path;
  target = λ m values. api (protected (target m values));
}

abbrev pub public_file : String → Pattern
public_file name = record {
  method = some "GET";
  path = literal name ∷ [];
  target = λ m values. file;
}

abbrev pub unguarded_route : List Segment → (Incoming → Call) → Pattern
unguarded_route path target = record {
  method = none;
  path = path;
  target = λ m values. api (target m);
}

-- The patterns before "/". No request fits two of them.
abbrev pub patterns : List Pattern
patterns =
    guarded "GET" (literal "peers" ∷ []) (λ m values. get_peers (bodyless m values))
    ∷ guarded "DELETE" (literal "peers" ∷ wildcard "name" ∷ [])
        (λ m values. delete_peers (bodyless m values))
    ∷ guarded "GET" (literal "rules" ∷ []) (λ m values. get_rules (bodyless m values))
    ∷ guarded "POST" (literal "rules" ∷ [])
        (λ m values. post_rules (request_of m values m.rule_body))
    ∷ guarded "DELETE" (literal "rules" ∷ wildcard "id" ∷ [])
        (λ m values. delete_rules (bodyless m values))
    ∷ guarded "GET" (literal "server-info" ∷ []) (λ m values. get_server_info (bodyless m values))
    ∷ guarded "GET" (literal "device" ∷ literal "verify" ∷ [])
        (λ m values. get_device_verify (bodyless m values))
    ∷ guarded "POST" (literal "device" ∷ literal "verify" ∷ [])
        (λ m values. post_device_verify (request_of m values m.verify_body))
    ∷ unguarded_route (literal "join" ∷ []) (λ m. join (request_of m [] m.join_body))
    ∷ unguarded_route (literal "device" ∷ literal "code" ∷ []) (λ m. device_code (bodyless m []))
    ∷ unguarded_route (literal "device" ∷ literal "token" ∷ [])
        (λ m. device_token (request_of m [] m.token_body))
    ∷ public_file "sw.js"
    ∷ public_file "manifest.json"
    ∷ public_file "icon-192.png"
    ∷ public_file "icon-512.png"
    ∷ []

abbrev pub fits : Pattern → Incoming → Option Target
fits p m =
    if takes p.method m.method
    then elim (match_path p.path m.segments) [
      | none ↦ none
      | some values ↦ some (p.target m values)
    ]
    else none

unfoldable pub find_target : List Pattern → Incoming → Option Target
find_target [] m = none
find_target (p ∷ ps) m =
    let rest = find_target ps m in elim (fits p m) [ none ↦ rest | some target ↦ some target ]

-- The embedded files, which the build copies from web/: what `fs.Stat` and `fs.ReadFile` answer, and what
-- `http.FileServerFS` makes of a request.
pub record Site : Type 0 where
  pub has_file : String → Bool
  pub index_html : String
  pub file_server : Incoming → Response

abbrev pub answers : Response → Handler
answers r env w = (r, w)

unfoldable pub spa_fallback : Site → Incoming → Handler
spa_fallback site m =
    let p = joined_by_slash m.segments in
    if p == ""
    then answers (site.file_server m)
    else if site.has_file p
    then answers (site.file_server m)
    else answers (respond 200 (html site.index_html))

-- What a pattern leads to, or "/", which takes every other request.
unfoldable pub answered : Server → Site → Incoming → Option Target → Handler
answered s site m none = require_auth s (λ req. spa_fallback site m) (bodyless m [])
answered s site m (some (api c)) = serve s c
answered s site m (some file) = answers (site.file_server m)

unfoldable pub serve_http : Server → Site → Incoming → Handler
serve_http s site m = answered s site m (find_target patterns m)

-- `listenAddr`
unfoldable pub listen_addr : Server → String
listen_addr s = elim s.config [
  | none ↦ "127.0.0.1:8337"
  | some config ↦ if config.listen_addr == "" then "127.0.0.1:8337" else config.listen_addr
]

-- A request that arrives, or the ticker of the clean-up.
pub data Arrival : Type 0 where
  request : Incoming → Arrival
  ticker : Arrival

abbrev state_after : {A : Type 0} → A × World → World
state_after (_, w) = w

unfoldable pub arrive : Server → Site → Arrival → Env → World → World
unfolding serve_http
arrive s site (request m) env w = state_after (serve_http s site m env w)
arrive s site ticker env w = step s clean_up env w

unfoldable pub run_http : Server → Site → List Arrival → Env → World → World
unfolding arrive
run_http s site [] env w = w
run_http s site (a ∷ as') env w = run_http s site as' env (arrive s site a env w)
