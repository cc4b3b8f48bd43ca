-- ===== src/Server.antt =====
-- internal/server.go and the handlers' common ground: requests, responses, and a handler as an action
-- that ends early with a response.
pub mod Middleware
pub mod DeviceFlow
pub mod Peers
pub mod Rules
pub mod Keeps
pub mod Leads
pub mod Calls
pub mod Mux
pub mod Tokens
pub mod Answers
pub mod Inversion
pub mod Access
pub mod Unlinking
pub mod Plain
pub mod Serving
pub mod Integrity
pub mod Covering
pub mod Lifecycle
use wgxdp.Base.{ℕ, String, Bool, Option, none, some, List, [], ◌∷◌}
use wgxdp.Base.Int.{ℤ}
use wgxdp.World.{Env, World}
use wgxdp.Act.{Act, Outcome, ok, err, fail, on_error, ◌>>=◌}
use wgxdp.Config.{Config}
use wgxdp.Wireguard.{DeviceAttrs}
use wgxdp.Database.{RuleRecord}

-- `*firewall.Firewall` is a handle on the map, which is in the world. A nil pointer is `none`.
pub record Server : Type 0 where
  pub device : Option DeviceAttrs
  pub config : Option Config
  pub xdp : Option (Unit {0})
  pub index_html : String

-- A body as the JSON decoder gives it: nothing to read, no value of the type, or a value.
pub data Body (B : Type 0) : Type 0 where
  empty malformed : Body B
  decoded : B → Body B

pub record Request (B : Type 0) : Type 0 where
  pub method : String
  -- `Header.Get`, "" for a header that is not there
  pub header : String → String
  -- `URL.RequestURI`
  pub request_uri : String
  -- the query parameter `code`
  pub query_code : String
  -- `PathValue`
  pub path_value : String → String
  pub body : Body B

pub record PeerResponse : Type 0 where
  pub name : String
  pub public_key : String
  pub assigned_ip : String
  pub active : Bool

pub data Payload : Type 0 where
  no_content : Payload
  text : String → Payload
  html : String → Payload
  -- `error`, `message`, `redirect`
  session_lost : String → String → String → Payload
  -- `title`, `message`; `ok` is false in the first and true in the second
  verify_failed verify_done : String → String → Payload
  -- `user_code`, `status`, `expires_at`
  verify_info : String → String → ℕ → Payload
  -- `device_code`, `user_code`, `verification_uri`, `expires_in`, `interval`
  device_code : String → String → String → ℕ → ℕ → Payload
  -- `access_token`, `token_type`
  access_token : String → String → Payload
  token_error : String → Payload
  peers : List PeerResponse → Payload
  rules : List RuleRecord → Payload
  rule : RuleRecord → Payload
  -- `assigned_ip`, `subnet`, `server_public_key`, `server_endpoint`, `peer_name`
  joined : String → String → String → String → String → Payload
  server_info : String → Payload
  -- a panic in the handler: the connection is closed without an answer
  aborted : Payload

pub record Response : Type 0 where
  pub status : ℕ
  pub www_authenticate : String
  pub payload : Payload

abbrev pub respond : ℕ → Payload → Response
respond status payload = record { status = status; www_authenticate = ""; payload = payload }

abbrev pub http_error : ℕ → String → Response
http_error status message = respond status (text message)

abbrev pub panics : Response
panics = respond 0 aborted

abbrev pub Handler : Type 0
Handler = Env → World → Response × World

abbrev pub settled : Outcome Response Response × World → Response × World
settled (ok r, w) = (r, w)
settled (err r, w) = (r, w)

unfoldable pub handler : Act Response Response → Handler
handler m env w = settled (m env w)

-- `if err != nil { respond; return }`
abbrev pub or_respond : {A : Type 0} → Act String A → (String → Response) → Act Response A
or_respond m f = on_error m (λ e. fail (f e))
