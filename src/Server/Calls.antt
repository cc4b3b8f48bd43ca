-- ===== src/Server/Calls.antt =====
-- The routes of `StartServer` in internal/server.go, each with its handler, and the clean-up that it
-- starts. Requests and clean-ups are served one after the other.
use wgxdp.Base.{List, [], ◌∷◌}
use wgxdp.World.{Env, World}
use wgxdp.Database.Codes.{clean_expired_device_codes}
use wgxdp.Server.{Server, Request, Handler}
use wgxdp.Server.Middleware.{require_auth}
use wgxdp.Server.DeviceFlow.{
  DeviceTokenRequest, DeviceVerifyRequest, device_code_handler, device_token_handler,
  device_verify_get, device_verify_post,
}
use wgxdp.Server.Rules.{CreateRuleRequest, list_rules, create_rule, delete_rule}
use wgxdp.Server.Peers.{JoinRequest, list_peers, delete_peer, server_info_handler, join_handler}

-- A request whose body is not read.
abbrev pub Bodyless : Type 0
Bodyless = Request (Unit {0})

-- The routes behind `requireAuth`.
pub data Protected : Type 0 where
  get_peers delete_peers get_rules delete_rules get_server_info get_device_verify :
      Bodyless → Protected
  post_rules : Request CreateRuleRequest → Protected
  post_device_verify : Request DeviceVerifyRequest → Protected

pub data Call : Type 0 where
  protected : Protected → Call
  join : Request JoinRequest → Call
  device_code : Bodyless → Call
  device_token : Request DeviceTokenRequest → Call

unfoldable pub serve_protected : Server → Protected → Handler
serve_protected s (get_peers req) = require_auth s (list_peers s) req
serve_protected s (delete_peers req) = require_auth s (delete_peer s) req
serve_protected s (get_rules req) = require_auth s (list_rules s) req
serve_protected s (delete_rules req) = require_auth s (delete_rule s) req
serve_protected s (get_server_info req) = require_auth s (server_info_handler s) req
serve_protected s (get_device_verify req) = require_auth s (device_verify_get s) req
serve_protected s (post_rules req) = require_auth s (create_rule s) req
serve_protected s (post_device_verify req) = require_auth s (device_verify_post s) req

unfoldable pub serve : Server → Call → Handler
unfolding serve_protected
serve s (protected call) = serve_protected s call
serve s (join req) = join_handler s req
serve s (device_code req) = device_code_handler s req
serve s (device_token req) = device_token_handler s req

pub data Event : Type 0 where
  call : Call → Event
  clean_up : Event

abbrev state_after : {A : Type 0} → A × World → World
state_after (_, w) = w

-- The error of a clean-up is logged.
unfoldable pub step : Server → Event → Env → World → World
unfolding serve
step s (call c) env w = state_after (serve s c env w)
step s clean_up env w = state_after (clean_expired_device_codes env w)

unfoldable pub run : Server → List Event → Env → World → World
unfolding step
run s [] env w = w
run s (e ∷ es) env w = run s es env (step s e env w)
