-- ===== src/Server/Access.antt =====
-- The authentication of internal/middleware.go in front of the routes of internal/server.go.
use wgxdp.Base.{◌≡◌, refl, String, ◌==◌, ==_iff, string_eq, if◌then◌else◌}
use wgxdp.World.{Env, World}
use wgxdp.Server.{Server, Request, Response, Handler}
use wgxdp.Server.Middleware.{get_auth_user, session_lost_response, require_auth}
use wgxdp.Server.Rules.{CreateRuleRequest, list_rules, create_rule, delete_rule}
use wgxdp.Server.DeviceFlow.{DeviceVerifyRequest, device_verify_get, device_verify_post}
use wgxdp.Server.Peers.{list_peers, delete_peer, server_info_handler}
use wgxdp.Server.Calls.{
  Protected, get_peers, delete_peers, get_rules, delete_rules, get_server_info, get_device_verify,
  post_rules, post_device_verify, serve_protected,
}

-- What any request of the protected routes carries, whatever its body.
abbrev pub on_request : {A : Type 0} → ((B : Type 0) → Request B → A) → Protected → A
on_request f (get_peers req) = f (Unit {0}) req
on_request f (delete_peers req) = f (Unit {0}) req
on_request f (get_rules req) = f (Unit {0}) req
on_request f (delete_rules req) = f (Unit {0}) req
on_request f (get_server_info req) = f (Unit {0}) req
on_request f (get_device_verify req) = f (Unit {0}) req
on_request f (post_rules req) = f CreateRuleRequest req
on_request f (post_device_verify req) = f DeviceVerifyRequest req

abbrev pub user_of : Server → Protected → String
user_of s c = on_request (λ B req. get_auth_user s req) c

abbrev pub refusal_of : Server → Protected → Response
refusal_of s c = on_request (λ B req. session_lost_response s req) c

-- The handlers behind the routes.
abbrev pub unguarded : Server → Protected → Handler
unguarded s (get_peers req) = list_peers s req
unguarded s (delete_peers req) = delete_peer s req
unguarded s (get_rules req) = list_rules s req
unguarded s (delete_rules req) = delete_rule s req
unguarded s (get_server_info req) = server_info_handler s req
unguarded s (get_device_verify req) = device_verify_get s req
unguarded s (post_rules req) = create_rule s req
unguarded s (post_device_verify req) = device_verify_post s req

require_auth_lem :
    {B : Type 0} (s : Server) (next : Request B → Handler) (req : Request B) (env : Env) (w : World)
    → require_auth s next req env w
      ≡ (if get_auth_user s req == "" then (session_lost_response s req, w) else next req env w)
unfolding require_auth
require_auth_lem s next req env w = refl

-- A protected route answers a request without a user with the session's loss, and changes nothing;
-- a request with a user it passes to its handler.
pub serve_protected_lem :
    (s : Server) (c : Protected) (env : Env) (w : World)
    → serve_protected s c env w
      ≡ (if user_of s c == "" then (refusal_of s c, w) else unguarded s c env w)
unfolding serve_protected
serve_protected_lem s (get_peers req) env w = require_auth_lem s (list_peers s) req env w
serve_protected_lem s (delete_peers req) env w = require_auth_lem s (delete_peer s) req env w
serve_protected_lem s (get_rules req) env w = require_auth_lem s (list_rules s) req env w
serve_protected_lem s (delete_rules req) env w = require_auth_lem s (delete_rule s) req env w
serve_protected_lem s (get_server_info req) env w =
    require_auth_lem s (server_info_handler s) req env w
serve_protected_lem s (get_device_verify req) env w =
    require_auth_lem s (device_verify_get s) req env w
serve_protected_lem s (post_rules req) env w = require_auth_lem s (create_rule s) req env w
serve_protected_lem s (post_device_verify req) env w =
    require_auth_lem s (device_verify_post s) req env w

refusal_status :
    (s : Server) (c : Protected)
    → ((refusal_of s c).status ≡ 401) × ((refusal_of s c).www_authenticate ≡ "Session")
unfolding session_lost_response
refusal_status s (get_peers req) = (refl, refl)
refusal_status s (delete_peers req) = (refl, refl)
refusal_status s (get_rules req) = (refl, refl)
refusal_status s (delete_rules req) = (refl, refl)
refusal_status s (get_server_info req) = (refl, refl)
refusal_status s (get_device_verify req) = (refl, refl)
refusal_status s (post_rules req) = (refl, refl)
refusal_status s (post_device_verify req) = (refl, refl)

pub record IsRefused (w : World) (r : Response × World) : Type 0 where
  pub status : r.0.status ≡ 401
  pub challenge : r.0.www_authenticate ≡ "Session"
  pub same : r.1 ≡ w

-- Every protected route answers a request without a user with status 401 and the challenge
-- `Session`, and changes nothing: neither the tables, nor the interface, nor the eBPF map.
pub serve_protected-IsRefused :
    (s : Server) (c : Protected) (env : Env) (w : World)
    → user_of s c ≡ ""
    → IsRefused w (serve_protected s c env w)
serve_protected-IsRefused s c env w e =
    rw (serve_protected_lem s c env w, (==_iff (user_of s c) "").1 e)
      (record { status = (refusal_status s c).0; challenge = (refusal_status s c).1; same = refl })
