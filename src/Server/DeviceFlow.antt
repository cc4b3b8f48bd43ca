-- ===== src/Server/DeviceFlow.antt =====
-- internal/handlers_device.go: the device authorization flow.
use text.Mathlib.Text.{find?}
use wgxdp.Base.{
  ℕ, String, ◌<>◌, Bool, true, false, not, Option, none, some, ltb, ◌==◌, string_eq, if◌then◌else◌,
}
use wgxdp.Act.{Act, pure, fail, ask, attempt, guard, ◌>>=◌, ◌>>◌}
use wgxdp.Config.{Config}
use wgxdp.Database.{DeviceCode, device_code_expiry}
use wgxdp.Database.Codes.{
  create_device_code, get_device_code_by_user_code, get_device_code_by_device_code,
  approve_device_code, deny_device_code,
}
use wgxdp.Server.{
  Server, Request, Body, empty, malformed, decoded, Response, respond, http_error, panics, Handler,
  handler, or_respond, html, device_code, access_token, token_error, verify_failed, verify_done,
  verify_info,
}
use wgxdp.Server.Middleware.{get_auth_user}

pub record DeviceTokenRequest : Type 0 where
  pub device_code : String
  pub grant_type : String

pub record DeviceVerifyRequest : Type 0 where
  pub user_code : String
  pub action : String

-- A nil `s.Config` that is dereferenced.
unfoldable pub config_of : Server → Act Response Config
config_of s = elim s.config [ none ↦ fail panics | some config ↦ pure config ]

abbrev pub method_not_allowed : Response
method_not_allowed = http_error 405 "Method not allowed"

unfoldable pub device_code_handler : {B : Type 0} → Server → Request B → Handler
device_code_handler s req = handler (do
  guard (req.method == "POST") method_not_allowed
  dc ← or_respond create_device_code (λ e. http_error 500 ("could not create device code: " <> e))
  config ← config_of s
  pure (
      respond 200 (
        device_code dc.device_code dc.user_code (config.server_url <> "/device/verify")
          device_code_expiry dc.interval)))

-- `json.Unmarshal` of a body that has been read whole; the decoder's own text is left out.
unfoldable pub unmarshal : {B : Type 0} → ℕ → String → Body B → Act Response B
unmarshal status message empty = fail (http_error 400 "empty body")
unmarshal status message malformed = fail (http_error status message)
unmarshal status message (decoded b) = pure b

-- `dc == nil || dc.ExpiresAt < time.Now().Unix()`: the clock is read for a code that exists.
unfoldable pub live_code : Response → Option DeviceCode → Act Response DeviceCode
live_code gone none = fail gone
live_code gone (some dc) = do
  now ← ask (λ env. env.now)
  if ltb dc.expires_at now then fail gone else pure dc

unfoldable pub token_answer : DeviceCode → Response
token_answer dc =
    if dc.status == "pending"
    then respond 429 (token_error "authorization_pending")
    else if dc.status == "denied"
    then respond 403 (token_error "access_denied")
    else if dc.status == "approved"
    then respond 200 (access_token dc.access_token "Bearer")
    else respond 500 (token_error "server_error")

unfoldable pub device_token_handler : Server → Request DeviceTokenRequest → Handler
device_token_handler s req = handler (do
  guard (req.method == "POST") method_not_allowed
  dtr ← unmarshal 400 "could not parse json" req.body
  found ←
      or_respond (get_device_code_by_device_code dtr.device_code)
        (λ e. http_error 500 ("server error: " <> e))
  dc ← live_code (respond 410 (token_error "expired_token")) found
  pure (token_answer dc))

abbrev is_some : Option ℕ → Bool
is_some none = false
is_some (some _) = true

abbrev accepts_json : String → Bool
accepts_json accept = is_some (find? accept "application/json")

abbrev pub failed : ℕ → String → Response
failed status message = respond status (verify_failed "Error" message)

unfoldable pub find_live_code : String → Act Response DeviceCode
unfolding live_code
find_live_code code = do
  found ← or_respond (get_device_code_by_user_code code) (λ e. failed 500 "Server error.")
  live_code (failed 404 "Invalid or expired code.") found

unfoldable pub verify_json : String → Act Response Response
unfolding find_live_code
verify_json code = do
  guard (not (code == "")) (failed 400 "No code provided.")
  dc ← find_live_code code
  pure (respond 200 (verify_info dc.user_code dc.status dc.expires_at))

unfoldable pub device_verify_get : {B : Type 0} → Server → Request B → Handler
unfolding handler verify_json ◌>>=◌
device_verify_get s req =
    if accepts_json (req.header "Accept")
    then handler (verify_json req.query_code)
    else handler (pure (respond 200 (html s.index_html)))

abbrev by_user : String → String → String → String
by_user message how user =
    if user == "" then message else message <> (" " <> (how <> (" by " <> (user <> "."))))

unfoldable pub approve_answer : String → String → Act Response Response
approve_answer user_code user = do
  or_respond (approve_device_code user_code user) (λ e. failed 500 "Could not approve device.")
  pure (
      respond 200 (
        verify_done "Approved"
          (by_user "The device has been authorized to join the network." "Approved" user)))

-- The error of `DenyDeviceCode` is ignored.
unfoldable pub deny_answer : String → String → Act Response Response
deny_answer user_code user = do
  attempt (deny_device_code user_code user)
  pure (
      respond 200
        (verify_done "Denied" (by_user "The device request has been denied." "Denied" user)))

unfoldable pub decode_verify : Body DeviceVerifyRequest → Act Response DeviceVerifyRequest
decode_verify (decoded dvr) = pure dvr
decode_verify _ = fail (failed 400 "Invalid request body.")

unfoldable pub device_verify_post : Server → Request DeviceVerifyRequest → Handler
unfolding handler decode_verify find_live_code approve_answer deny_answer get_auth_user ◌>>=◌
device_verify_post s req = handler (do
  dvr ← decode_verify req.body
  guard (not (dvr.user_code == "")) (failed 400 "No user code provided.")
  dc ← find_live_code dvr.user_code
  guard (dc.status == "pending") (failed 409 "This code has already been used.")
  let acting_user = get_auth_user s req
  if dvr.action == "approve"
      then approve_answer dvr.user_code acting_user
      else if dvr.action == "deny"
      then deny_answer dvr.user_code acting_user
      else fail (failed 400 "Invalid action."))
