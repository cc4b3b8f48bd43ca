-- ===== src/Server/Middleware.antt =====
-- internal/middleware.go.
use Prim.Native.String.{String}
use wgxdp.Base.{◌<>◌, none, some, ◌==◌, string_eq, if◌then◌else◌}
use wgxdp.Base.Text.{replace_all, query_escape}
use wgxdp.Server.{Server, Request, Response, Handler, session_lost}

unfoldable pub get_auth_header : Server → String
get_auth_header s = elim s.config [
  | none ↦ "X-Forwarded-User"
  | some config ↦ if config.auth_header == "" then "X-Forwarded-User" else config.auth_header
]

unfoldable pub get_auth_user : {B : Type 0} → Server → Request B → String
unfolding get_auth_header
get_auth_user s req = req.header (get_auth_header s)

unfoldable pub render_auth_redirect : {B : Type 0} → Server → Request B → String
render_auth_redirect s req = elim s.config [
  | none ↦ ""
  | some config ↦
      if config.auth_redirect_url == ""
      then ""
      else replace_all config.auth_redirect_url "{path}" (query_escape req.request_uri)
]

-- `writeSessionLost`
unfoldable pub session_lost_response : {B : Type 0} → Server → Request B → Response
unfolding render_auth_redirect get_auth_header
session_lost_response s req = record {
  status = 401;
  www_authenticate = "Session";
  payload =
      session_lost "session_lost" ("unauthorized: missing " <> (get_auth_header s <> " header"))
        (render_auth_redirect s req);
}

-- `requireAuth`, and `requireAuthHandler` for an `http.Handler`.
unfoldable pub require_auth : {B : Type 0} → Server → (Request B → Handler) → Request B → Handler
unfolding get_auth_user session_lost_response
require_auth s next req env w =
    if get_auth_user s req == "" then (session_lost_response s req, w) else next req env w
