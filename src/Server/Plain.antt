-- ===== src/Server/Plain.antt =====
-- The routes that touch neither the rules nor the eBPF map: what the methods that they call keep, they
-- keep. With that of the three other routes, it is what every request and every clean-up keeps.
use wgxdp.Base.{Option-elim, arith, Bool, true, false, String, if◌then◌else◌, string_eq}
use wgxdp.World.{Env, World}
use wgxdp.Act.Keeps.{Invariant, Keeps}
use wgxdp.Database.Reads.{read_rules}
use wgxdp.Database.Peers.{add_peer, remove_peer}
use wgxdp.Database.Codes.{
  create_device_code, approve_device_code, deny_device_code, consume_access_token,
  clean_expired_device_codes,
}
use wgxdp.Wireguard.Peers.{device_rules}
use wgxdp.Server.{Server, Request, Handler}
use wgxdp.Server.Keeps.{Serves, Serves-handler, server_rules}
use wgxdp.Server.Middleware.{require_auth}
use wgxdp.Server.DeviceFlow.{
  device_code_handler, device_token_handler, device_verify_get, device_verify_post,
  DeviceTokenRequest, DeviceVerifyRequest, approve_answer, deny_answer,
}
use wgxdp.Server.Rules.{CreateRuleRequest, list_rules, create_rule}
use wgxdp.Server.Rules
use wgxdp.Server.Peers.{
  JoinRequest, list_peers, delete_peer, server_info_handler, join_handler, admit_peer, statuses_of,
}
use wgxdp.Server.Calls.{
  Bodyless, Protected, Call, protected, join, device_code, device_token, get_peers, delete_peers,
  get_rules, delete_rules, get_server_info, get_device_verify, post_rules, post_device_verify,
  Event, serve_protected, serve, step, call, clean_up,
}

-- The methods that write peers and device codes keep `J`.
pub record Plain (J : Invariant) : Type 0 where
  pub add_peer_keeps : (name key ip : String) → Keeps J (add_peer name key ip)
  pub remove_peer_keeps : (name : String) → Keeps J (remove_peer name)
  pub create_device_code_keeps : Keeps J create_device_code
  pub approve_device_code_keeps : (code by : String) → Keeps J (approve_device_code code by)
  pub deny_device_code_keeps : (code by : String) → Keeps J (deny_device_code code by)
  pub consume_access_token_keeps : (token : String) → Keeps J (consume_access_token token)
  pub clean_expired_device_codes_keeps : Keeps J clean_expired_device_codes

-- The routes that write the rules and the map keep `J` in this state.
pub record RuleRoutes (J : Invariant) (s : Server) (env : Env) (w : World) : Type 0 where
  pub create_rule_keeps :
      (req : Request CreateRuleRequest)
      → J (create_rule s req env w).1.db (create_rule s req env w).1.peer_rules
  pub delete_rule_keeps :
      (req : Bodyless)
      → J (Rules.delete_rule s req env w).1.db (Rules.delete_rule s req env w).1.peer_rules
  pub delete_peer_keeps :
      (req : Bodyless) → J (delete_peer s req env w).1.db (delete_peer s req env w).1.peer_rules

module _ {J : Invariant} (plain : Plain J) where
  ruleset serving_rules = (read_rules, device_rules, server_rules, Serves-handler)

  list_rules-Serves : {B : Type 0} (s : Server) (req : Request B) → Serves J (list_rules s req)
  unfolding list_rules
  list_rules-Serves s req = search serving_rules depth 12

  create_device_code-Keeps : Keeps J create_device_code
  create_device_code-Keeps = plain.create_device_code_keeps

  device_code_handler-Serves :
      {B : Type 0} (s : Server) (req : Request B) → Serves J (device_code_handler s req)
  unfolding device_code_handler
  device_code_handler-Serves s req = search (serving_rules, create_device_code-Keeps) depth 12

  device_token_handler-Serves :
      (s : Server) (req : Request DeviceTokenRequest) → Serves J (device_token_handler s req)
  unfolding device_token_handler
  device_token_handler-Serves s req = search serving_rules depth 12

  approve_answer-Keeps : (code user : String) → Keeps J (approve_answer code user)
  unfolding approve_answer
  approve_answer-Keeps code user = search (serving_rules, plain.approve_device_code_keeps) depth 12

  deny_answer-Keeps : (code user : String) → Keeps J (deny_answer code user)
  unfolding deny_answer
  deny_answer-Keeps code user = search (serving_rules, plain.deny_device_code_keeps) depth 12

  device_verify_post-Serves :
      (s : Server) (req : Request DeviceVerifyRequest) → Serves J (device_verify_post s req)
  unfolding device_verify_post
  device_verify_post-Serves s req =
      search (serving_rules, approve_answer-Keeps, deny_answer-Keeps) depth 14

  admit_peer-Keeps : (s : Server) (jr : JoinRequest) → Keeps J (admit_peer s jr)
  unfolding admit_peer
  admit_peer-Keeps s jr = search (serving_rules, plain.add_peer_keeps) depth 14

  join_handler-Serves : (s : Server) (req : Request JoinRequest) → Serves J (join_handler s req)
  unfolding join_handler
  join_handler-Serves s req =
      search (serving_rules, plain.consume_access_token_keeps, admit_peer-Keeps) depth 16

  server_info_handler-Serves :
      {B : Type 0} (s : Server) (req : Request B) → Serves J (server_info_handler s req)
  unfolding server_info_handler
  server_info_handler-Serves s req = search serving_rules

  statuses_of-Keeps : (s : Server) → Keeps J (statuses_of s)
  unfolding statuses_of
  statuses_of-Keeps s =
      Option-elim (Keeps J) _ _ s.device (search serving_rules) (λ dev. search serving_rules)

  list_peers-Serves : {B : Type 0} (s : Server) (req : Request B) → Serves J (list_peers s req)
  unfolding list_peers
  list_peers-Serves s req = search (serving_rules, statuses_of-Keeps) depth 12

  either-Serves :
      (b : Bool) (h k : Handler) → Serves J h → Serves J k → Serves J (if b then h else k)
  either-Serves true h k sh sk = sh
  either-Serves false h k sh sk = sk

  device_verify_get-Serves :
      {B : Type 0} (s : Server) (req : Request B) → Serves J (device_verify_get s req)
  unfolding device_verify_get
  device_verify_get-Serves s req = search (serving_rules, either-Serves) depth 12

  module _ (s : Server) (env : Env) (w : World) (h : J w.db w.peer_rules) where
    require_auth_keeps :
        {B : Type 0} (next : Request B → Handler) (req : Request B)
        → J (next req env w).1.db (next req env w).1.peer_rules
        → J (require_auth s next req env w).1.db (require_auth s next req env w).1.peer_rules
    unfolding require_auth
    require_auth_keeps next req j = ground arith

    module _ (routes : RuleRoutes J s env w) where
      serve_protected_keeps :
          (c : Protected)
          → J (serve_protected s c env w).1.db (serve_protected s c env w).1.peer_rules
      unfolding serve_protected
      serve_protected_keeps (get_peers req) =
          require_auth_keeps (list_peers s) req ((list_peers-Serves s req).at env w h)
      serve_protected_keeps (delete_peers req) =
          require_auth_keeps (delete_peer s) req (routes.delete_peer_keeps req)
      serve_protected_keeps (get_rules req) =
          require_auth_keeps (list_rules s) req ((list_rules-Serves s req).at env w h)
      serve_protected_keeps (delete_rules req) =
          require_auth_keeps (Rules.delete_rule s) req (routes.delete_rule_keeps req)
      serve_protected_keeps (get_server_info req) =
          require_auth_keeps (server_info_handler s) req
            ((server_info_handler-Serves s req).at env w h)
      serve_protected_keeps (get_device_verify req) =
          require_auth_keeps (device_verify_get s) req ((device_verify_get-Serves s req).at env w h)
      serve_protected_keeps (post_rules req) =
          require_auth_keeps (create_rule s) req (routes.create_rule_keeps req)
      serve_protected_keeps (post_device_verify req) =
          require_auth_keeps (device_verify_post s) req
            ((device_verify_post-Serves s req).at env w h)

      serve_keeps : (c : Call) → J (serve s c env w).1.db (serve s c env w).1.peer_rules
      unfolding serve
      serve_keeps (protected c) = serve_protected_keeps c
      serve_keeps (join req) = (join_handler-Serves s req).at env w h
      serve_keeps (device_code req) = (device_code_handler-Serves s req).at env w h
      serve_keeps (device_token req) = (device_token_handler-Serves s req).at env w h

      pub step_keeps : (e : Event) → J (step s e env w).db (step s e env w).peer_rules
      unfolding step
      step_keeps (call c) = serve_keeps c
      step_keeps clean_up = plain.clean_expired_device_codes_keeps.at env w h
