-- ===== src/Server/Keeps.antt =====
-- What the parts of the handlers keep of the tables and the eBPF map.
use wgxdp.Base.{Option-elim, ℕ, String, Option, none, some}
use wgxdp.World.{Env, World}
use wgxdp.Act.{Outcome, ok, err, Act, pure, fail}
use wgxdp.Act.Keeps.{Invariant, Keeps, keeps_rules, Keeps-pure, Keeps-fail}
use wgxdp.Database.{DeviceCode, PeerRecord, RuleRecord}
use wgxdp.Database.Reads.{read_rules}
use wgxdp.Wireguard.{DeviceAttrs}
use wgxdp.Config.{Config}
use wgxdp.Server.Rules.ParseInt.{parse_int}
use wgxdp.Server.{
  panics, Server, Body, empty, malformed, decoded, Response, Handler, handler, settled,
}
use wgxdp.Server.DeviceFlow.{
  config_of, unmarshal, live_code, decode_verify, DeviceVerifyRequest, find_live_code, verify_json,
}
use wgxdp.Server.Rules.{with_xdp, rule_id, existing_rule}
use wgxdp.Server.Peers.{with_device, existing_peer, joined_response}

pub record Serves (J : Invariant) (h : Handler) : Type 0 where
  pub at : (env : Env) (w : World) → J w.db w.peer_rules → J (h env w).1.db (h env w).1.peer_rules

settled-keeps :
    (J : Invariant) (r : Outcome Response Response × World)
    → J r.1.db r.1.peer_rules
    → J (settled r).1.db (settled r).1.peer_rules
settled-keeps J (ok a, w) j = j
settled-keeps J (err e, w) j = j

module _ {J : Invariant} where
  pub Serves-handler : (m : Act Response Response) → Keeps J m → Serves J (handler m)
  unfolding handler
  Serves-handler m km = record { at = λ env w j. settled-keeps J (m env w) (km.at env w j) }

  pub config_of-Keeps : (s : Server) → Keeps J (config_of s)
  unfolding config_of
  config_of-Keeps s = Option-elim (Keeps J) (fail panics) pure s.config (Keeps-fail _) Keeps-pure

  pub with_xdp-Keeps :
      (s : Server) (m : Act Response (Unit {0})) → Keeps J m → Keeps J (with_xdp s m)
  unfolding with_xdp
  with_xdp-Keeps s m km = Option-elim (Keeps J) (pure tt) (λ _. m) s.xdp (Keeps-pure tt) (λ _. km)

  pub with_device-Keeps :
      (s : Server) (m : DeviceAttrs → Act Response (Unit {0}))
      → ((dev : DeviceAttrs) → Keeps J (m dev))
      → Keeps J (with_device s m)
  unfolding with_device
  with_device-Keeps s m km = Option-elim (Keeps J) (pure tt) m s.device (Keeps-pure tt) km

  pub unmarshal-Keeps :
      {B : Type 0} (status : ℕ) (message : String) (b : Body B)
      → Keeps J (unmarshal status message b)
  unfolding unmarshal
  unmarshal-Keeps status message empty = Keeps-fail _
  unmarshal-Keeps status message malformed = Keeps-fail _
  unmarshal-Keeps status message (decoded b) = Keeps-pure b

  pub decode_verify-Keeps : (b : Body DeviceVerifyRequest) → Keeps J (decode_verify b)
  unfolding decode_verify
  decode_verify-Keeps empty = Keeps-fail _
  decode_verify-Keeps malformed = Keeps-fail _
  decode_verify-Keeps (decoded b) = Keeps-pure b

  pub live_code-Keeps : (gone : Response) (o : Option DeviceCode) → Keeps J (live_code gone o)
  unfolding live_code
  live_code-Keeps gone none = Keeps-fail gone
  live_code-Keeps gone (some dc) = search keeps_rules

  pub find_live_code-Keeps : (code : String) → Keeps J (find_live_code code)
  unfolding find_live_code
  find_live_code-Keeps code = search (read_rules, live_code-Keeps)

  pub verify_json-Keeps : (code : String) → Keeps J (verify_json code)
  unfolding verify_json
  verify_json-Keeps code = search (read_rules, find_live_code-Keeps)

  pub rule_id-Keeps : (text : String) → Keeps J (rule_id text)
  unfolding rule_id
  rule_id-Keeps text =
      Option-elim (Keeps J) (fail _) pure (parse_int text) (Keeps-fail _) Keeps-pure

  pub existing_rule-Keeps : (o : Option RuleRecord) → Keeps J (existing_rule o)
  unfolding existing_rule
  existing_rule-Keeps none = Keeps-fail _
  existing_rule-Keeps (some r) = Keeps-pure r

  pub existing_peer-Keeps : (o : Option PeerRecord) → Keeps J (existing_peer o)
  unfolding existing_peer
  existing_peer-Keeps none = Keeps-fail _
  existing_peer-Keeps (some r) = Keeps-pure r

  pub joined_response-Keeps :
      (s : Server) (config : Config) (ip name : String) → Keeps J (joined_response s config ip name)
  unfolding joined_response
  joined_response-Keeps s config ip name = record { at = λ env w h. h }

pub ruleset server_rules = (
  config_of-Keeps, with_xdp-Keeps, with_device-Keeps, unmarshal-Keeps, decode_verify-Keeps,
  live_code-Keeps, find_live_code-Keeps, verify_json-Keeps, rule_id-Keeps, existing_rule-Keeps,
  existing_peer-Keeps, joined_response-Keeps,
)
