-- ===== src/Server/Integrity.antt =====
-- What the methods that write keep, every request and every clean-up keeps.
use wgxdp.Base.{List, string_eq}
use wgxdp.World.{Env, World}
use wgxdp.Database.Integrity.{IsSound, Sound}
use wgxdp.Database.Integrity.Methods.{
  add_peer-Sound, remove_peer-Sound, add_rule-Sound, remove_rule-Sound, remove_rules_for_peer-Sound,
}
use wgxdp.Database.Integrity.Codes.{
  create_device_code-Sound, approve_device_code-Sound, deny_device_code-Sound,
  consume_access_token-Sound, clean_expired_device_codes-Sound,
}
use wgxdp.Server.{Server}
use wgxdp.Server.Serving.{Kept, run-Keeps, step-Keeps}
use wgxdp.Firewall.Keeps.{add_peer_rule-Keeps, remove_peer_rule-Keeps}
use wgxdp.Server.Calls.{Event, step, run}

pub Kept-Sound : Kept Sound
Kept-Sound = record {
  plain = record {
    add_peer_keeps = add_peer-Sound;
    remove_peer_keeps = remove_peer-Sound;
    create_device_code_keeps = create_device_code-Sound;
    approve_device_code_keeps = approve_device_code-Sound;
    deny_device_code_keeps = deny_device_code-Sound;
    consume_access_token_keeps = consume_access_token-Sound;
    clean_expired_device_codes_keeps = clean_expired_device_codes-Sound;
  };
  add_rule_keeps = add_rule-Sound;
  remove_rule_keeps = remove_rule-Sound;
  remove_rules_for_peer_keeps = remove_rules_for_peer-Sound;
  add_peer_rule_keeps = add_peer_rule-Keeps IsSound;
  remove_peer_rule_keeps = remove_peer_rule-Keeps IsSound;
}

pub step-IsSound :
    (s : Server) (e : Event) (env : Env) (w : World) → IsSound w.db → IsSound (step s e env w).db
step-IsSound s e env w h = step-Keeps Kept-Sound s e env w h

-- From tables that are sound, any requests and clean-ups lead to tables that are sound, whatever SQLite,
-- the kernel, the clock and the random source answer.
pub run-IsSound :
    (s : Server) (es : List Event) (env : Env) (w : World)
    → IsSound w.db
    → IsSound (run s es env w).db
run-IsSound s es env w h = run-Keeps Kept-Sound s es env w h
