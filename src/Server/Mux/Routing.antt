-- ===== src/Server/Mux/Routing.antt =====
-- The routes of `StartServer` in internal/server.go by path and method, without its patterns.
use wgxdp.Base.{
  String, Bool, ◌||◌, not, Option, none, some, List, [], ◌∷◌, ◌==◌, string_eq, if◌then◌else◌,
}
use wgxdp.Server.Calls.{
  get_peers, delete_peers, get_rules, delete_rules, get_server_info, get_device_verify, post_rules,
  post_device_verify, Call, protected, join, device_code, device_token, Event, call, clean_up,
}
use wgxdp.Server.Mux.{Incoming, Target, api, file, bodyless, request_of, Arrival, request, ticker}

abbrev is_read : Incoming → Bool
is_read m = "GET" == m.method || m.method == "HEAD"

abbrev offered : Bool → Call → Option Call
offered b c = if b then some c else none

-- The call of a path of one segment.
abbrev pub call_of_one : Incoming → String → Option Call
call_of_one m a =
    if "peers" == a
    then offered (is_read m) (protected (get_peers (bodyless m [])))
    else if "rules" == a
    then (if is_read m
        then some (protected (get_rules (bodyless m [])))
        else offered ("POST" == m.method) (protected (post_rules (request_of m [] m.rule_body))))
    else if "server-info" == a
    then offered (is_read m) (protected (get_server_info (bodyless m [])))
    else offered ("join" == a) (join (request_of m [] m.join_body))

-- The calls of the paths below /device.
abbrev pub call_of_device : Incoming → String → Option Call
call_of_device m b =
    if "verify" == b
    then (if is_read m
        then some (protected (get_device_verify (bodyless m [])))
        else offered ("POST" == m.method)
            (protected (post_device_verify (request_of m [] m.verify_body))))
    else if "code" == b
    then some (device_code (bodyless m []))
    else offered ("token" == b) (device_token (request_of m [] m.token_body))

abbrev pub call_of_two : Incoming → String → String → Option Call
call_of_two m a b =
    if "device" == a
    then call_of_device m b
    else if not ("DELETE" == m.method) || b == ""
    then none
    else if "peers" == a
    then some (protected (delete_peers (bodyless m (("name", b) ∷ []))))
    else offered ("rules" == a) (protected (delete_rules (bodyless m (("id", b) ∷ []))))

abbrev pub call_of_path : Incoming → List String → Option Call
call_of_path m [] = none
call_of_path m (a ∷ []) = call_of_one m a
call_of_path m (a ∷ b ∷ []) = call_of_two m a b
call_of_path m (a ∷ b ∷ c ∷ ss) = none

-- The call of the API that a request is, if it is one.
abbrev pub call_of : Incoming → Option Call
call_of m = call_of_path m m.segments

abbrev pub with_call : Option Call → List Event → List Event
with_call none events = events
with_call (some c) events = call c ∷ events

-- The events of the API in what arrives, in its order.
abbrev pub events_of : List Arrival → List Event
events_of [] = []
events_of (request m ∷ arrivals) = with_call (call_of m) (events_of arrivals)
events_of (ticker ∷ arrivals) = clean_up ∷ events_of arrivals

abbrev pub call_in : Option Target → Option Call
call_in none = none
call_in (some (api c)) = some c
call_in (some file) = none
