-- ===== src/Client/Served.antt =====
-- The command against the server of this repository: the answers of internal/handlers_device.go as the
-- client reads them.
use wgxdp.Base.{
  ℕ, ◌*◌, ◌≤◌, ◌≡◌, refl, ap, sym, ◌∙◌, length, String, ◌<>◌, Option, none, some, ◌==◌, string_eq,
  ltb, arith, if◌then◌else◌, inl, inr,
}
use wgxdp.Base.Int.{pos}
use wgxdp.World.{Env, World}
use wgxdp.Act.{Outcome, ok, err}
use wgxdp.Act
use wgxdp.Database.{DeviceCode}
use wgxdp.Database.Codes.{create_device_code}
use wgxdp.Server.{
  Server, Request, malformed, decoded, Response, device_code, access_token, token_error, aborted,
}
use wgxdp.Server.DeviceFlow.{device_code_handler, token_answer}
use wgxdp.Server.Inversion.{handler_outcome, past_guard, past_call, past_config, responded}
use wgxdp.Server.Tokens.{poll_answer}
use wgxdp.Client.{
  Network, Client, Reply, DeviceCodeResponse, DeviceTokenResponse, Stop, failure, post, decode,
  pure, fail, ◌>>=◌,
}
use wgxdp.Client.Poll.{nanoseconds, Poll, pending, done, poll_token, poll_result, token_request_for}
use wgxdp.Client.Join.{run_join}
use wgxdp.Client.Polling.{Ended}
use wgxdp.Client.Ending.{Expires, run_join-Ended}

-- The answer of the route /device/code: an object, or a text, or none after a panic.
abbrev pub code_reply_of : Response → Outcome String (Reply DeviceCodeResponse)
code_reply_of r = elim r.payload [
  | device_code dc uc uri expires_in interval ↦ ok (record {
    status = r.status;
    body = decoded (record {
      device_code = dc;
      user_code = uc;
      verification_uri = uri;
      expires_in = pos expires_in;
      interval = pos interval;
    });
    text = "";
  })
  | aborted ↦ err "EOF"
  | _ ↦ ok (record { status = r.status; body = malformed; text = "" })
]

-- The answer of the route /device/token.
abbrev pub token_reply_of : Response → Outcome String (Reply DeviceTokenResponse)
token_reply_of r = elim r.payload [
  | access_token token type ↦ ok (record {
    status = r.status;
    body = decoded (record { access_token = token; token_type = type; error = "" });
    text = "";
  })
  | token_error e ↦ ok (record {
    status = r.status;
    body = decoded (record { access_token = ""; token_type = ""; error = e });
    text = "";
  })
  | aborted ↦ err "EOF"
  | _ ↦ ok (record { status = r.status; body = malformed; text = "" })
]

-- What the client makes of a poll, by the row of the code and the server's clock.
abbrev pub polled : Option DeviceCode → ℕ → Outcome Stop Poll
polled none now = err (failure "device code expired")
polled (some dc) now =
    if ltb dc.expires_at now
    then err (failure "device code expired")
    else if dc.status == "pending"
    then ok pending
    else if dc.status == "denied"
    then err (failure "authorization was denied")
    else if dc.status == "approved"
    then ok (done dc.access_token)
    else err (failure "unexpected error: server_error")

-- A poll that the server answers by the row of the code: the client waits while it is pending, has the
-- token once it is approved, and stops with an error for a code that is denied, expired or gone.
pub poll_token-poll_answer :
    (net : Network) (server_url code : String) (c : Client) (found : Option DeviceCode) (now : ℕ)
    → net.token_reply (length c.posted) (server_url <> "/device/token") (token_request_for code)
      ≡ token_reply_of (poll_answer found now)
    → (poll_token net server_url code c).0 ≡ polled found now
unfolding poll_token post decode poll_result pure fail token_answer ◌>>=◌
poll_token-poll_answer net server_url code c none now e = ground (arith, e)
poll_token-poll_answer net server_url code c (some dc) now e = ground (arith, e)

pure_interval :
    (env : Env) (w : World) (made : DeviceCode) {dc : DeviceCode} {v : World}
    → Act.pure {E = String} made env w ≡ (ok dc, v)
    → made.interval ≡ 5
    → dc.interval ≡ 5
unfolding Act.pure
pure_interval env w made e five =
    ap (λ r. elim r.0 [ ok a ↦ a.interval | err _ ↦ made.interval ]) (sym e) ∙ five

create_device_code-interval :
    (env : Env) (w : World) {dc : DeviceCode} {v : World}
    → create_device_code env w ≡ (ok dc, v)
    → dc.interval ≡ 5
unfolding create_device_code
create_device_code-interval env w {dc = dc} e = elim (Act.bind-cases _ _ env w e) [
  | inr (why, _, bad) ↦ absurd (cc)
  | inl (code, w1, _, e1) ↦ elim (Act.bind-cases _ _ env w1 e1) [
    | inr (why, _, bad) ↦ absurd (cc)
    | inl (letters, w2, _, e2) ↦ elim (Act.bind-cases _ _ env w2 e2) [
      | inr (why, _, bad) ↦ absurd (cc)
      | inl (now, w3, _, e3) ↦ elim (Act.bind-cases _ _ env w3 e3) [
        | inr (why, _, bad) ↦ absurd (cc)
        | inl (_, w4, _, e4) ↦ pure_interval env w4 _ e4 refl
      ]
    ]
  ]
]

-- A 200 of the route carries a code that expires after 600 seconds, to be polled every 5.
device_code_handler-intervals :
    {B : Type 0} (s : Server) (req : Request B) (env : Env) (w : World) {r : Response} {w' : World}
    → device_code_handler s req env w ≡ (r, w')
    → r.status ≡ 200
    → (dc : String) × (uc : String) × (uri : String) × (r.payload ≡ device_code dc uc uri 600 5)
unfolding device_code_handler Act.pure
device_code_handler-intervals s req env w {r = r} e st =
    let (o, run, same) = handler_outcome _ env w e in
    let st' = ap (λ z. z.status) same ∙ st in
    let (_, e1) = past_guard 200 env w _ _ _ run (omega arith) st' in
    let (dc, w1, made, e2) = past_call 200 env w _ _ _ e1 (λ why. omega arith) st' in
    let (config, _, e3) = past_config 200 env w1 s _ e2 (omega arith) st' in
    let answer = sym same ∙ sym (ap (λ z. responded z.0) e3) in
    (
      dc.device_code,
      dc.user_code,
      config.server_url <> "/device/verify",
      ap (λ z. z.payload) answer
          ∙ ap (device_code dc.device_code dc.user_code (config.server_url <> "/device/verify") 600)
              (create_device_code-interval env w made),
    )

-- The route /device/code is answered by the server, in any state.
pub record Served (net : Network) : Type 0 where
  pub server_of : ℕ → String → Server
  pub request_of : ℕ → String → Request (Unit {0})
  pub env_of : ℕ → String → Env
  pub state_of : ℕ → String → World
  pub answers :
      (n : ℕ) (url : String)
      → net.code_reply n url
        ≡ code_reply_of
            (device_code_handler
              (server_of n url)
              (request_of n url)
              (env_of n url)
              (state_of n url)).0

code_reply_of-status :
    (r : Response) {reply : Reply DeviceCodeResponse}
    → code_reply_of r ≡ ok reply
    → reply.status ≡ r.status
code_reply_of-status r e = ground arith

code_reply_of-nanoseconds :
    (r : Response) {reply : Reply DeviceCodeResponse} {d : DeviceCodeResponse} (dc uc uri : String)
    → code_reply_of r ≡ ok reply
    → reply.body ≡ decoded d
    → r.payload ≡ device_code dc uc uri 600 5
    → nanoseconds d.expires_in ≤ 120 * nanoseconds d.interval
code_reply_of-nanoseconds r {d = d} dc uc uri e read is =
    let expires : d.expires_in ≡ pos 600 = ground (arith, e, read, is) in
    let interval : d.interval ≡ pos 5 = ground (arith, e, read, is) in
    rw (expires, interval) (omega arith)

Served-Expires : (net : Network) → Served net → Expires net 120
unfolding Expires
Served-Expires net served n url reply d got good read =
    let answer =
      device_code_handler (served.server_of n url) (served.request_of n url) (served.env_of n url)
        (served.state_of n url) in
    let same : code_reply_of answer.0 ≡ ok reply = sym (served.answers n url) ∙ got in
    let (dc, uc, uri, is) =
      device_code_handler-intervals (served.server_of n url) (served.request_of n url)
        (served.env_of n url) (served.state_of n url) {r = answer.0} {w' = answer.1} refl
        (sym (code_reply_of-status answer.0 same) ∙ good) in
    code_reply_of-nanoseconds answer.0 dc uc uri same read is

-- Against the server, whatever else it answers, 121 rounds of polling are enough: the command ends, and
-- posts 122 requests at most.
pub run_join-Served :
    (net : Network) (server_url name : String) (c : Client)
    → Served net
    → Ended c 122 (run_join net 121 server_url name c)
run_join-Served net server_url name c served =
    run_join-Ended net 121 120 server_url name c (Served-Expires net served) (omega arith)
