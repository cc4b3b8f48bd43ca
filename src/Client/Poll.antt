-- ===== src/Client/Poll.antt =====
-- `pollToken` and the loop of `runJoin` in cmd/wgxdp/main.go.
use wgxdp.Base.{
  ℕ, zero, suc, ◌+◌, ◌-◌, ◌*◌, String, ◌<>◌, true, false, ltb, ◌==◌, string_eq, nat_eq,
  if◌then◌else◌,
}
use wgxdp.Base.Int.{ℤ, pos, negsuc}
use wgxdp.Act.{ok, err}
use wgxdp.Server.DeviceFlow.{DeviceTokenRequest}
use wgxdp.Client.{
  DeviceCodeResponse, DeviceTokenResponse, Network, Client, token_request, running, Run, then_run,
  ◌>>=◌, ◌>>◌, pure, fail, post, decode,
}

-- `pollToken`: whether the polling is over, and the token then.
pub data Poll : Type 0 where
  pending : Poll
  done : String → Poll

unfoldable pub poll_result : DeviceTokenResponse → Run Poll
unfolding pure fail
poll_result r =
    if r.error == "authorization_pending"
    then pure pending
    else if r.error == "access_denied"
    then fail "authorization was denied"
    else if r.error == "expired_token"
    then fail "device code expired"
    else if r.error == ""
    then pure (done r.access_token)
    else fail ("unexpected error: " <> r.error)

abbrev pub token_request_for : String → DeviceTokenRequest
token_request_for device_code = record {
  device_code = device_code;
  grant_type = "urn:ietf:params:oauth:grant-type:device_code";
}

unfoldable pub poll_token : Network → String → String → Run Poll
poll_token net server_url device_code = do
  let url = server_url <> "/device/token"
  reply ←
      post net (token_request url (token_request_for device_code)) "could not poll for token: "
        (λ n. net.token_reply n url (token_request_for device_code))
  r ← decode "could not decode token response: " reply.body
  poll_result r

abbrev pub second : ℕ
second = 1000000000

-- `time.Sleep`, which returns at once for a duration that is not positive.
abbrev pub nanoseconds : ℤ → ℕ
nanoseconds (pos n) = n * second
nanoseconds (negsuc n) = 0

abbrev pub slept : ℤ → Client → Client
slept interval c = record c { now = c.now + nanoseconds interval }

unfoldable pub sleep : ℤ → Run (Unit {0})
sleep interval c = (ok tt, slept interval c)

-- `time.Now().Add(…)`
abbrev pub deadline_of : ℤ → ℕ → ℕ
deadline_of (pos n) now = now + n * second
deadline_of (negsuc n) now = now - suc n * second

-- One round of the loop of `runJoin`, and what comes after it.
unfoldable pub round : Network → String → DeviceCodeResponse → Run Poll
unfolding sleep poll_token ◌>>=◌
round net server_url dc = sleep dc.interval >> poll_token net server_url dc.device_code

abbrev pub after_round : Run String → Poll → Run String
after_round rest pending = rest
after_round rest (done token) = λ c. (ok token, c)

-- The loop: the token, "" when the deadline has passed.
unfoldable pub poll_loop : Network → String → DeviceCodeResponse → ℕ → ℕ → Run String
poll_loop net server_url dc deadline zero c = (err running, c)
poll_loop net server_url dc deadline (suc fuel) c = elim (ltb c.now deadline) [
  | false ↦ (ok "", c)
  | true ↦
      then_run (after_round (poll_loop net server_url dc deadline fuel)) (round net server_url dc c)
]
