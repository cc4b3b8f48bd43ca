-- ===== src/Client/Polling.antt =====
-- The polling loop of `runJoin` ends, and what a token that it returns comes from.
use wgxdp.Base.{
  ℕ, zero, suc, ◌+◌, ◌*◌, ◌≤◌, ◌<◌, ◌≡◌, ◌≢◌, ◌⊎◌, refl, ap, sym, subst, String, ◌<>◌, Bool, true,
  false, length, ltb, ==_iff, string_eq, arith, inl, inr, ltb_iff,
}
use native.Mathlib.Nat.{suc-mul}
use wgxdp.Act.{Outcome, ok, err, Outcome-cases}
use wgxdp.Server.{Body, empty, malformed, decoded}
use wgxdp.Client.{
  Network, Client, Reply, DeviceCodeResponse, DeviceTokenResponse, Stop, running, ◌>>=◌, pure, fail,
  post, decode, then_run, Run,
}
use wgxdp.Client.Poll.{
  poll_result, poll_token, token_request_for, Poll, pending, done, slept, round, after_round, sleep,
  nanoseconds, poll_loop,
}

-- A poll takes no time back, posts one request, and does not run forever.
pub record IsPolled (url code : String) (c : Client) (r : Outcome Stop Poll × Client) : Type 0 where
  pub later : c.now ≤ r.1.now
  pub one_more : length r.1.posted ≡ suc (length c.posted)
  pub ends : r.0 ≢ err running

poll_token-IsPolled :
    (net : Network) (server_url code : String) (c : Client)
    → IsPolled server_url code c (poll_token net server_url code c)
unfolding poll_token post decode poll_result pure fail ◌>>=◌
poll_token-IsPolled net server_url code c = ground arith

decoded_or_not :
    {B : Type 0} (b : Body B) → ((r : B) × (b ≡ decoded r)) ⊎ ((b ≡ empty) ⊎ (b ≡ malformed))
decoded_or_not empty = inr (inl refl)
decoded_or_not malformed = inr (inr refl)
decoded_or_not (decoded r) = inl (r, refl)

-- The answer to the request of that number carries the token, and no error.
unfoldable pub Carries : Network → String → String → ℕ → String → Type 0
Carries net server_url code n token =
    (reply : Reply DeviceTokenResponse) × (r : DeviceTokenResponse) × (net.token_reply n
        (server_url <> "/device/token") (token_request_for code)
      ≡ ok reply)
    × (reply.body ≡ decoded r)
    × (r.error ≡ "")
    × (r.access_token ≡ token)

poll_token-Carries :
    (net : Network) (server_url code : String) (c : Client) {token : String} {c' : Client}
    → poll_token net server_url code c ≡ (ok (done token), c')
    → Carries net server_url code (length c.posted) token
unfolding poll_token post decode poll_result pure fail Carries ◌>>=◌
poll_token-Carries net server_url code c e =
    elim (Outcome-cases (
      net.token_reply (length c.posted) (server_url <> "/device/token") (token_request_for code))) [
        | inr (why, q) ↦ absurd (ground arith)
        | inl (reply, q) ↦ elim (decoded_or_not reply.body) [
          | inr unread ↦ absurd (ground (arith, unread))
          | inl (r, read) ↦ (reply, r, q, read, ground (arith, ==_iff r.error ""), ground arith)
        ]
      ]

Bool-elim :
    {C : Type 0} (P : C → Type 0) (x y : C) (b : Bool)
    → (b ≡ false → P x)
    → (b ≡ true → P y)
    → P (elim b [ false ↦ x | true ↦ y ])
Bool-elim P x y false px py = px refl
Bool-elim P x y true px py = py refl

-- The loop has come to an end, after `k` requests or fewer.
abbrev pub Ended : {A : Type 0} → Client → ℕ → Outcome Stop A × Client → Type 0
Ended c k r = (r.0 ≢ err running) × (length r.1.posted ≤ length c.posted + k)

abbrev stopped : Outcome Stop String → Outcome Stop Poll
stopped (ok a) = ok pending
stopped (err e) = err e

module _ (net : Network) (server_url : String) (dc : DeviceCodeResponse) (deadline : ℕ) where
  -- A round sleeps, and then polls.
  round-IsPolled :
      (c : Client)
      → IsPolled server_url dc.device_code (slept dc.interval c) (round net server_url dc c)
  unfolding round sleep ◌>>=◌
  round-IsPolled c = poll_token-IsPolled net server_url dc.device_code (slept dc.interval c)

  round-Carries :
      (c : Client) {t : String} {c' : Client}
      → round net server_url dc c ≡ (ok (done t), c')
      → Carries net server_url dc.device_code (length c.posted) t
  unfolding round sleep ◌>>=◌
  round-Carries c e = poll_token-Carries net server_url dc.device_code (slept dc.interval c) e

  after_round-Ended :
      (step : ℕ) (loop : Run String) (fuel k : ℕ) (c : Client) (r : Outcome Stop Poll × Client)
      → nanoseconds dc.interval ≡ step
      → deadline ≤ c.now + k * step
      → k < suc fuel
      → ltb c.now deadline ≡ true
      → IsPolled server_url dc.device_code (slept dc.interval c) r
      → ((k : ℕ) (c' : Client) → deadline ≤ c'.now + k * step → k < fuel → Ended c' k (loop c'))
      → Ended c k (then_run (after_round loop) r)
  after_round-Ended step loop fuel zero c r is h f early p rest =
      absurd (grind (arith, (ltb_iff c.now deadline).0 early))
  after_round-Ended step loop fuel (suc k) c (err why, c') is h f early p rest =
      (λ e. p.ends (ap stopped e), ground arith)
  after_round-Ended step loop fuel (suc k) c (ok (done token), c') is h f early p rest =
      (λ e. cc, ground arith)
  after_round-Ended step loop fuel (suc k) c (ok pending, c') is h f early p rest =
      let later = rest k c' (omega (arith, suc-mul k step, is, p.later)) (omega arith) in
      (later.0, omega (arith, later.1, p.one_more))

  -- `k` rounds reach the deadline, and one more sees that it has passed.
  pub poll_loop-Ended :
      (step : ℕ)
      → nanoseconds dc.interval ≡ step
      → (fuel k : ℕ) (c : Client) → deadline ≤ c.now + k * step
      → k < fuel
      → Ended c k (poll_loop net server_url dc deadline fuel c)
  unfolding poll_loop
  poll_loop-Ended step is zero k c h f = absurd (omega arith)
  poll_loop-Ended step is (suc fuel) k c h f =
      Bool-elim (Ended c k) _ _ (ltb c.now deadline) (λ over. (λ e. cc, omega arith))
        (λ early.
          after_round-Ended step (poll_loop net server_url dc deadline fuel) fuel k c
            (round net server_url dc c) is h f early (round-IsPolled c)
            (poll_loop-Ended step is fuel))

  -- The token is that of an answer, or "".
  abbrev pub FromAnswer : String → Type 0
  FromAnswer token = (token ≡ "") ⊎ ((n : ℕ) × Carries net server_url dc.device_code n token)

  after_round-FromAnswer :
      (loop : Run String) (c : Client) (r : Outcome Stop Poll × Client) {token : String}
      {c' : Client}
      → ((c1 : Client) → loop c1 ≡ (ok token, c') → FromAnswer token)
      → ((t : String) (c1 : Client)
          → r ≡ (ok (done t), c1)
          → Carries net server_url dc.device_code (length c.posted) t)
      → then_run (after_round loop) r ≡ (ok token, c')
      → FromAnswer token
  after_round-FromAnswer loop c (err why, c1) rest last e = absurd (ground (arith, ap (λ r. r.0) e))
  after_round-FromAnswer loop c (ok pending, c1) rest last e = rest c1 e
  after_round-FromAnswer loop c (ok (done t), c1) rest last e =
      let same = ap (λ r. elim r.0 [ ok a ↦ a | err _ ↦ t ]) e in
      inr (
        length c.posted,
        subst (Carries net server_url dc.device_code (length c.posted)) same (last t c1 refl),
      )

  pub poll_loop-FromAnswer :
      (fuel : ℕ) (c : Client) {token : String} {c' : Client}
      → poll_loop net server_url dc deadline fuel c ≡ (ok token, c')
      → FromAnswer token
  unfolding poll_loop
  poll_loop-FromAnswer zero c e = absurd (ground (arith, ap (λ r. r.0) e))
  poll_loop-FromAnswer (suc fuel) c {token = token} {c' = c'} e =
      Bool-elim (λ r. r ≡ (ok token, c') → FromAnswer token) _ _ (ltb c.now deadline)
        (λ over q. inl (sym (ap (λ r. elim r.0 [ ok a ↦ a | err _ ↦ "" ]) q)))
        (λ early.
          after_round-FromAnswer (poll_loop net server_url dc deadline fuel) c
            (round net server_url dc c) (λ c1 q. poll_loop-FromAnswer fuel c1 q)
            (λ t c1 q. round-Carries c q))
        e
