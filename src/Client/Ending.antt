-- ===== src/Client/Ending.antt =====
-- The whole of `runJoin` ends.
use wgxdp.Base.{
  ℕ, ◌+◌, ◌*◌, ◌≤◌, ◌<◌, ◌≡◌, refl, ap, String, ◌<>◌, Bool, true, false, length, ◌==◌, not, ==_iff,
  string_eq, nat_eq, arith, inl, inr,
}
use wgxdp.Base.Int.{ℤ, pos, negsuc}
use wgxdp.Act.{Outcome, ok, err, Outcome-cases}
use wgxdp.Server.{decoded}
use wgxdp.Server.Peers.{JoinRequest}
use wgxdp.Client.{
  Network, Client, Reply, DeviceCodeResponse, JoinResponse, Stop, failure, Run, then_run, ◌>>=◌,
  pure, post, decode, require,
}
use wgxdp.Client.Poll.{poll_loop, nanoseconds, deadline_of}
use wgxdp.Client.Join.{request_code, request_join, generated, clock, run_join}
use wgxdp.Client.Polling.{Ended, poll_loop-Ended}

-- The codes that the server hands out expire within `k` intervals.
unfoldable pub Expires : Network → ℕ → Type 0
Expires net k =
    (n : ℕ) (url : String) (reply : Reply DeviceCodeResponse) (dc : DeviceCodeResponse)
    → net.code_reply n url ≡ ok reply
    → reply.status ≡ 200
    → reply.body ≡ decoded dc
    → nanoseconds dc.expires_in ≤ k * nanoseconds dc.interval

deadline_of-le : (z : ℤ) (now : ℕ) → deadline_of z now ≤ now + nanoseconds z
deadline_of-le (pos n) now = omega arith
deadline_of-le (negsuc n) now = omega arith

abbrev reason : {A : Type 0} → Outcome Stop A → Stop
reason (ok a) = failure ""
reason (err e) = e

then_run-Ended :
    {A B : Type 0} (f : A → Run B) (c : Client) (k j : ℕ) (r : Outcome Stop A × Client)
    → Ended c k r
    → ((a : A) (c1 : Client) → r ≡ (ok a, c1) → Ended c1 j (f a c1))
    → Ended c (k + j) (then_run f r)
then_run-Ended f c k j (err e, c1) h rest = ((λ q. h.0 (ap err (ap reason q))), omega (arith, h.1))
then_run-Ended f c k j (ok a, c1) h rest =
    let later = rest a c1 refl in (later.0, omega (arith, h.1, later.1))

require-Ended : (b : Bool) (e : String) (c : Client) → Ended c 0 (require b e c)
unfolding require
require-Ended true e c = (λ q. cc, omega arith)
require-Ended false e c = (λ q. cc, omega arith)

module _ (net : Network) (server_url : String) (c : Client) where
  generated-Ended : Ended c 0 (generated net c)
  unfolding generated
  generated-Ended = (ground arith, ground arith)

  request_code-Ended : Ended c 1 (request_code net server_url c)
  unfolding request_code post require decode ◌>>=◌
  request_code-Ended = (ground arith, ground arith)

  pub request_code-decoded :
      {dc : DeviceCodeResponse} {c' : Client}
      → request_code net server_url c ≡ (ok dc, c')
      → (reply : Reply DeviceCodeResponse) × (net.code_reply
            (length c.posted)
            (server_url <> "/device/code")
          ≡ ok reply)
        × (reply.status ≡ 200)
        × (reply.body ≡ decoded dc)
  unfolding request_code post require decode ◌>>=◌
  request_code-decoded e =
      elim (Outcome-cases (net.code_reply (length c.posted) (server_url <> "/device/code"))) [
        | inr (why, q) ↦ absurd (ground arith)
        | inl (reply, q) ↦ (reply, q, ground (arith, ==_iff reply.status 200), ground arith)
      ]

  request_join-Ended : (jr : JoinRequest) → Ended c 1 (request_join net server_url jr c)
  unfolding request_join post require decode ◌>>=◌
  request_join-Ended jr = (ground arith, ground arith)

  pub request_join-decoded :
      (jr : JoinRequest) {r : JoinResponse} {c' : Client}
      → request_join net server_url jr c ≡ (ok r, c')
      → (reply : Reply JoinResponse) × (net.join_reply (length c.posted) (server_url <> "/join") jr
          ≡ ok reply)
        × (reply.status ≡ 200)
        × (reply.body ≡ decoded r)
  unfolding request_join post require decode ◌>>=◌
  request_join-decoded jr e =
      elim (Outcome-cases (net.join_reply (length c.posted) (server_url <> "/join") jr)) [
        | inr (why, q) ↦ absurd (ground arith)
        | inl (reply, q) ↦ (reply, q, ground (arith, ==_iff reply.status 200), ground arith)
      ]

Ended-le :
    {A : Type 0} (c : Client) (k j : ℕ) (r : Outcome Stop A × Client)
    → k ≤ j
    → Ended c k r
    → Ended c j r
Ended-le c k j r h e = (e.0, omega (arith, e.1))

-- When the server's codes expire within `k` intervals, a run of more than `k` rounds of polling comes to
-- an end, and posts `k + 2` requests at most.
pub run_join-Ended :
    (net : Network) (fuel k : ℕ) (server_url name : String) (c : Client)
    → Expires net k
    → k < fuel
    → Ended c (k + 2) (run_join net fuel server_url name c)
unfolding run_join clock pure Expires ◌>>=◌
run_join-Ended net fuel k server_url name c expires enough =
    Ended-le c (0 + (1 + (k + (0 + (1 + 0))))) (k + 2) (run_join net fuel server_url name c)
      (omega arith)
      (then_run-Ended _ c 0 (1 + (k + (0 + (1 + 0)))) (generated net c)
        (generated-Ended net server_url c)
        (λ key c1 made.
          then_run-Ended _ c1 1 (k + (0 + (1 + 0))) (request_code net server_url c1)
            (request_code-Ended net server_url c1)
            (λ dc c2 asked.
              let (reply, got, good, read) = request_code-decoded net server_url c1 asked in
              then_run-Ended _ c2 k (0 + (1 + 0))
                (poll_loop net server_url dc (deadline_of dc.expires_in c2.now) fuel c2)
                (poll_loop-Ended net server_url dc (deadline_of dc.expires_in c2.now)
                  (nanoseconds dc.interval) refl fuel k c2
                  (omega (
                    arith,
                    deadline_of-le dc.expires_in c2.now,
                    expires (length c1.posted) (server_url <> "/device/code") reply dc got good
                        read,
                  ))
                  enough)
                (λ token c3 polled.
                  then_run-Ended _ c3 0 (1 + 0)
                    (require (not (token == "")) "authorization timed out" c3)
                    (require-Ended (not (token == "")) "authorization timed out" c3)
                    (λ _ c4 passed.
                      let jr : JoinRequest = record {
                        access_token = token;
                        public_key = net.show_key (net.public_of key);
                        name = name;
                      } in
                      then_run-Ended _ c4 1 0 (request_join net server_url jr c4)
                        (request_join-Ended net server_url c4 jr)
                        (λ jr c5 joined. ((λ q. cc), omega arith)))))))
