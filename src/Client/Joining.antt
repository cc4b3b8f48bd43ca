-- ===== src/Client/Joining.antt =====
-- What the configuration that `runJoin` gives comes from.
use wgxdp.Base.{
  ℕ, ◌≡◌, ◌≢◌, ◌⊎◌, refl, ap, sym, ◌∙◌, String, ◌<>◌, Bool, true, false, some, List, length, ==_iff,
  string_eq, nat_eq, arith, inl, inr,
}
use wgxdp.Act.{Outcome, ok, err}
use wgxdp.Server.{decoded}
use wgxdp.Client.{
  Network, Client, Reply, DeviceCodeResponse, JoinResponse, Stop, Run, then_run, ◌>>=◌, pure,
  require,
}
use wgxdp.Client.Poll.{deadline_of}
use wgxdp.Client.Join.{generated, clock, run_join, wg_config}
use wgxdp.Client.Polling.{Carries, poll_loop-FromAnswer}
use wgxdp.Client.Ending.{request_code-decoded, request_join-decoded}

-- How a chain has ended.
bind-cases :
    {A B : Type 0} (m : Run A) (f : A → Run B) (c : Client) {o : Outcome Stop B} {c' : Client}
    → (m >>= f) c ≡ (o, c')
    → ((a : A) × (v : Client) × (m c ≡ (ok a, v)) × (f a v ≡ (o, c')))
      ⊎ ((e : Stop) × (m c ≡ (err e, c')) × (o ≡ err e))
unfolding ◌>>=◌
bind-cases {A = A} {B = B} m f c {o = o} {c' = c'} e = at (m c) refl e
  where
    at :
        (x : Outcome Stop A × Client)
        → m c ≡ x
        → then_run f x ≡ (o, c')
        → ((a : A) × (v : Client) × (m c ≡ (ok a, v)) × (f a v ≡ (o, c')))
          ⊎ ((e : Stop) × (m c ≡ (err e, c')) × (o ≡ err e))
    at (ok a, v) q r = inl (a, v, q, r)
    at (err e, v) q r = inr (e, q ∙ ap (λ z. (err e, z)) (ap (λ z. z.1) r), sym (ap (λ z. z.0) r))

-- What a configuration comes from: the key that was generated, an answer with a token, and the answer to
-- the join with that token and that key.
pub record IsJoined (net : Network) (server_url name config : String) : Type 0 where
  pub private_key : List ℕ
  pub token : String
  pub dc : DeviceCodeResponse
  pub offer : Reply DeviceCodeResponse
  pub join_answer : JoinResponse
  pub reply : Reply JoinResponse
  pub first : ℕ
  pub poll : ℕ
  pub last : ℕ
  pub drawn : net.generated_key ≡ some private_key
  pub offered : net.code_reply first (server_url <> "/device/code") ≡ ok offer
  pub code_read : offer.body ≡ decoded dc
  pub carried : Carries net server_url dc.device_code poll token
  pub given : token ≢ ""
  pub joined :
      net.join_reply last (server_url <> "/join") (record {
        access_token = token;
        public_key = net.show_key (net.public_of private_key);
        name = name;
      })
      ≡ ok reply
  pub accepted : reply.status ≡ 200
  pub decodes : reply.body ≡ decoded join_answer
  pub spelled : config ≡ wg_config (net.show_key private_key) join_answer

require-true :
    (b : Bool) (e : String) (c : Client) {c' : Client} → require b e c ≡ (ok tt, c') → b ≡ true
unfolding require
require-true true e c q = refl
require-true false e c q = absurd (ground (arith, ap (λ r. r.0) q))

generated-some :
    (net : Network) (c : Client) {key : List ℕ} {c' : Client}
    → generated net c ≡ (ok key, c')
    → net.generated_key ≡ some key
unfolding generated
generated-some net c e = ground arith

-- A configuration that `runJoin` gives is that of the answer to a join under a key that was generated,
-- with a token, not empty, that an answer to a poll had carried without an error.
pub run_join-IsJoined :
    (net : Network) (fuel : ℕ) (server_url name : String) (c : Client) {config : String}
    {c' : Client}
    → run_join net fuel server_url name c ≡ (ok config, c')
    → IsJoined net server_url name config
unfolding run_join pure clock
run_join-IsJoined net fuel server_url name c {config = config} e = elim (bind-cases _ _ c e) [
  | inr (why, _, bad) ↦ absurd (cc)
  | inl (key, c1, made, e1) ↦ elim (bind-cases _ _ c1 e1) [
    | inr (why, _, bad) ↦ absurd (cc)
    | inl (dc, c2, asked, e2) ↦ elim (bind-cases _ _ c2 e2) [
      | inr (why, _, bad) ↦ absurd (cc)
      | inl (now, c3, _, e3) ↦ elim (bind-cases _ _ c3 e3) [
        | inr (why, _, bad) ↦ absurd (cc)
        | inl (token, c4, polled, e4) ↦ elim (bind-cases _ _ c4 e4) [
          | inr (why, _, bad) ↦ absurd (cc)
          | inl (_, c5, passed, e5) ↦ elim (bind-cases _ _ c5 e5) [
            | inr (why, _, bad) ↦ absurd (cc)
            | inl (answer, c6, joined, e6) ↦
                let (offer, offered, _, code_read) = request_code-decoded net server_url c1 asked in
                let given = require-true _ _ c4 passed in
                let (reply, got, accepted, read) =
                  request_join-decoded net server_url c5 _ joined in
                elim (poll_loop-FromAnswer net server_url dc (deadline_of dc.expires_in now) fuel c3
                  polled) [
                    | inl vacant ↦ absurd (ground (arith, ==_iff token ""))
                    | inr (n, carries) ↦ record {
                      private_key = key;
                      token = token;
                      dc = dc;
                      offer = offer;
                      first = length c1.posted;
                      join_answer = answer;
                      reply = reply;
                      poll = n;
                      last = length c5.posted;
                      drawn = generated-some net c made;
                      offered = offered;
                      code_read = code_read;
                      carried = carries;
                      given = λ vacant. ground (arith, ==_iff token "");
                      joined = got;
                      accepted = accepted;
                      decodes = read;
                      spelled = sym (ap (λ r. elim r.0 [ ok a ↦ a | err _ ↦ config ]) e6);
                    }
                  ]
          ]
        ]
      ]
    ]
  ]
]
