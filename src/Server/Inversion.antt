-- ===== src/Server/Inversion.antt =====
-- How a handler that has answered with a given status has got there: past each test whose refusal has
-- another status.
use wgxdp.Base.{ℕ, ◌≡◌, ◌≢◌, refl, ap, ◌∙◌, String, Bool, true, false, Option, none, some}
use wgxdp.World.{Env, World}
use wgxdp.Act.{Act, Outcome, ok, err, ◌>>=◌, guard, fail, pure, on_error, recover, continue}
use wgxdp.Config.{Config}
use wgxdp.Server.{
  Server, Body, empty, malformed, decoded, Response, panics, settled, handler, or_respond,
}
use wgxdp.Server.DeviceFlow.{unmarshal, config_of}

abbrev pub responded : Outcome Response Response → Response
responded (ok r) = r
responded (err r) = r

abbrev pub status_of : Outcome Response Response → ℕ
status_of o = (responded o).status

outcome_of :
    (x : Outcome Response Response × World) {r : Response} {v : World}
    → settled x ≡ (r, v)
    → (o : Outcome Response Response) × (x ≡ (o, v)) × (responded o ≡ r)
outcome_of (ok r, v) e = (ok r, ap (λ z. (ok r, z.1)) e, ap (λ z. z.0) e)
outcome_of (err r, v) e = (err r, ap (λ z. (err r, z.1)) e, ap (λ z. z.0) e)

pub handler_outcome :
    (m : Act Response Response) (env : Env) (w : World) {r : Response} {v : World}
    → handler m env w ≡ (r, v)
    → (o : Outcome Response Response) × (m env w ≡ (o, v)) × (responded o ≡ r)
unfolding handler
handler_outcome m env w e = outcome_of (m env w) e

abbrev config_at : Option Config → Act Response Config
config_at c = elim c [ none ↦ fail panics | some config ↦ pure config ]

module _ {A : Type 0} (n : ℕ) (env : Env) (w : World) {o : Outcome Response Response}
    {v : World} where
  pub past_call :
      (m : Act String A) (h : String → Response) (f : A → Act Response Response)
      → (or_respond m h >>= f) env w ≡ (o, v)
      → ((e : String) → (h e).status ≢ n)
      → status_of o ≡ n
      → (a : A) × (u : World) × (m env w ≡ (ok a, u)) × (f a env u ≡ (o, v))
  unfolding on_error fail ◌>>=◌
  past_call m h f e differs st = at (m env w) refl e
    where
      at :
          (x : Outcome String A × World)
          → m env w ≡ x
          → continue f env (recover (λ e. fail (h e)) env x) ≡ (o, v)
          → (a : A) × (u : World) × (m env w ≡ (ok a, u)) × (f a env u ≡ (o, v))
      at (ok a, u) q c = (a, u, q, c)
      at (err e, u) q c = absurd (differs e (ap (λ z. status_of z.0) c ∙ st))

module _ (n : ℕ) (env : Env) (w : World) where
  pub past_guard :
      (b : Bool) (r : Response) (f : Unit {0} → Act Response Response)
      {o : Outcome Response Response} {v : World}
      → (guard b r >>= f) env w ≡ (o, v)
      → r.status ≢ n
      → status_of o ≡ n
      → (b ≡ true) × (f tt env w ≡ (o, v))
  unfolding guard fail ◌>>=◌
  past_guard true r f e differs st = (refl, e)
  past_guard false r f e differs st = absurd (differs (ap (λ z. status_of z.0) e ∙ st))

  pub past_unmarshal :
      {B : Type 0} (status : ℕ) (message : String) (b : Body B) (f : B → Act Response Response)
      {o : Outcome Response Response} {v : World}
      → (unmarshal status message b >>= f) env w ≡ (o, v)
      → status ≢ n
      → 400 ≢ n
      → status_of o ≡ n
      → (value : B) × (b ≡ decoded value) × (f value env w ≡ (o, v))
  unfolding unmarshal fail ◌>>=◌
  past_unmarshal status message empty f e differs other st =
      absurd (other (ap (λ z. status_of z.0) e ∙ st))
  past_unmarshal status message malformed f e differs other st =
      absurd (differs (ap (λ z. status_of z.0) e ∙ st))
  past_unmarshal status message (decoded value) f e differs other st = (value, refl, e)

  pub past_config :
      (s : Server) (f : Config → Act Response Response) {o : Outcome Response Response} {v : World}
      → (config_of s >>= f) env w ≡ (o, v)
      → 0 ≢ n
      → status_of o ≡ n
      → (config : Config) × (s.config ≡ some config) × (f config env w ≡ (o, v))
  unfolding config_of fail ◌>>=◌
  past_config s f {o = o} {v = v} e differs st = at s.config refl e
    where
      at :
          (c : Option Config)
          → s.config ≡ c
          → continue f env (config_at c env w) ≡ (o, v)
          → (config : Config) × (s.config ≡ some config) × (f config env w ≡ (o, v))
      at none q e = absurd (differs (ap (λ z. status_of z.0) e ∙ st))
      at (some c) q e = (c, q, e)
