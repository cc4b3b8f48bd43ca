-- ===== src/Server/Tokens.antt =====
-- When the token endpoint of internal/handlers_device.go gives a token away.
use wgxdp.Base.{
  ℕ, suc, ◌≤◌, ◌≡◌, refl, sym, ap, ◌∙◌, subst, String, Bool, true, false, Option, none, some, ◌==◌,
  ==_iff, string_eq, ltb, if◌then◌else◌, arith,
}
use wgxdp.World.{Env, World}
use wgxdp.Act.{Outcome, pure, ok, err, ◌>>=◌, fail}
use wgxdp.Sql.{sql, check, checked, apply}
use wgxdp.Database.{DeviceCode}
use wgxdp.Database.Codes.{find_code, get_device_code_by_device_code}
use wgxdp.Server.{Server, Request, decoded, Response, respond, access_token, token_error, handler}
use wgxdp.Server.Inversion.{
  responded, status_of, handler_outcome, past_guard, past_call, past_unmarshal,
}
use wgxdp.Server.DeviceFlow.{
  DeviceTokenRequest, device_token_handler, live_code, token_answer, unmarshal,
}

-- The answer to a poll, by the row of the device code and the clock.
abbrev pub poll_answer : Option DeviceCode → ℕ → Response
poll_answer none now = respond 410 (token_error "expired_token")
poll_answer (some dc) now =
    if ltb dc.expires_at now then respond 410 (token_error "expired_token") else token_answer dc

-- A poll with a device code that SQLite answers changes no table and no entry of the map, and its answer
-- depends on the code's row and on the clock alone.
pub device_token_handler_lem :
    (s : Server) (req : Request DeviceTokenRequest) (dtr : DeviceTokenRequest) (env : Env)
    (w : World)
    → (req.method == "POST") ≡ true
    → req.body ≡ decoded dtr
    → env.sql_error w.tick ≡ none
    → ((device_token_handler s req env w).0
        ≡ poll_answer
            (find_code (λ c. c.device_code == dtr.device_code) w.db.device_codes.rows)
            (env.now (suc w.tick)))
      × ((device_token_handler s req env w).1.db ≡ w.db)
      × ((device_token_handler s req env w).1.peer_rules ≡ w.peer_rules)
unfolding device_token_handler handler unmarshal live_code token_answer
    get_device_code_by_device_code sql check checked apply ◌>>=◌
device_token_handler_lem s req dtr env w post body answers = ground arith

looked_up :
    (code : String) (env : Env) (w : World) {found : Option DeviceCode} {u : World}
    → get_device_code_by_device_code code env w ≡ (ok found, u)
    → (found ≡ find_code (λ c. c.device_code == code) w.db.device_codes.rows)
      × (u.tick ≡ suc w.tick)
unfolding get_device_code_by_device_code sql check checked apply ◌>>=◌
looked_up code env w e = ground arith

abbrev pub IsApproved : Option DeviceCode → ℕ → Response → Type 0
IsApproved found now r =
    (dc : DeviceCode) × (found ≡ some dc)
    × (dc.status ≡ "approved")
    × (now ≤ dc.expires_at)
    × (r ≡ respond 200 (access_token dc.access_token "Bearer"))

-- The answer, once the clock is read.
answered_by :
    (late : Bool) (dc : DeviceCode) (env : Env) (w : World) {o : Outcome Response Response}
    {v : World}
    → ((if late then fail (respond 410 (token_error "expired_token")) else pure dc) >>= λ d.
          pure (token_answer d))
        env w
      ≡ (o, v)
    → status_of o ≡ 200
    → (late ≡ false)
      × (dc.status ≡ "approved")
      × (responded o ≡ respond 200 (access_token dc.access_token "Bearer"))
unfolding token_answer ◌>>=◌
answered_by true dc env w e st = absurd (ground (arith, ap (λ z. status_of z.0) e))
answered_by false dc env w {o = ok r} e st = ground (arith, ==_iff dc.status "approved")
answered_by false dc env w {o = err r} e st = absurd (ground arith)

answered_live :
    (found : Option DeviceCode) (env : Env) (w : World) {o : Outcome Response Response} {v : World}
    → (live_code (respond 410 (token_error "expired_token")) found >>= λ dc. pure (token_answer dc))
        env w
      ≡ (o, v)
    → status_of o ≡ 200
    → IsApproved found (env.now w.tick) (responded o)
unfolding live_code ◌>>=◌
answered_live none env w e st = absurd (ground arith)
answered_live (some dc) env w e st =
    let (live, approved, answer) =
      answered_by (ltb dc.expires_at (env.now w.tick)) dc env (record w { tick = suc w.tick }) e
        st in
    (dc, refl, approved, ground arith, answer)

decoded-injective : {B : Type 0} {a b : B} → decoded a ≡ decoded b → a ≡ b
decoded-injective {B = B} {a = a} e = ap (λ z. elim z as (λ _. B) [ decoded v ↦ v | _ ↦ a ]) e

-- Whatever happens, a poll that answers 200 gives the token of the code's row, which is approved and
-- has not expired.
pub device_token_handler-IsApproved :
    (s : Server) (req : Request DeviceTokenRequest) (dtr : DeviceTokenRequest) (env : Env)
    (w : World) {r : Response} {w' : World}
    → req.body ≡ decoded dtr
    → device_token_handler s req env w ≡ (r, w')
    → r.status ≡ 200
    → IsApproved
        (find_code (λ c. c.device_code == dtr.device_code) w.db.device_codes.rows)
        (env.now (suc w.tick))
        r
unfolding device_token_handler
device_token_handler-IsApproved s req dtr env w {r = r} body e st =
    let (o, x, same) = handler_outcome _ env w e in
    let st' = ap (λ z. z.status) same ∙ st in
    let (m1, x1) = past_guard 200 env w _ _ _ x (omega arith) st' in
    let (d, is, x2) = past_unmarshal 200 env w _ _ _ _ x1 (omega arith) (omega arith) st' in
    let (found, u, q, x3) = past_call 200 env w _ _ _ x2 (λ why. omega arith) st' in
    let looked = looked_up d.device_code env w q in
    let (dc, there, approved, live, answer) = answered_live found env u x3 st' in
    (
      dc,
      ap (λ z. find_code (λ c. c.device_code == z.device_code) w.db.device_codes.rows)
            (decoded-injective (sym body ∙ is))
          ∙ (sym looked.0 ∙ there),
      approved,
      subst (λ t. env.now t ≤ dc.expires_at) looked.1 live,
      sym same ∙ answer,
    )
