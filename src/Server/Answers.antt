-- ===== src/Server/Answers.antt =====
-- The answers of the token endpoint of internal/handlers_device.go, by the states of a device code.
use wgxdp.Base.{
  ℕ, suc, ◌≤◌, ◌<◌, ◌≡◌, refl, sym, subst, String, Bool, true, false, Option, none, some, ◌==◌,
  List, [], ◌∷◌, any, All, string_eq, ltb, arith, inl, inr, Bool-cases,
}
use wgxdp.World.{Env, World, DeviceCodeRow}
use wgxdp.Sql.{query_row}
use wgxdp.Database.{DeviceCode}
use wgxdp.Database.Codes.{device_code_of}
use wgxdp.Database.Integrity.{IsSound, IsCoherent}
use wgxdp.Server.{Server, Request, decoded, Response, respond, access_token, token_error}
use wgxdp.Server.DeviceFlow.{DeviceTokenRequest, device_token_handler, token_answer}
use wgxdp.Server.Tokens.{poll_answer, device_token_handler_lem}

-- The answers to a poll with a code, by the rows and the clock: each answer for one state of the row.
pub data Polled (code : String) (now : ℕ) (rows : List DeviceCodeRow) (r : Response) : Type 0 where
  unknown :
      any (λ c. c.device_code == code) rows ≡ false
      → r ≡ respond 410 (token_error "expired_token")
      → Polled code now rows r
  expired :
      (c : DeviceCodeRow)
      → query_row (λ c. c.device_code == code) rows ≡ some c
      → c.expires_at < now
      → r ≡ respond 410 (token_error "expired_token")
      → Polled code now rows r
  undecided :
      (c : DeviceCodeRow)
      → query_row (λ c. c.device_code == code) rows ≡ some c
      → now ≤ c.expires_at
      → c.status ≡ "pending"
      → r ≡ respond 429 (token_error "authorization_pending")
      → Polled code now rows r
  refused :
      (c : DeviceCodeRow)
      → query_row (λ c. c.device_code == code) rows ≡ some c
      → now ≤ c.expires_at
      → c.status ≡ "denied"
      → r ≡ respond 403 (token_error "access_denied")
      → Polled code now rows r
  granted :
      (c : DeviceCodeRow) (token : String)
      → query_row (λ c. c.device_code == code) rows ≡ some c
      → now ≤ c.expires_at
      → c.status ≡ "approved"
      → c.access_token ≡ some token
      → r ≡ respond 200 (access_token token "Bearer")
      → Polled code now rows r

query_row-any :
    {R : Type 0} (p : R → Bool) (rows : List R) → query_row p rows ≡ none → any p rows ≡ false
query_row-any p [] e = refl
query_row-any p (r ∷ rs) e = ground (arith, query_row-any p rs)

query_row-All :
    {R : Type 0} (P : R → Type 0) (p : R → Bool) (rows : List R) {r : R}
    → All P rows
    → query_row p rows ≡ some r
    → P r
query_row-All P p [] all e = cc
query_row-All P p (r ∷ rs) all e = elim (Bool-cases (p r)) [
  | inl hit ↦ subst P (ground arith) all.0
  | inr miss ↦ query_row-All P p rs all.1 (ground arith)
]

abbrev found_of : Option DeviceCodeRow → Option DeviceCode
found_of o = elim o [ none ↦ none | some c ↦ some (device_code_of c) ]

module _ (code : String) (now : ℕ) (rows : List DeviceCodeRow) where
  live-Polled :
      (c : DeviceCodeRow)
      → query_row (λ c. c.device_code == code) rows ≡ some c
      → now ≤ c.expires_at
      → IsCoherent c
      → Polled code now rows (token_answer (device_code_of c))
  unfolding token_answer
  live-Polled c row live (inl (status, token)) = undecided c row live status (rw status refl)
  live-Polled c row live (inr (inl (status, token))) = refused c row live status (rw status refl)
  live-Polled c row live (inr (inr (t, status, token))) =
      granted c t row live status token (rw (status, token) refl)

  poll_answer-Polled :
      (o : Option DeviceCodeRow)
      → query_row (λ c. c.device_code == code) rows ≡ o
      → All IsCoherent rows
      → Polled code now rows (poll_answer (found_of o) now)
  poll_answer-Polled none row coherent =
      unknown (query_row-any (λ c. c.device_code == code) rows row) refl
  poll_answer-Polled (some c) row coherent = elim (Bool-cases (ltb c.expires_at now)) [
    | inl late ↦ expired c row (ground arith) (rw late refl)
    | inr live ↦ rw live (
        live-Polled c row (ground arith)
          (query_row-All IsCoherent (λ c. c.device_code == code) rows coherent row))
  ]

-- On sound tables, a poll with a decoded device code that SQLite answers is answered by the row of the
-- code: 410 for no row or an expired one, 429 for a pending one, 403 for a denied one, and 200 with its
-- token for an approved one. It never is the error for an unknown status, and it changes neither the
-- tables nor the map.
pub device_token_handler-Polled :
    (s : Server) (req : Request DeviceTokenRequest) (dtr : DeviceTokenRequest) (env : Env)
    (w : World)
    → (req.method == "POST") ≡ true
    → req.body ≡ decoded dtr
    → env.sql_error w.tick ≡ none
    → IsSound w.db
    → Polled dtr.device_code
        (env.now (suc w.tick))
        w.db.device_codes.rows
        (device_token_handler s req env w).0
      × ((device_token_handler s req env w).1.db ≡ w.db)
      × ((device_token_handler s req env w).1.peer_rules ≡ w.peer_rules)
device_token_handler-Polled s req dtr env w post body answers sound =
    let (answer, db, rules) = device_token_handler_lem s req dtr env w post body answers in
    (
      subst (Polled dtr.device_code (env.now (suc w.tick)) w.db.device_codes.rows) (sym answer) (
          poll_answer-Polled dtr.device_code (env.now (suc w.tick)) w.db.device_codes.rows _ refl
            sound.coherent),
      db,
      rules,
    )
