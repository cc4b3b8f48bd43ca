-- ===== src/Server/Peers/Joining.antt =====
-- What `JoinHandler` of internal/handlers_peers.go has done when it answers 200.
use wgxdp.Base.{
  ℕ, ◌≡◌, inl, inr, refl, sym, ap, ◌∙◌, String, ◌<>◌, true, false, some, ◌==◌, string_eq, nat_eq,
  arith, any,
}
use wgxdp.World.{Env, World, Db, PeerRow}
use wgxdp.Act.{bind-cases, Act, Outcome, ok, err, ◌>>=◌}
use wgxdp.Act.Keeps.{Invariant, Keeps, keeps_rules}
use wgxdp.Sql.{sql, insert, check, checked, apply}
use wgxdp.Config.{Config}
use wgxdp.Database.Tokens.{Consumed, consume_access_token-Consumed}
use wgxdp.Database.Alloc.{next_available_ip}
use wgxdp.Database.Reads.{next_available_ip-Keeps}
use wgxdp.Database.Peers.{peer_row, add_peer}
use wgxdp.Wireguard
use wgxdp.Wireguard.{DeviceAttrs}
use wgxdp.Wireguard.Peers.{add_peer-Keeps}
use wgxdp.Server.{http_error, Server, Request, decoded, Response, respond, or_respond, joined}
use wgxdp.Server.Keeps.{with_device-Keeps}
use wgxdp.Server.Inversion.{
  responded, status_of, handler_outcome, past_call, past_guard, past_unmarshal, past_config,
}
use wgxdp.Server.Peers.{
  JoinRequest, join_handler, admit_peer, peer_name_or, server_key, joined_response, with_device,
}

abbrev pub with_peer : (ℕ → PeerRow) → Db → Db
with_peer row db = record db { peers = insert row db.peers }

-- A peer that has been admitted: the address is what the allocation returned, no row had its name or
-- its address, and its row is added.
pub record Admitted (config : Config) (jr : JoinRequest) (env : Env) (w w' : World) (ip : String)
    : Type 0 where
  pub allocated : (next_available_ip config.wg_subnet env w).0 ≡ ok ip
  pub new_name : any (λ p. p.name == peer_name_or jr.name ip) w.db.peers.rows ≡ false
  pub new_ip : any (λ p. p.assigned_ip == ip) w.db.peers.rows ≡ false
  pub now : ℕ
  pub db_is : w'.db ≡ with_peer (peer_row (peer_name_or jr.name ip) jr.public_key ip now) w.db

added :
    (name key ip : String) (env : Env) (w : World) {u : World}
    → add_peer name key ip env w ≡ (ok tt, u)
    → (any (λ p. p.name == name) w.db.peers.rows ≡ false)
      × (any (λ p. p.assigned_ip == ip) w.db.peers.rows ≡ false)
      × (u.db ≡ with_peer (peer_row name key ip (env.now w.tick)) w.db)
unfolding add_peer sql check checked apply ◌>>=◌
added name key ip env w e = ground arith

allocation-db :
    (cidr : String) (env : Env) (w : World) {o : Outcome String String} {u : World}
    → next_available_ip cidr env w ≡ (o, u)
    → u.db ≡ w.db
allocation-db cidr env w e =
    sym (ap (λ z. z.1.db) e) ∙ (next_available_ip-Keeps {J = λ d _. d ≡ w.db} cidr).at env w refl

abbrev joins_device : Server → String → String → Act Response (Unit {0})
joins_device s key ip = with_device s (λ dev.
    or_respond (Wireguard.add_peer dev key ip)
      (λ e. http_error 500 ("could not configure wireguard peer: " <> e)))

joins_device-Keeps :
    {J : Invariant} (s : Server) (key ip : String) → Keeps J (joins_device s key ip)
joins_device-Keeps s key ip = search (keeps_rules, with_device-Keeps, add_peer-Keeps)

joins_device-status :
    (s : Server) (key ip : String) (env : Env) (w : World) {r : Response} {u : World}
    → joins_device s key ip env w ≡ (err r, u)
    → r.status ≡ 500
unfolding with_device ◌>>=◌
joins_device-status s key ip env w e = ground arith

joined-is :
    (s : Server) (config : Config) (ip name : String) (env : Env) (w : World)
    {o : Outcome Response Response} {v : World}
    → joined_response s config ip name env w ≡ (o, v)
    → (o
        ≡ ok (
            respond 200 (
              joined ip config.wg_subnet
                (server_key env.show_key s.device)
                config.wg_endpoint
                name)))
      × (v ≡ w)
unfolding joined_response
joined-is s config ip name env w e = (sym (ap (λ z. z.0) e), sym (ap (λ z. z.1) e))

device_and_answer :
    (s : Server) (config : Config) (key ip name : String) (env : Env) (w : World)
    {o : Outcome Response Response} {v : World}
    → (joins_device s key ip >>= λ _. joined_response s config ip name) env w ≡ (o, v)
    → status_of o ≡ 200
    → (o
        ≡ ok (
            respond 200 (
              joined ip config.wg_subnet
                (server_key env.show_key s.device)
                config.wg_endpoint
                name)))
      × (v.db ≡ w.db)
device_and_answer s config key ip name env w {o = o} {v = v} e st =
    elim (bind-cases _ _ env w e)
      as (λ _.
        (o
          ≡ ok (
              respond 200 (
                joined ip config.wg_subnet (server_key env.show_key s.device) config.wg_endpoint
                  name)))
        × (v.db ≡ w.db)) [
          | inl (_, u, q, e1) ↦
              let done = joined-is s config ip name env u e1 in
              (
                done.0,
                ap (λ z. z.db) done.1
                    ∙ (sym (ap (λ z. z.1.db) q)
                        ∙ (joins_device-Keeps {J = λ d _. d ≡ w.db} s key ip).at env w refl),
              )
          | inr (r, q, refused) ↦ ground (arith, joins_device-status s key ip env w q)
        ]

admit_peer-Admitted :
    (s : Server) (jr : JoinRequest) (env : Env) (w : World) {o : Outcome Response Response}
    {v : World}
    → admit_peer s jr env w ≡ (o, v)
    → status_of o ≡ 200
    → (config : Config) × (ip : String) × (s.config ≡ some config)
      × Admitted config jr env w v ip
      × (o
          ≡ ok (
              respond 200 (
                joined ip config.wg_subnet
                  (server_key env.show_key s.device)
                  config.wg_endpoint
                  (peer_name_or jr.name ip))))
unfolding admit_peer
admit_peer-Admitted s jr env w e st =
    let (config, has, e1) = past_config 200 env w s _ e (omega arith) st in
    let (ip, w2, q, e2) = past_call 200 env w _ _ _ e1 (λ why. omega arith) st in
    let (_, w3, q3, e3) = past_call 200 env w2 _ _ _ e2 (λ why. omega arith) st in
    let (answer, same) =
      device_and_answer s config jr.public_key ip (peer_name_or jr.name ip) env w3 e3 st in
    let row = added (peer_name_or jr.name ip) jr.public_key ip env w2 q3 in
    let db2 = allocation-db config.wg_subnet env w q in
    (
      config,
      ip,
      has,
      record {
        allocated = ap (λ z. z.0) q;
        new_name =
            ap (λ db. any (λ p. p.name == peer_name_or jr.name ip) db.peers.rows) (sym db2) ∙ row.0;
        new_ip = ap (λ db. any (λ p. p.assigned_ip == ip) db.peers.rows) (sym db2) ∙ row.1;
        now = env.now w2.tick;
        db_is =
            same
            ∙ (row.2
                ∙ ap
                    (λ db.
                      with_peer
                        (peer_row (peer_name_or jr.name ip) jr.public_key ip (env.now w2.tick)) db)
                    db2);
      },
      answer,
    )

-- A join that answers 200 has consumed a valid token, and then admitted the peer, at the address and
-- under the name that it answers with.
pub join_handler-Admitted :
    (s : Server) (req : Request JoinRequest) (env : Env) (w : World) {r : Response} {v : World}
    → join_handler s req env w ≡ (r, v)
    → r.status ≡ 200
    → (jr : JoinRequest) × (config : Config) × (ip : String) × (u : World) × (req.body ≡ decoded jr)
      × (s.config ≡ some config)
      × Consumed jr.access_token (env.now w.tick) w true u
      × Admitted config jr env u v ip
      × (r
          ≡ respond 200 (
              joined ip config.wg_subnet
                (server_key env.show_key s.device)
                config.wg_endpoint
                (peer_name_or jr.name ip)))
unfolding join_handler
join_handler-Admitted s req env w {r = r} e ok_status =
    let (o, x, same) = handler_outcome _ env w e in
    let st = ap (λ z. z.status) same ∙ ok_status in
    let (m1, x1) = past_guard 200 env w _ _ _ x (omega arith) st in
    let (m2, x2) = past_guard 200 env w _ _ _ x1 (omega arith) st in
    let (m3, x3) = past_guard 200 env w _ _ _ x2 (omega arith) st in
    let (jr, body, x4) = past_unmarshal 200 env w _ _ _ _ x3 (omega arith) (omega arith) st in
    let (m5, x5) = past_guard 200 env w _ _ _ x4 (omega arith) st in
    let (m6, x6) = past_guard 200 env w _ _ _ x5 (omega arith) st in
    let (valid, u, q, x7) = past_call 200 env w _ _ _ x6 (λ why. omega arith) st in
    let (m8, x8) = past_guard 200 env u _ _ _ x7 (omega arith) st in
    let (config, ip, has, admitted, answer) = admit_peer-Admitted s jr env u x8 st in
    (
      jr,
      config,
      ip,
      u,
      body,
      has,
      consume_access_token-Consumed jr.access_token env w (q ∙ ap (λ b. (ok b, u)) m8),
      admitted,
      sym same ∙ ap responded answer,
    )
