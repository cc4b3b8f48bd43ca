-- ===== src/Server/Peers/Blind.antt =====
-- `DeletePeer` of internal/handlers_peers.go does not look at what the eBPF map answers.
use wgxdp.Base.{
  ℕ, ◌≡◌, refl, sym, subst, String, Bool, true, false, Option, none, some, List, [], ◌∷◌, string_eq,
  arith, Option-cases, inl, inr,
}
use wgxdp.Base.Int.{ℤ, to_uint8}
use wgxdp.World.{Env, World, Db}
use wgxdp.Act.{Outcome, ok, err, Act, pure, fail, guard, on_error, ◌>>=◌, continue, recover}
use wgxdp.Sql.{sql, check, checked, apply, rows_err}
use wgxdp.Database.{RuleRecord, PeerRecord}
use wgxdp.Database.Peers.{remove_peer, get_peer_by_name}
use wgxdp.Database.Rules.{remove_rules_for_peer}
use wgxdp.Firewall.{Rules, remove_peer_rule}
use wgxdp.Wireguard
use wgxdp.Server.{Server, Request, Response, handler, settled}
use wgxdp.Server.Rules.{with_xdp}
use wgxdp.Server.Peers.{
  existing_peer, remove_from_map, unlink, unload, forget, delete_found, delete_named, delete_peer,
}

-- The outside with another answer of the map to each call, and a state with another map.
abbrev pub answering : (ℕ → Option String) → Env → Env
answering f env = record env { map_error = f }

abbrev pub over : Rules → World → World
over rules w = record w { peer_rules = rules }

-- Two results that differ in the map at most.
pub record IsSame {R : Type 0} (r r' : R × World) : Type 0 where
  pub answer : r'.0 ≡ r.0
  pub state : r'.1 ≡ over r'.1.peer_rules r.1

record IsBlind {E A : Type 0} (m : Act E A) : Type 0 where
  at :
      (f : ℕ → Option String) (env : Env) (rules : Rules) (w : World)
      → IsSame (m env w) (m (answering f env) (over rules w))

module _ {E A B : Type 0} (k : A → Act E B) (blind : (a : A) → IsBlind (k a)) where
  continue-IsSame :
      (f : ℕ → Option String) (env : Env) (o : Outcome E A) (v : World) (rules : Rules)
      → IsSame (continue k env (o, v)) (continue k (answering f env) (o, over rules v))
  continue-IsSame f env (ok a) v rules = (blind a).at f env rules v
  continue-IsSame f env (err e) v rules = record { answer = refl; state = refl }

  bind-IsBlind : (m : Act E A) → IsBlind m → IsBlind (m >>= k)
  unfolding ◌>>=◌
  bind-IsBlind m blind_m = record {
    at = λ f env rules w.
        let same = blind_m.at f env rules w in
        subst
          (λ o.
            IsSame (continue k env (m env w))
              (continue k (answering f env) (o, (m (answering f env) (over rules w)).1)))
          (sym same.answer)
          (subst
            (λ v. IsSame (continue k env (m env w)) (continue k (answering f env) ((m env w).0, v)))
            (sym same.state) (continue-IsSame f env (m env w).0 (m env w).1 _));
  }

module _ {E F A : Type 0} (h : E → F) where
  recover-IsSame :
      (f : ℕ → Option String) (env : Env) (o : Outcome E A) (v : World) (rules : Rules)
      → IsSame
          (recover {F = F} (λ e. fail (h e)) env (o, v))
          (recover (λ e. fail (h e)) (answering f env) (o, over rules v))
  unfolding fail
  recover-IsSame f env (ok a) v rules = record { answer = refl; state = refl }
  recover-IsSame f env (err e) v rules = record { answer = refl; state = refl }

  on_error-IsBlind : (m : Act E A) → IsBlind m → IsBlind (on_error m (λ e. fail {A = A} (h e)))
  unfolding on_error
  on_error-IsBlind m blind_m = record {
    at = λ f env rules w.
        let same = blind_m.at f env rules w in
        subst
          (λ o. IsSame (recover (λ e. fail (h e)) env (m env w)) (
            recover (λ e. fail (h e)) (answering f env)
              (o, (m (answering f env) (over rules w)).1)))
          (sym same.answer)
          (subst
            (λ v.
              IsSame (recover (λ e. fail (h e)) env (m env w))
                (recover (λ e. fail (h e)) (answering f env) ((m env w).0, v)))
            (sym same.state) (recover-IsSame f env (m env w).0 (m env w).1 _));
  }

pure-IsBlind : {E A : Type 0} (a : A) → IsBlind {E = E} (pure a)
unfolding pure
pure-IsBlind a = record { at = λ f env rules w. record { answer = refl; state = refl } }

guard-IsBlind : {E : Type 0} (b : Bool) (e : E) → IsBlind (guard b e)
unfolding guard pure fail
guard-IsBlind true e = record { at = λ f env rules w. record { answer = refl; state = refl } }
guard-IsBlind false e = record { at = λ f env rules w. record { answer = refl; state = refl } }

sql-IsBlind : {A : Type 0} (statement : Db → Outcome String A × Db) → IsBlind (sql statement)
unfolding sql check checked apply ◌>>=◌
sql-IsBlind statement = record {
  at = λ f env rules w. elim (Option-cases (env.sql_error w.tick)) [
    | inl fine ↦ record { answer = rw fine refl; state = rw fine refl }
    | inr (e, bad) ↦ record { answer = rw bad refl; state = rw bad refl }
  ];
}

existing_peer-IsBlind : (o : Option PeerRecord) → IsBlind (existing_peer o)
unfolding existing_peer fail pure
existing_peer-IsBlind none = record { at = λ f env rules w. record { answer = refl; state = refl } }
existing_peer-IsBlind (some p) = pure-IsBlind p

unlink-IsBlind : (s : Server) (key : String) → IsBlind (unlink s key)
unfolding unlink Wireguard.remove_peer Wireguard.apply Wireguard.remove Wireguard.delete_link
    Wireguard.configure_device Wireguard.take_config Wireguard.parsed_key check checked
unlink-IsBlind s key = record {
  at = λ f env rules w. record { answer = ground arith; state = ground arith };
}

rows_err-IsBlind : IsBlind rows_err
unfolding rows_err check checked ◌>>=◌
rows_err-IsBlind = record {
  at = λ f env rules w. record { answer = ground arith; state = ground arith };
}

-- The map may refuse in one run and not in the other, and is asked once in each.
remove_peer_rule-over :
    (src dst : String) (port : ℤ) (proto : ℕ) (f : ℕ → Option String) (env : Env) (rules : Rules)
    (w : World)
    → (remove_peer_rule src dst port proto (answering f env) (over rules w)).1
      ≡ over
          (remove_peer_rule src dst port proto (answering f env) (over rules w)).1.peer_rules
          (remove_peer_rule src dst port proto env w).1
unfolding remove_peer_rule check checked ◌>>=◌
remove_peer_rule-over src dst port proto f env rules w = ground arith

remove_from_map-IsBlind : (rs : List RuleRecord) → IsBlind (remove_from_map rs)
unfolding remove_from_map ◌>>=◌
remove_from_map-IsBlind [] = pure-IsBlind tt
remove_from_map-IsBlind (r ∷ rs) = record {
  at = λ f env rules w.
      subst
        (λ v.
          IsSame
            (remove_from_map rs env
              (remove_peer_rule r.src_ip r.dst_ip r.port (to_uint8 r.proto) env w).1)
            (remove_from_map rs (answering f env) v))
        (sym (remove_peer_rule-over r.src_ip r.dst_ip r.port (to_uint8 r.proto) f env rules w))
        ((remove_from_map-IsBlind rs).at f env _ _);
}

unload-IsBlind : (s : Server) (rs : List RuleRecord) → IsBlind (unload s rs)
unfolding unload with_xdp
unload-IsBlind s rs = elim (Option-cases s.xdp) [
  | inl off ↦ rw off (pure-IsBlind tt)
  | inr (_, on) ↦ rw on (remove_from_map-IsBlind rs)
]

remove_rules_for_peer-IsBlind : (src : String) → IsBlind (remove_rules_for_peer src)
unfolding remove_rules_for_peer
remove_rules_for_peer-IsBlind src =
    bind-IsBlind _
      (λ deleted.
        bind-IsBlind _ (λ _. bind-IsBlind _ (λ _. pure-IsBlind deleted) _ (sql-IsBlind _)) _
          rows_err-IsBlind)
      _ (sql-IsBlind _)

forget-IsBlind : (s : Server) (peer : PeerRecord) (name : String) → IsBlind (forget s peer name)
unfolding forget remove_peer
forget-IsBlind s peer name =
    bind-IsBlind _
      (λ deleted.
        bind-IsBlind _
          (λ _. bind-IsBlind _ (λ _. pure-IsBlind _) _ (on_error-IsBlind _ _ (sql-IsBlind _))) _
          (unload-IsBlind s deleted))
      _ (on_error-IsBlind _ _ (remove_rules_for_peer-IsBlind peer.assigned_ip))

delete_named-IsBlind : (s : Server) (name : String) → IsBlind (delete_named s name)
unfolding delete_named delete_found get_peer_by_name
delete_named-IsBlind s name =
    bind-IsBlind _
      (λ found.
        bind-IsBlind _
          (λ peer.
            bind-IsBlind _ (λ _. forget-IsBlind s peer name) _ (unlink-IsBlind s peer.public_key))
          _ (existing_peer-IsBlind found))
      _ (on_error-IsBlind _ _ (sql-IsBlind _))

handler-IsSame :
    (o o' : Outcome Response Response × World) → IsSame o o' → IsSame (settled o) (settled o')
handler-IsSame (ok r, w) (o, w') same =
    subst (λ o. IsSame (r, w) (settled (o, w'))) (sym same.answer)
      (record { answer = refl; state = same.state })
handler-IsSame (err r, w) (o, w') same =
    subst (λ o. IsSame (r, w) (settled (o, w'))) (sym same.answer)
      (record { answer = refl; state = same.state })

-- The answer of a deletion of a peer, and what it leaves in the tables, on the interface and on the host,
-- depend neither on what the map holds nor on what it answers to any call: an error of the map is never
-- reported, and changes nothing but the map.
pub delete_peer-IsSame :
    {B : Type 0} (s : Server) (req : Request B) (f : ℕ → Option String) (env : Env) (rules : Rules)
    (w : World)
    → IsSame (delete_peer s req env w) (delete_peer s req (answering f env) (over rules w))
unfolding delete_peer handler
delete_peer-IsSame s req f env rules w = handler-IsSame _ _ (
    (bind-IsBlind _ (λ _. delete_named-IsBlind s (req.path_value "name")) _ (guard-IsBlind _ _)).at
      f env rules w)
