-- ===== src/Server/Peers/Covering.antt =====
-- `DeletePeer` of internal/handlers_peers.go, on a server with a map that refuses nothing: the rules of
-- the peer leave the table, and then their keys leave the map.
use wgxdp.Base.{
  ℕ, ◌≡◌, Bool, true, ◌||◌, String, none, some, List, [], ◌∷◌, ◌++◌, any, any-append, map, arith,
  refl, ◌∙◌, ◌==◌, string_eq, nat_eq, inl, inr, Bool-cases,
}
use wgxdp.Base.Int.{ℤ, int_eq, to_uint8}
use wgxdp.World.{Env, World, PeerRuleKey, RuleRow}
use wgxdp.Act.{ok, err, attempt, Outcome-cases, ◌>>=◌}
use wgxdp.Act.Keeps.{Invariant, Keeps, Keeps-pure}
use wgxdp.Act.Leads.{Leads, Leads-bind, Leads-Keeps, Leads-mono, Leads-pure}
use wgxdp.Sql.{select, delete, check, checked}
use wgxdp.Sql.Keeps.{Keeps-rows_err}
use wgxdp.Sql.Leads.{Leads-sql}
use wgxdp.Database.{RuleRecord}
use wgxdp.Database.Rules.{rule_record, rules_from, remove_rules_for_peer}
use wgxdp.Firewall.{remove_peer_rule, delete_elem, get_rule_key}
use wgxdp.Firewall.Permits.{has_key, key_of, has_key_keyed, has_key_unkeyed}
use wgxdp.Firewall.Covers.{Covers, Covers-mono, Covers-delete_elem}
use wgxdp.Server.{Server, Request, Response}
use wgxdp.Database.Peers.{remove_peer}
use wgxdp.Sql.Keeps.{Keeps-sql}
use wgxdp.Server.Leads.{Reaches, Leads-with_xdp}
use wgxdp.Server.Rules.Covering.{Covering, rules_of}
use wgxdp.Server.Rules.Deleting.{remove_peer_rule-db}
use wgxdp.Server.Peers.Deleting.{delete_peer-Reaches}
use wgxdp.Server.Peers.{remove_from_map, unload, delete_peer}

-- Some rules have left the table, and may still be in the map.
abbrev pub Pending : List RuleRecord → Invariant
Pending rs db m = Covers (rs ++ rules_of db) m

any-select-delete :
    (p : RuleRow → Bool) (k : PeerRuleKey) (rows : List RuleRow)
    → any (has_key k) (map rule_record rows) ≡ true
    → (any (has_key k) (map rule_record (select p rows))
        || any (has_key k) (map rule_record (delete p rows)))
      ≡ true
any-select-delete p k [] there = there
any-select-delete p k (r ∷ rs) there = elim (Bool-cases (p r)) [
  | inl hit ↦ elim (Bool-cases (has_key k (rule_record r))) [
    | inl here ↦ ground arith
    | inr not_here ↦ ground (arith, any-select-delete p k rs (ground arith))
  ]
  | inr miss ↦ elim (Bool-cases (has_key k (rule_record r))) [
    | inl here ↦ ground arith
    | inr not_here ↦ ground (arith, any-select-delete p k rs (ground arith))
  ]
]

abbrev Listed : String → List RuleRecord → Invariant
Listed src rs db m = Covering db m × (rs ≡ rules_from src db.firewall_rules.rows)

module _ (env : Env) where
  remove_rules_for_peer-Pending :
      (src : String) → Leads env Covering Pending Covering (remove_rules_for_peer src)
  unfolding remove_rules_for_peer
  remove_rules_for_peer-Pending src =
      Leads-bind env _ (Leads-sql env {K = Listed src} _ (λ db m h. (h, refl))) _ λ rs.
        Leads-bind env _ (Leads-mono env _ (Leads-Keeps env _ Keeps-rows_err) (λ db m h. h.0)) _
          λ _.
            Leads-bind env _
              (Leads-mono env _
                (Leads-sql env {K = λ _. Pending rs} _ (λ db m h. Covers-mono h.0 (λ k there.
                  any-append (has_key k) rs _
                  ∙ rw (h.1)
                      (any-select-delete (λ r. r.src_ip == src) k db.firewall_rules.rows there))))
                (λ db m h. h.0))
              _ λ _. Leads-pure env rs (λ w h. h)

module _ (env : Env) (answers : (t : ℕ) → env.map_error t ≡ none) where
  remove_peer_rule_answers :
      (src dst : String) (port : ℤ) (proto : ℕ) (w : World) {key : PeerRuleKey}
      → get_rule_key src dst port proto ≡ ok key
      → (remove_peer_rule src dst port proto env w).1.peer_rules ≡ delete_elem key w.peer_rules
  unfolding remove_peer_rule check checked ◌>>=◌
  remove_peer_rule_answers src dst port proto w keyed = ground (arith, answers w.tick)

  remove_peer_rule_skips :
      (src dst : String) (port : ℤ) (proto : ℕ) (w : World) {why : String}
      → get_rule_key src dst port proto ≡ err why
      → (remove_peer_rule src dst port proto env w).1.peer_rules ≡ w.peer_rules
  unfolding remove_peer_rule ◌>>=◌
  remove_peer_rule_skips src dst port proto w unkeyed = ground arith

  attempt-Pending :
      (r : RuleRecord) (rs : List RuleRecord)
      → Leads {E = Response} env
          (Pending (r ∷ rs))
          (λ _. Pending rs)
          Covering
          (attempt (remove_peer_rule r.src_ip r.dst_ip r.port (to_uint8 r.proto)))
  unfolding attempt
  attempt-Pending r rs = record {
    at = λ w h.
        let db = remove_peer_rule-db r.src_ip r.dst_ip r.port (to_uint8 r.proto) env w in
        elim (Outcome-cases (key_of r)) [
          | inl (key, keyed) ↦
              rw (db, remove_peer_rule_answers r.src_ip r.dst_ip r.port (to_uint8 r.proto) w keyed)
                (Covers-delete_elem h key
                  (λ k other there. ground (arith, has_key_keyed k r keyed)))
          | inr (why, unkeyed) ↦
              rw (db, remove_peer_rule_skips r.src_ip r.dst_ip r.port (to_uint8 r.proto) w unkeyed)
                (Covers-mono h (λ k there. ground (arith, has_key_unkeyed k r unkeyed)))
        ];
  }

  remove_from_map-Pending :
      (rs : List RuleRecord) → Leads env (Pending rs) (λ _. Covering) Covering (remove_from_map rs)
  unfolding remove_from_map
  remove_from_map-Pending [] = Leads-Keeps env _ (Keeps-pure tt)
  remove_from_map-Pending (r ∷ rs) =
      Leads-bind env _ (attempt-Pending r rs) _ (λ _. remove_from_map-Pending rs)

  module _ (s : Server) (xdp : s.xdp ≡ some tt) where
    unload-Pending :
        (rs : List RuleRecord) → Leads env (Pending rs) (λ _. Covering) Covering (unload s rs)
    unfolding unload
    unload-Pending rs = Leads-with_xdp env s _ xdp (remove_from_map-Pending rs)

    remove_peer-Covering : (name : String) → Keeps Covering (remove_peer name)
    unfolding remove_peer
    remove_peer-Covering name = Keeps-sql _ (λ db m h. h)

    -- The deletion of a peer, whatever it answers.
    pub delete_peer-Covering :
        {B : Type 0} (req : Request B) → Reaches env Covering Covering (delete_peer s req)
    delete_peer-Covering req =
        delete_peer-Reaches s env (remove_rules_for_peer-Pending env) unload-Pending
          remove_peer-Covering req
