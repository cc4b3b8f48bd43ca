-- ===== src/Server/Rules/Covering.antt =====
-- The handlers of internal/handlers_rules.go, on a server with a map: they leave no key in the map that
-- no stored rule has.
use wgxdp.Base.{
  ℕ, ◌≡◌, true, String, some, List, [], ◌∷◌, ◌++◌, any, map, arith, refl, string_eq, nat_eq, inl,
  inr, Bool-cases,
}
use wgxdp.Base.Int.{ℤ, int_eq, to_uint8}
use wgxdp.World.{Env, World, Db, PeerRuleKey, RuleRow}
use wgxdp.Act.{ok}
use wgxdp.Act.Keeps.{Invariant, Keeps-ask, Keeps-pure, Keeps-guard}
use wgxdp.Act.Leads.{Leads, Leads-bind, Leads-Keeps, Leads-Keeps-bind, Leads-on_error, After-kept}
use wgxdp.Sql.Leads.{Leads-sql}
use wgxdp.Database.{RuleRecord}
use wgxdp.Database.Rules.{rule_record, add_rule, rule_row, same_rule}
use wgxdp.Firewall.{Rules, add_peer_rule, get_rule_key}
use wgxdp.Firewall.Keeps.{add_peer_rule-Keeps}
use wgxdp.Firewall.Permits.{has_key, has_key_keyed, add_peer_rule-cases}
use wgxdp.Firewall.Verdicts.{same_key_iff}
use wgxdp.Firewall.Covers.{Covers, Covers-mono, Covers-update_elem}
use wgxdp.Server.{Server, Request, Response, or_respond}
use wgxdp.Server.Leads.{Reaches, Leads-handler, Leads-with_xdp}
use wgxdp.Server.Keeps.{unmarshal-Keeps}
use wgxdp.Server.Rules.{CreateRuleRequest, create_rule, with_xdp, proto_or_tcp}
use wgxdp.Server.Rules.Refinement.{any-map-append}

abbrev pub rules_of : Db → List RuleRecord
rules_of db = map rule_record db.firewall_rules.rows

abbrev pub Covering : Invariant
Covering db m = Covers (rules_of db) m

-- The rule of these texts is stored as well.
abbrev Loadable : String → String → ℤ → ℤ → Invariant
Loadable src dst port proto db m =
    Covers (rules_of db) m
    × ((key : PeerRuleKey)
        → get_rule_key src dst port (to_uint8 proto) ≡ ok key
        → any (has_key key) (rules_of db) ≡ true)

module _ (src dst : String) (port proto : ℤ) (env : Env) where
  insert-Loadable :
      (now : ℕ) (rows : List RuleRow) (m : Rules) (id : ℕ)
      → Covers (map rule_record rows) m
      → (Covers (map rule_record (rows ++ rule_row src dst port proto now id ∷ [])) m)
        × ((key : PeerRuleKey)
            → get_rule_key src dst port (to_uint8 proto) ≡ ok key
            → any (has_key key) (map rule_record (rows ++ rule_row src dst port proto now id ∷ []))
              ≡ true)
  insert-Loadable now rows m id h = (
    Covers-mono h
        (λ k there. ground (arith, any-map-append k rows (rule_row src dst port proto now id))),
    λ key keyed. ground (
      arith,
      any-map-append key rows (rule_row src dst port proto now id),
      has_key_keyed key (rule_record (rule_row src dst port proto now id)) keyed,
      (same_key_iff key key).1 refl,
    ),
  )

  add_rule-Loadable :
      Leads env Covering (λ _. Loadable src dst port proto) Covering (add_rule src dst port proto)
  unfolding add_rule
  add_rule-Loadable = Leads-bind env _ (Leads-Keeps env _ (Keeps-ask (λ env. env.now))) _ (λ now.
      Leads-sql env _ (λ db m h.
        elim (Bool-cases
          (any (λ r. same_rule r (rule_row src dst port proto now 0)) db.firewall_rules.rows)) [
            | inl old ↦ rw old h
            | inr new ↦ rw new (insert-Loadable now db.firewall_rules.rows m _ h)
          ]))

  add_peer_rule-Covering :
      Leads env
        (Loadable src dst port proto)
        (λ _. Covering)
        Covering
        (add_peer_rule src dst port (to_uint8 proto))
  add_peer_rule-Covering = record { at = λ w h. After-kept Covering _ (kept w h) }
    where
      kept :
          (w : World)
          → Loadable src dst port proto w.db w.peer_rules
          → Covering
              (add_peer_rule src dst port (to_uint8 proto) env w).1.db
              (add_peer_rule src dst port (to_uint8 proto) env w).1.peer_rules
      kept w h =
          rw ((add_peer_rule-Keeps (λ db. db ≡ w.db) src dst port (to_uint8 proto)).at env w refl)
            (elim (add_peer_rule-cases src dst port (to_uint8 proto) env w) [
              | inl same ↦ rw same h.0
              | inr (key, keyed, put) ↦ rw put (Covers-update_elem h.0 key (h.1 key keyed))
            ])

module _ (s : Server) (xdp : s.xdp ≡ some tt) (env : Env) where
  add_rule-Leads :
      (cr : CreateRuleRequest) (f : String → Response)
      → Leads env Covering
          (λ _. Loadable cr.src_ip cr.dst_ip cr.port (proto_or_tcp cr.proto))
          Covering
          (or_respond (add_rule cr.src_ip cr.dst_ip cr.port (proto_or_tcp cr.proto)) f)
  add_rule-Leads cr f =
      Leads-on_error env _
        (add_rule-Loadable cr.src_ip cr.dst_ip cr.port (proto_or_tcp cr.proto) env) f

  put-Leads :
      (cr : CreateRuleRequest) (f : String → Response)
      → Leads env
          (Loadable cr.src_ip cr.dst_ip cr.port (proto_or_tcp cr.proto))
          (λ _. Covering)
          Covering
          (with_xdp s (
            or_respond
              (add_peer_rule cr.src_ip cr.dst_ip cr.port (to_uint8 (proto_or_tcp cr.proto)))
              f))
  put-Leads cr f = Leads-with_xdp env s _ xdp (
      Leads-on_error env _
        (add_peer_rule-Covering cr.src_ip cr.dst_ip cr.port (proto_or_tcp cr.proto) env) f)

  pub create_rule-Covering :
      (req : Request CreateRuleRequest) → Reaches env Covering Covering (create_rule s req)
  unfolding create_rule
  create_rule-Covering req = Leads-handler env _ (
      Leads-Keeps-bind env _ _ (unmarshal-Keeps _ _ req.body) λ cr.
        Leads-Keeps-bind env _ _ (Keeps-guard _ _) λ _.
          Leads-Keeps-bind env _ _ (Keeps-guard _ _) λ _.
            Leads-Keeps-bind env _ _ (Keeps-guard _ _) λ _.
              Leads-bind env _ (add_rule-Leads cr _) _
                λ id. Leads-bind env _ (put-Leads cr _) _ λ _. Leads-Keeps env _ (Keeps-pure _))
