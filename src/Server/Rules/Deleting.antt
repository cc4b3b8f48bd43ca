-- ===== src/Server/Rules/Deleting.antt =====
-- `DeleteRule` of internal/handlers_rules.go, on a server with a map: the key of the rule leaves the map
-- before its row leaves the table, and the rows with other ids keep theirs.
use wgxdp.Base.{
  ℕ, ◌≡◌, Bool, true, false, ◌&&◌, String, Option, none, some, List, [], ◌∷◌, any, All, map, arith,
  refl, ap, ◌∙◌, ◌==◌, nat_eq, inl, inr, Bool-cases,
}
use wgxdp.Base.Int.{ℤ, pos, negsuc, int_eq, to_uint8}
use wgxdp.World.{Env, World, Db, PeerRuleKey, RuleRow}
use wgxdp.Act.{ok, err, pure, fail, Outcome-cases, ◌>>=◌}
use wgxdp.Act.Keeps.{Invariant, Keeps-pure}
use wgxdp.Act.Leads.{
  After-cases, Leads, Leads-bind, Leads-Keeps, Leads-on_error, Leads-mono, Leads-pure,
}
use wgxdp.Sql.{delete, check, checked}
use wgxdp.Sql.Rows.{AreDistinct}
use wgxdp.Sql.Leads.{Leads-sql}
use wgxdp.Database.{RuleRecord}
use wgxdp.Database.Rules.{rule_record, find_rule, remove_rule, get_rule_by_id}
use wgxdp.Database.Integrity.{same_id}
use wgxdp.Firewall.{Rules, remove_peer_rule, delete_elem, get_rule_key}
use wgxdp.Firewall.Keeps.{remove_peer_rule-Keeps}
use wgxdp.Firewall.Permits.{has_key, key_of, has_key_keyed, has_key_unkeyed}
use wgxdp.Firewall.Covers.{Covers, Covers-mono, Covers-delete_elem}
use wgxdp.Server.{Server, Request, Response, or_respond}
use wgxdp.Server.Leads.{Reaches, Leads-handler, Leads-with_xdp}
use wgxdp.Server.Keeps.{rule_id-Keeps}
use wgxdp.Server.Rules.{delete_rule, existing_rule, remove_from_map, is_ip}
use wgxdp.Server.Rules.Covering.{Covering, rules_of}

-- A row of that id is the record that is looked up.
abbrev IsRecord : ℤ → RuleRecord → RuleRow → Type 0
IsRecord id found r = (pos r.id == id) ≡ true → rule_record r ≡ found

other_ids :
    (id : ℤ) (found : RuleRecord) (r : RuleRow) (rs : List RuleRow)
    → (pos r.id == id) ≡ true
    → All (λ s. same_id r s ≡ false) rs
    → All (IsRecord id found) rs
other_ids id found r [] own h = tt
other_ids (pos n) found r (s ∷ rs) own h =
    ((λ e. ground arith), other_ids (pos n) found r rs own h.1)
other_ids (negsuc n) found r (s ∷ rs) own h =
    ((λ e. ground arith), other_ids (negsuc n) found r rs own h.1)

find_rule-IsRecord :
    (id : ℤ) (rows : List RuleRow) {found : RuleRecord}
    → AreDistinct same_id rows
    → find_rule id rows ≡ some found
    → All (IsRecord id found) rows
find_rule-IsRecord id [] distinct there = tt
find_rule-IsRecord id (r ∷ rs) {found = found} distinct there = elim (Bool-cases (pos r.id == id)) [
  | inl own ↦ ((λ _. ground arith), other_ids id found r rs own distinct.0)
  | inr other ↦ ((λ e. ground arith), find_rule-IsRecord id rs distinct.1 (ground arith))
]

-- A key that the record does not have stays with a row that is not deleted.
any-delete_other :
    (id : ℤ) (found : RuleRecord) (k : PeerRuleKey) (rows : List RuleRow)
    → All (IsRecord id found) rows
    → has_key k found ≡ false
    → any (has_key k) (map rule_record rows) ≡ true
    → any (has_key k) (map rule_record (delete (λ r. pos r.id == id) rows)) ≡ true
any-delete_other id found k [] own other there = there
any-delete_other id found k (r ∷ rs) own other there = elim (Bool-cases (pos r.id == id)) [
  | inl gone ↦
      let not_here : has_key k (rule_record r) ≡ false = ap (has_key k) (own.0 gone) ∙ other in
      rw gone (any-delete_other id found k rs own.1 other (ground arith))
  | inr left ↦ rw left (elim (Bool-cases (has_key k (rule_record r))) [
    | inl here ↦ ground arith
    | inr not_here ↦ ground (arith, any-delete_other id found k rs own.1 other (ground arith))
  ])
]

-- The rule is found; its key has left the map.
abbrev Found : ℤ → RuleRecord → Invariant
Found id found db m = Covers (rules_of db) m × All (IsRecord id found) db.firewall_rules.rows

abbrev Unloaded : ℤ → Invariant
Unloaded id db m = Covers (map rule_record (delete (λ r. pos r.id == id) db.firewall_rules.rows)) m

keyed-is_ip :
    (r : RuleRecord) {key : PeerRuleKey}
    → key_of r ≡ ok key
    → (is_ip r.src_ip && is_ip r.dst_ip) ≡ true
unfolding get_rule_key
keyed-is_ip r keyed = ground arith

module _ (src dst : String) (port : ℤ) (proto : ℕ) (env : Env) (w : World) where
  pub remove_peer_rule_failed :
      {e : String}
      → (remove_peer_rule src dst port proto env w).0 ≡ err e
      → (remove_peer_rule src dst port proto env w).1.peer_rules ≡ w.peer_rules
  unfolding remove_peer_rule check checked ◌>>=◌
  remove_peer_rule_failed failed = ground arith

  pub remove_peer_rule_done :
      {key : PeerRuleKey}
      → get_rule_key src dst port proto ≡ ok key
      → (remove_peer_rule src dst port proto env w).0 ≡ ok tt
      → (remove_peer_rule src dst port proto env w).1.peer_rules ≡ delete_elem key w.peer_rules
  unfolding remove_peer_rule check checked ◌>>=◌
  remove_peer_rule_done keyed done = ground arith

  pub remove_peer_rule_unkeyed :
      {why : String}
      → get_rule_key src dst port proto ≡ err why
      → (remove_peer_rule src dst port proto env w).0 ≡ ok tt
      → ⊥
  unfolding remove_peer_rule check checked ◌>>=◌
  remove_peer_rule_unkeyed unkeyed done = ground arith

  pub remove_peer_rule-db : (remove_peer_rule src dst port proto env w).1.db ≡ w.db
  remove_peer_rule-db = (remove_peer_rule-Keeps (λ db. db ≡ w.db) src dst port proto).at env w refl

module _ (id : ℤ) (found : RuleRecord) (env : Env) where
  Unloaded_keyed :
      (db : Db) (m : Rules) {key : PeerRuleKey}
      → Found id found db m
      → key_of found ≡ ok key
      → Unloaded id db (delete_elem key m)
  Unloaded_keyed db m {key = key} h keyed = Covers-delete_elem h.0 key (λ k other there.
      any-delete_other id found k db.firewall_rules.rows h.1 (has_key_keyed k found keyed ∙ other)
        there)

  Unloaded_unkeyed :
      (db : Db) (m : Rules) {why : String}
      → Found id found db m
      → key_of found ≡ err why
      → Unloaded id db m
  Unloaded_unkeyed db m h unkeyed = Covers-mono h.0 (λ k there.
      any-delete_other id found k db.firewall_rules.rows h.1 (has_key_unkeyed k found unkeyed)
        there)

  remove_peer_rule-Unloaded :
      Leads env
        (Found id found)
        (λ _. Unloaded id)
        Covering
        (remove_peer_rule found.src_ip found.dst_ip found.port (to_uint8 found.proto))
  remove_peer_rule-Unloaded = record {
    at = λ w h.
        let db =
          remove_peer_rule-db found.src_ip found.dst_ip found.port (to_uint8 found.proto) env w in
        After-cases (λ _. Unloaded id) Covering _
          (λ _ done. elim (Outcome-cases (key_of found)) [
            | inl (key, keyed) ↦
                rw
                  (
                    db,
                    remove_peer_rule_done found.src_ip found.dst_ip found.port
                        (to_uint8 found.proto) env w keyed done,
                  )
                  (Unloaded_keyed w.db w.peer_rules h keyed)
            | inr (why, unkeyed) ↦ absurd (
                remove_peer_rule_unkeyed found.src_ip found.dst_ip found.port (to_uint8 found.proto)
                  env w unkeyed done)
          ])
          (λ e failed.
            rw
              (
                db,
                remove_peer_rule_failed found.src_ip found.dst_ip found.port (to_uint8 found.proto)
                    env w failed,
              )
              h.0);
  }

  remove_from_map-Unloaded :
      Leads env (Found id found) (λ _. Unloaded id) Covering (remove_from_map found)
  unfolding remove_from_map
  remove_from_map-Unloaded = elim (Bool-cases (is_ip found.src_ip && is_ip found.dst_ip)) [
    | inl loaded ↦ rw loaded (Leads-on_error env _ remove_peer_rule-Unloaded _)
    | inr other ↦ rw other (
        Leads-pure env tt (λ w h. elim (Outcome-cases (key_of found)) [
          | inl (key, keyed) ↦ absurd (ground (arith, keyed-is_ip found keyed))
          | inr (why, unkeyed) ↦ Unloaded_unkeyed w.db w.peer_rules h unkeyed
        ]))
  ]

any-delete-any :
    (p : RuleRow → Bool) (k : PeerRuleKey) (rows : List RuleRow)
    → any (has_key k) (map rule_record (delete p rows)) ≡ true
    → any (has_key k) (map rule_record rows) ≡ true
any-delete-any p k [] there = there
any-delete-any p k (r ∷ rs) there = elim (Bool-cases (p r)) [
  | inl gone ↦ ground (arith, any-delete-any p k rs (ground arith))
  | inr left ↦ elim (Bool-cases (has_key k (rule_record r))) [
    | inl here ↦ ground arith
    | inr not_here ↦ ground (arith, any-delete-any p k rs (ground arith))
  ]
]

abbrev Distinct : Invariant
Distinct db m = Covers (rules_of db) m × AreDistinct same_id db.firewall_rules.rows

abbrev LookedUp : ℤ → Option RuleRecord → Invariant
LookedUp id o db m = Distinct db m × (find_rule id db.firewall_rules.rows ≡ o)

module _ (id : ℤ) (env : Env) where
  look_up-Leads :
      (f : String → Response)
      → Leads env Distinct (LookedUp id) Covering (or_respond (get_rule_by_id id) f)
  unfolding get_rule_by_id
  look_up-Leads f =
      Leads-on_error env _
        (Leads-mono env _ (Leads-sql env {K = LookedUp id} _ (λ db m h. (h, refl))) (λ db m h. h.0))
        f

  existing_rule-Leads :
      (o : Option RuleRecord) → Leads env (LookedUp id o) (Found id) Covering (existing_rule o)
  unfolding existing_rule pure fail
  existing_rule-Leads none = record { at = λ w h. h.0.0 }
  existing_rule-Leads (some r) = record {
    at = λ w h. (h.0.0, find_rule-IsRecord id w.db.firewall_rules.rows h.0.1 h.1);
  }

  remove_rule-Leads :
      (f : String → Response)
      → Leads env (Unloaded id) (λ _. Covering) Covering (or_respond (remove_rule id) f)
  unfolding remove_rule
  remove_rule-Leads f =
      Leads-on_error env _
        (Leads-mono env _ (Leads-sql env {K = λ _. Covering} _ (λ db m h. h)) (λ db m h.
          Covers-mono h
            (λ k there. any-delete-any (λ r. pos r.id == id) k db.firewall_rules.rows there)))
        f

-- The deletion of a rule, whatever it answers, where the ids of the rules are distinct.
pub delete_rule-Covering :
    {B : Type 0} (s : Server) (env : Env) (req : Request B)
    → s.xdp ≡ some tt
    → Reaches env Distinct Covering (delete_rule s req)
unfolding delete_rule
delete_rule-Covering s env req xdp = Leads-handler env _ (
    Leads-bind env _ (Leads-mono env _ (Leads-Keeps env _ (rule_id-Keeps _)) (λ db m h. h.0)) _
      λ id. Leads-bind env _ (look_up-Leads id env _) _ λ o.
        Leads-bind env _ (existing_rule-Leads id env o) _ λ r.
          Leads-bind env _ (Leads-with_xdp env s _ xdp (remove_from_map-Unloaded id r env)) _ λ _.
            Leads-bind env _ (remove_rule-Leads id env _) _ λ _. Leads-Keeps env _ (Keeps-pure _))
