-- ===== src/Startup/Restore.antt =====
-- The map after the rules of the database have been put back.
use wgxdp.Base.{
  ℕ, ◌+◌, ◌≤◌, ◌≡◌, true, ◌||◌, none, List, [], ◌∷◌, any, length, arith, refl, subst, ◌∙◌, inl, inr,
}
use wgxdp.Base.Int.{to_uint8}
use wgxdp.World.{Env, World, PeerRuleKey}
use wgxdp.Act.{Outcome-cases, ◌>>=◌}
use wgxdp.Database.{RuleRecord}
use wgxdp.Firewall.{lookup_elem, add_peer_rule}
use wgxdp.Firewall.Filter.{is_one}
use wgxdp.Firewall.Permits.{
  key_of, has_key, has_key_keyed, has_key_unkeyed, is_one-update_elem, add_peer_rule-cases,
  add_peer_rule-roomy, add_peer_rule_unkeyed, length-update_elem,
}
use wgxdp.Startup.{restore_rules}

-- The state after one round of the loop.
abbrev after : RuleRecord → Env → World → World
after r env w = (add_peer_rule r.src_ip r.dst_ip r.port (to_uint8 r.proto) env w).1

restore_rules_cons :
    (r : RuleRecord) (rs : List RuleRecord) (env : Env) (w : World)
    → restore_rules (r ∷ rs) env w ≡ restore_rules rs env (after r env w)
unfolding restore_rules ◌>>=◌
restore_rules_cons r rs env w = refl

-- An entry of the map after the loop was there before, or is that of one of the rules.
pub restore_rules_only :
    (rs : List RuleRecord) (env : Env) (w : World) (k : PeerRuleKey)
    → is_one (lookup_elem k (restore_rules rs env w).1.peer_rules) ≡ true
    → (is_one (lookup_elem k w.peer_rules) || any (has_key k) rs) ≡ true
unfolding restore_rules ◌>>=◌
restore_rules_only [] env w k h = ground arith
restore_rules_only (r ∷ rs) env w k h =
    let rest = restore_rules_only rs env (after r env w) k h in
    elim (add_peer_rule-cases r.src_ip r.dst_ip r.port (to_uint8 r.proto) env w) [
      | inl same ↦
          step (subst (λ m. (is_one (lookup_elem k m) || any (has_key k) rs) ≡ true) same rest)
      | inr (key, keyed, put) ↦ ground (
        arith,
        subst (λ m. (is_one (lookup_elem k m) || any (has_key k) rs) ≡ true) put rest,
        is_one-update_elem key k w.peer_rules,
        has_key_keyed k r keyed,
      )
    ]
  where
    step :
        (is_one (lookup_elem k w.peer_rules) || any (has_key k) rs) ≡ true
        → (is_one (lookup_elem k w.peer_rules) || (has_key k r || any (has_key k) rs)) ≡ true
    step e = ground arith

-- When the map refuses nothing and has room for all the rules, it holds what it held and the rules.
pub restore_rules_all :
    (rs : List RuleRecord) (env : Env) (w : World) (k : PeerRuleKey)
    → ((t : ℕ) → env.map_error t ≡ none)
    → length w.peer_rules + length rs ≤ 1024
    → is_one (lookup_elem k (restore_rules rs env w).1.peer_rules)
      ≡ (is_one (lookup_elem k w.peer_rules) || any (has_key k) rs)
unfolding restore_rules ◌>>=◌
restore_rules_all [] env w k answers room = ground arith
restore_rules_all (r ∷ rs) env w k answers room = elim (Outcome-cases (key_of r)) [
  | inl (key, keyed) ↦
      let put =
        add_peer_rule-roomy r.src_ip r.dst_ip r.port (to_uint8 r.proto) env w (answers w.tick)
          (omega arith) keyed in
      let smaller : length (after r env w).peer_rules + length rs ≤ 1024 =
        rw put (omega (arith, length-update_elem key 1 w.peer_rules)) in
      restore_rules_all rs env (after r env w) k answers smaller
      ∙ rw put (ground (arith, is_one-update_elem key k w.peer_rules, has_key_keyed k r keyed))
  | inr (why, unkeyed) ↦
      let same = add_peer_rule_unkeyed r.src_ip r.dst_ip r.port (to_uint8 r.proto) env w unkeyed in
      restore_rules_all rs env (after r env w) k answers (rw same (omega arith))
      ∙ rw same (ground (arith, has_key_unkeyed k r unkeyed))
]
