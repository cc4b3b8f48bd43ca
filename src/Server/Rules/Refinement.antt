-- ===== src/Server/Rules/Refinement.antt =====
-- The eBPF map implements the rules of the tables, before and after a request that changes them.
use wgxdp.Base.{
  ◌≡◌, Bool, true, false, ◌||◌, some, List, [], ◌∷◌, ◌++◌, any, All, map, arith, if◌then◌else◌, ap,
  sym, subst, ◌∙◌, inl, inr, ◌==◌,
}
use wgxdp.Base.Int.{ℤ, pos, int_eq}
use wgxdp.World.{Env, World, PeerRuleKey, RuleRow}
use wgxdp.Sql.{delete}
use wgxdp.Act.{ok, Outcome-cases}
use wgxdp.Database.{RuleRecord}
use wgxdp.Database.Rules.{rule_record, find_rule}
use wgxdp.Firewall.{Rules, same_key, update_elem, delete_elem}
use wgxdp.Firewall.Verdicts.{same_key_iff, lookup_elem-delete_elem}
use wgxdp.Firewall.Permits.{
  key_of, has_key, has_key_keyed, has_key_unkeyed, is_one-update_elem, Implements,
}
use wgxdp.Startup.Loading.{rules_in}
use wgxdp.Server.{Server, Request, decoded, Response}
use wgxdp.Server.Rules.{CreateRuleRequest, create_rule, delete_rule, is_ip}
use wgxdp.Server.Rules.ParseInt.{parse_int}
use wgxdp.Server.Rules.Effects.{create_rule-RuleCreated, delete_rule_found, delete_rule_unloaded}

pub any-map-append :
    (k : PeerRuleKey) (rows : List RuleRow) (row : RuleRow)
    → any (has_key k) (map rule_record (rows ++ row ∷ []))
      ≡ (has_key k (rule_record row) || any (has_key k) (map rule_record rows))
any-map-append k [] row = ground arith
any-map-append k (r ∷ rows) row = ground (arith, any-map-append k rows row)

Implements-append :
    (rows : List RuleRow) (row : RuleRow) (m : Rules) {key : PeerRuleKey}
    → Implements (map rule_record rows) m
    → key_of (rule_record row) ≡ ok key
    → Implements (map rule_record (rows ++ row ∷ [])) (update_elem key 1 m)
Implements-append rows row m {key = key} h keyed = record {
  agrees = λ k. ground (
    arith,
    h.agrees k,
    is_one-update_elem key k m,
    has_key_keyed k (rule_record row) keyed,
    any-map-append k rows row,
  );
}

-- On a server whose map implements the stored rules, a 201 leaves a map that implements the rules with
-- the new one.
pub create_rule-Implements :
    (s : Server) (req : Request CreateRuleRequest) (cr : CreateRuleRequest) (env : Env) (w : World)
    {r : Response} {w' : World}
    → req.body ≡ decoded cr
    → s.xdp ≡ some tt
    → create_rule s req env w ≡ (r, w')
    → r.status ≡ 201
    → Implements (rules_in w) w.peer_rules
    → Implements (rules_in w') w'.peer_rules
create_rule-Implements s req cr env w body xdp e created h =
    let (key, keyed, made) = create_rule-RuleCreated s req cr env w body xdp e created in
    rw (made.row, made.loaded) (Implements-append w.db.firewall_rules.rows _ w.peer_rules h keyed)

has_key-own :
    (key k : PeerRuleKey) (r : RuleRecord) → has_key key r ≡ true → has_key k r ≡ same_key key k
has_key-own key k r own = elim (Outcome-cases (key_of r)) [
  | inl (j, keyed) ↦
      let at_key = has_key_keyed key r keyed in
      let j_is : j ≡ key = (same_key_iff j key).0 (sym at_key ∙ own) in
      has_key_keyed k r keyed ∙ ap (λ i. same_key i k) j_is
  | inr (why, unkeyed) ↦ let no = has_key_unkeyed key r unkeyed in ground arith
]

has_key-other :
    (key k : PeerRuleKey) (r : RuleRecord)
    → has_key key r ≡ false
    → same_key key k ≡ true
    → has_key k r ≡ false
has_key-other key k r other same =
    subst (λ i. has_key i r ≡ false) ((same_key_iff key k).0 same) other

-- The rows that are deleted are those of the key.
any-delete :
    (key k : PeerRuleKey) (p : RuleRow → Bool) (rows : List RuleRow)
    → All (λ r. p r ≡ has_key key (rule_record r)) rows
    → any (has_key k) (map rule_record (delete p rows))
      ≡ (if same_key key k then false else any (has_key k) (map rule_record rows))
any-delete key k p [] h = ground arith
any-delete key k p (r ∷ rows) h = ground (
  arith,
  h.0,
  any-delete key k p rows h.1,
  has_key-own key k (rule_record r),
  has_key-other key k (rule_record r),
)

Implements-delete :
    (p : RuleRow → Bool) (rows : List RuleRow) (m : Rules) (key : PeerRuleKey)
    → Implements (map rule_record rows) m
    → All (λ r. p r ≡ has_key key (rule_record r)) rows
    → Implements (map rule_record (delete p rows)) (delete_elem key m)
Implements-delete p rows m key h alone = record {
  agrees = λ k.
      ground (arith, h.agrees k, lookup_elem-delete_elem key k m, any-delete key k p rows alone);
}

-- On a server whose map implements the stored rules, the 204 for a stored rule between two addresses
-- that have a key, which no other stored rule has, leaves a map that implements the rules without it.
pub delete_rule-Implements :
    {B : Type 0} (s : Server) (req : Request B) (id : ℤ) (env : Env) (w : World) {r : Response}
    {w' : World} {found : RuleRecord} {key : PeerRuleKey}
    → parse_int (req.path_value "id") ≡ some id
    → delete_rule s req env w ≡ (r, w')
    → r.status ≡ 204
    → find_rule id w.db.firewall_rules.rows ≡ some found
    → s.xdp ≡ some tt
    → is_ip found.src_ip ≡ true
    → is_ip found.dst_ip ≡ true
    → key_of found ≡ ok key
    → All (λ row. (pos row.id == id) ≡ has_key key (rule_record row)) w.db.firewall_rules.rows
    → Implements (rules_in w) w.peer_rules
    → Implements (rules_in w') w'.peer_rules
delete_rule-Implements s req id env w {key = key} path e deleted there xdp src dst keyed alone h =
    let gone = delete_rule_found s req id env w path e deleted there in
    rw (gone.db_is, delete_rule_unloaded s req id env w path e deleted there xdp src dst keyed)
      (Implements-delete (λ row. pos row.id == id) w.db.firewall_rules.rows w.peer_rules key h
        alone)
