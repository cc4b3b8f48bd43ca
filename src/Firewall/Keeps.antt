-- ===== src/Firewall/Keeps.antt =====
-- The two methods of `Firewall` that write touch no table.
use wgxdp.Base.{ℕ, ◌≡◌, sym, subst, String, arith}
use wgxdp.Base.Int.{ℤ}
use wgxdp.World.{World, Db, PeerRuleKey}
use wgxdp.Act.Keeps.{Invariant, Keeps}
use wgxdp.Sql.Keeps.{sql_rules}
use wgxdp.Firewall.{
  put_rule, put_world, put_elem, delete_rule, delete_world, add_peer_rule, remove_peer_rule,
}

put_elem-db : (k : PeerRuleKey) (v : ℕ) (w : World) → (put_elem k v w).1.db ≡ w.db
put_elem-db k v w = ground arith

abbrev pub Tables : (Db → Type 0) → Invariant
Tables P db _ = P db

module _ (P : Db → Type 0) where
  put_world-Keeps : (k : PeerRuleKey) (v : ℕ) → Keeps (Tables P) (put_world k v)
  unfolding put_world
  put_world-Keeps k v = record { at = λ env w h. subst (λ db. P db) (sym (put_elem-db k v w)) h }

  put_rule-Keeps : (k : PeerRuleKey) (v : ℕ) → Keeps (Tables P) (put_rule k v)
  unfolding put_rule
  put_rule-Keeps k v = search (sql_rules, put_world-Keeps)

  delete_world-Keeps : (k : PeerRuleKey) → Keeps (Tables P) (delete_world k)
  unfolding delete_world
  delete_world-Keeps k = record { at = λ env w h. h }

  delete_rule-Keeps : (k : PeerRuleKey) → Keeps (Tables P) (delete_rule k)
  unfolding delete_rule
  delete_rule-Keeps k = search (sql_rules, delete_world-Keeps)

  pub add_peer_rule-Keeps :
      (src dst : String) (port : ℤ) (proto : ℕ)
      → Keeps (Tables P) (add_peer_rule src dst port proto)
  unfolding add_peer_rule
  add_peer_rule-Keeps src dst port proto = search (sql_rules, put_rule-Keeps)

  pub remove_peer_rule-Keeps :
      (src dst : String) (port : ℤ) (proto : ℕ)
      → Keeps (Tables P) (remove_peer_rule src dst port proto)
  unfolding remove_peer_rule
  remove_peer_rule-Keeps src dst port proto = search (sql_rules, delete_rule-Keeps)
