-- ===== src/Act/Keeps.antt =====
-- What an action keeps of the tables and the eBPF map, whatever the outside answers: one rule for
-- each way to build an action.
use wgxdp.Base.{ℕ, Bool, true, false, List, if◌then◌else◌}
use wgxdp.World.{Env, World, Db, PeerRuleKey}
use wgxdp.Act.{
  Outcome, ok, err, Act, pure, fail, lift, ask, reads, gets, on_error, attempt, guard, ◌>>=◌,
  recover, continue,
}

abbrev pub Invariant : Type 1
Invariant = Db → List (PeerRuleKey × ℕ) → Type 0

pub record Keeps {E A : Type 0} (J : Invariant) (m : Act E A) : Type 0 where
  pub at : (env : Env) (w : World) → J w.db w.peer_rules → J (m env w).1.db (m env w).1.peer_rules

module _ {J : Invariant} {E A : Type 0} where
  pub Keeps-pure : (a : A) → Keeps J (pure {E = E} a)
  unfolding pure
  Keeps-pure a = record { at = λ env w h. h }

  pub Keeps-fail : (e : E) → Keeps J (fail {A = A} e)
  unfolding fail
  Keeps-fail e = record { at = λ env w h. h }

  pub Keeps-lift : (r : Outcome E A) → Keeps J (lift r)
  unfolding lift
  Keeps-lift r = record { at = λ env w h. h }

  pub Keeps-ask : (f : Env → ℕ → A) → Keeps J (ask {E = E} f)
  unfolding ask
  Keeps-ask f = record { at = λ env w h. h }

  pub Keeps-reads : (f : Env → A) → Keeps J (reads {E = E} f)
  unfolding reads
  Keeps-reads f = record { at = λ env w h. h }

  pub Keeps-gets : (f : World → A) → Keeps J (gets {E = E} f)
  unfolding gets
  Keeps-gets f = record { at = λ env w h. h }

  pub Keeps-if : (b : Bool) (m n : Act E A) → Keeps J m → Keeps J n → Keeps J (if b then m else n)
  Keeps-if true m n km kn = km
  Keeps-if false m n km kn = kn

module _ {J : Invariant} {E : Type 0} where
  pub Keeps-guard : (b : Bool) (e : E) → Keeps J (guard b e)
  unfolding guard
  Keeps-guard true e = Keeps-pure tt
  Keeps-guard false e = Keeps-fail e

module _ {J : Invariant} {E F A : Type 0} where
  recover-keeps :
      (h : E → Act F A) (env : Env) (r : Outcome E A × World)
      → ((e : E) → Keeps J (h e))
      → J r.1.db r.1.peer_rules
      → J (recover h env r).1.db (recover h env r).1.peer_rules
  recover-keeps h env (ok a, w) kh j = j
  recover-keeps h env (err e, w) kh j = (kh e).at env w j

  pub Keeps-on_error :
      (m : Act E A) (h : E → Act F A)
      → Keeps J m
      → ((e : E) → Keeps J (h e))
      → Keeps J (on_error m h)
  unfolding on_error
  Keeps-on_error m h km kh = record {
    at = λ env w j. recover-keeps h env (m env w) kh (km.at env w j);
  }

  pub Keeps-attempt : (m : Act E A) → Keeps J m → Keeps J (attempt {F = F} m)
  unfolding attempt
  Keeps-attempt m km = record { at = λ env w j. km.at env w j }

module _ {J : Invariant} {E A B : Type 0} where
  continue-keeps :
      (f : A → Act E B) (env : Env) (r : Outcome E A × World)
      → ((a : A) → Keeps J (f a))
      → J r.1.db r.1.peer_rules
      → J (continue f env r).1.db (continue f env r).1.peer_rules
  continue-keeps f env (ok a, w) kf j = (kf a).at env w j
  continue-keeps f env (err e, w) kf j = j

  pub Keeps-bind :
      (m : Act E A) (f : A → Act E B) → Keeps J m → ((a : A) → Keeps J (f a)) → Keeps J (m >>= f)
  unfolding ◌>>=◌
  Keeps-bind m f km kf = record {
    at = λ env w j. continue-keeps f env (m env w) kf (km.at env w j);
  }

pub ruleset keeps_rules = (
  Keeps-pure, Keeps-fail, Keeps-lift, Keeps-ask, Keeps-reads, Keeps-gets, Keeps-if, Keeps-guard,
  Keeps-on_error, Keeps-attempt, Keeps-bind,
)
