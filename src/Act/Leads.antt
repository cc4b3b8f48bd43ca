-- ===== src/Act/Leads.antt =====
-- From one fact about the tables and the eBPF map to another: what holds after an action that has
-- returned, which may depend on its result, and what holds after one that has failed.
use wgxdp.Base.{◌≡◌, refl, ℕ, List}
use wgxdp.World.{Env, World, Db, PeerRuleKey}
use wgxdp.Act.{Outcome, ok, err, Act, pure, fail, on_error, ◌>>=◌, recover, continue}
use wgxdp.Act.Keeps.{Invariant, Keeps}

abbrev pub After : {E A : Type 0} → (A → Invariant) → Invariant → Outcome E A × World → Type 0
After K F (ok a, w) = K a w.db w.peer_rules
After K F (err e, w) = F w.db w.peer_rules

pub record Leads {E A : Type 0} (env : Env) (J : Invariant) (K : A → Invariant) (F : Invariant)
    (m : Act E A) : Type 0 where
  pub at : (w : World) → J w.db w.peer_rules → After K F (m env w)

pub After-kept :
    {E A : Type 0} (J : Invariant) (r : Outcome E A × World)
    → J r.1.db r.1.peer_rules
    → After (λ _. J) J r
After-kept J (ok a, w) j = j
After-kept J (err e, w) j = j

module _ {E A : Type 0} (env : Env) {J : Invariant} where
  -- What is kept holds after it, however it ends.
  pub Leads-Keeps : (m : Act E A) → Keeps J m → Leads env J (λ _. J) J m
  Leads-Keeps m km = record { at = λ w j. After-kept J (m env w) (km.at env w j) }

  pub Leads-pure :
      {K : A → Invariant} {F : Invariant} (a : A)
      → ((w : World) → J w.db w.peer_rules → K a w.db w.peer_rules)
      → Leads env J K F (pure {E = E} a)
  unfolding pure
  Leads-pure a h = record { at = h }

continue-After :
    {E A B : Type 0} (env : Env) (K : A → Invariant) (L : B → Invariant) (F : Invariant)
    (f : A → Act E B) (r : Outcome E A × World)
    → ((a : A) → Leads env (K a) L F (f a))
    → After K F r
    → After L F (continue f env r)
continue-After env K L F f (ok a, w) kf h = (kf a).at w h
continue-After env K L F f (err e, w) kf h = h

recover-After :
    {E G A : Type 0} (env : Env) (K : A → Invariant) (F : Invariant) (h : E → G)
    (r : Outcome E A × World)
    → After K F r
    → After K F (recover (λ e. fail (h e)) env r)
unfolding fail
recover-After env K F h (ok a, w) j = j
recover-After env K F h (err e, w) j = j

module _ {E A : Type 0} (env : Env) {J : Invariant} {K : A → Invariant} {F : Invariant}
    (m : Act E A) (km : Leads env J K F m) where
  pub Leads-bind :
      {B : Type 0} {L : B → Invariant} (f : A → Act E B)
      → ((a : A) → Leads env (K a) L F (f a))
      → Leads env J L F (m >>= f)
  unfolding ◌>>=◌
  Leads-bind {L = L} f kf = record {
    at = λ w j. continue-After env K L F f (m env w) kf (km.at w j);
  }

  -- An error that is passed on in another form.
  pub Leads-on_error : {G : Type 0} (h : E → G) → Leads env J K F (on_error m (λ e. fail (h e)))
  unfolding on_error
  Leads-on_error h = record { at = λ w j. recover-After env K F h (m env w) (km.at w j) }

  -- A weaker fact about the failures.
  pub Leads-mono :
      {F' : Invariant}
      → ((db : Db) (rules : List (PeerRuleKey × ℕ)) → F db rules → F' db rules)
      → Leads env J K F' m
  Leads-mono {F' = F'} weaker = record { at = λ w j. weaken (m env w) (km.at w j) }
    where
      weaken : (r : Outcome E A × World) → After K F r → After K F' r
      weaken (ok a, w) j = j
      weaken (err e, w) j = weaker w.db w.peer_rules j

-- A call that keeps the fact that holds before it, and what follows.
pub Leads-Keeps-bind :
    {E A B : Type 0} (env : Env) {J : Invariant} {L : B → Invariant} (m : Act E A) (f : A → Act E B)
    → Keeps J m
    → ((a : A) → Leads env J L J (f a))
    → Leads env J L J (m >>= f)
Leads-Keeps-bind env m f km kf = Leads-bind env m (Leads-Keeps env m km) f kf

-- What holds after a result, from what holds of its two cases.
pub After-cases :
    {E A : Type 0} (K : A → Invariant) (F : Invariant) (r : Outcome E A × World)
    → ((a : A) → r.0 ≡ ok a → K a r.1.db r.1.peer_rules)
    → ((e : E) → r.0 ≡ err e → F r.1.db r.1.peer_rules)
    → After K F r
After-cases K F (ok a, w) done failed = done a refl
After-cases K F (err e, w) done failed = failed e refl
