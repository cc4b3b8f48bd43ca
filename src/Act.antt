-- ===== src/Act.antt =====
-- Go functions that call the outside: the state is threaded, what the outside answers is read from
-- an environment at a running count of the calls made so far, and a call may fail. What was done
-- before a failure stays done, so the state comes back beside the error.
pub mod Keeps
pub mod Leads
use wgxdp.Base.{◌≡◌, ap, sym, ◌∙◌, refl, ◌⊎◌, inl, inr, ℕ, suc, Bool, true, false}
use wgxdp.World.{Env, World}

pub data Outcome {ℓ κ} (E : Type ℓ) (A : Type κ) : Type (ℓ ⊔ κ) where
  ok : A → Outcome E A
  err : E → Outcome E A

pub Outcome-cases :
    {E A : Type 0} (r : Outcome E A) → ((a : A) × (r ≡ ok a)) ⊎ ((e : E) × (r ≡ err e))
Outcome-cases (ok a) = inl (a, refl)
Outcome-cases (err e) = inr (e, refl)

-- `E` is `String` for an `error`, and the response for a handler that has answered early.
abbrev pub Act : Type 0 → Type 0 → Type 0
Act E A = Env → World → Outcome E A × World

module _ {E A : Type 0} where
  unfoldable pub pure : A → Act E A
  pure a env w = (ok a, w)

  unfoldable pub fail : E → Act E A
  fail e env w = (err e, w)

  unfoldable pub lift : Outcome E A → Act E A
  lift r env w = (r, w)

  -- One call of the outside, which answers by the environment.
  unfoldable pub ask : (Env → ℕ → A) → Act E A
  ask answer env w = (ok (answer env w.tick), record w { tick = suc w.tick })

  -- What the environment holds for good, and what the state holds now.
  unfoldable pub reads : (Env → A) → Act E A
  reads f env w = (ok (f env), w)

  unfoldable pub gets : (World → A) → Act E A
  gets f env w = (ok (f w), w)

unfoldable pub modify : {E : Type 0} → (World → World) → Act E (Unit {0})
modify f env w = (ok tt, f w)

module _ {E F A : Type 0} where
  abbrev pub recover : (E → Act F A) → Env → Outcome E A × World → Outcome F A × World
  recover h env (ok a, w) = (ok a, w)
  recover h env (err e, w) = h e env w

  -- `if err != nil { … }` after a call.
  unfoldable pub on_error : Act E A → (E → Act F A) → Act F A
  on_error m h env w = recover h env (m env w)

  abbrev pub attempt_of : Outcome E A × World → Outcome F (Outcome E A) × World
  attempt_of (r, w) = (ok r, w)

  -- A call whose error is looked at, or ignored, by what follows.
  unfoldable pub attempt : Act E A → Act F (Outcome E A)
  attempt m env w = attempt_of (m env w)

unfoldable pub guard : {E : Type 0} → Bool → E → Act E (Unit {0})
unfolding pure fail
guard true e = pure tt
guard false e = fail e

module _ {E A B : Type 0} where
  abbrev pub continue : (A → Act E B) → Env → Outcome E A × World → Outcome E B × World
  continue f env (ok a, w) = f a env w
  continue f env (err e, w) = (err e, w)

  infixl 10 ◌>>=◌ ◌>>◌
  -- To unfold this is to unfold all the ways to build an action.
  unfoldable pub ◌>>=◌ : Act E A → (A → Act E B) → Act E B
  unfolding pure fail lift ask reads gets modify on_error attempt guard
  ◌>>=◌ m f env w = continue f env (m env w)

  abbrev pub ◌>>◌ : Act E A → Act E B → Act E B
  m >> n = m >>= λ _. n

module _ {E A B : Type 0} where
  -- How a chain of two calls has ended: in the second, or in an error of the first.
  pub bind-cases :
      (m : Act E A) (f : A → Act E B) (env : Env) (w : World) {o : Outcome E B} {w' : World}
      → (m >>= f) env w ≡ (o, w')
      → ((a : A) × (v : World) × (m env w ≡ (ok a, v)) × (f a env v ≡ (o, w')))
        ⊎ ((e : E) × (m env w ≡ (err e, w')) × (o ≡ err e))
  unfolding ◌>>=◌
  bind-cases m f env w {o = o} {w' = w'} e = at (m env w) refl e
    where
      at :
          (x : Outcome E A × World)
          → m env w ≡ x
          → continue f env x ≡ (o, w')
          → ((a : A) × (v : World) × (m env w ≡ (ok a, v)) × (f a env v ≡ (o, w')))
            ⊎ ((e : E) × (m env w ≡ (err e, w')) × (o ≡ err e))
      at (ok a, v) q c = inl (a, v, q, c)
      at (err e, v) q c = inr (e, q ∙ ap (λ z. (err e, z)) (ap (λ z. z.1) c), sym (ap (λ z. z.0) c))
