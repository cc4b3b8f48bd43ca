-- ===== src/Sql/Past.antt =====
-- What a call with a wrapped error has done.
use wgxdp.Base.{◌≡◌, refl, ap, ◌∙◌, String, string_eq, ◌<>◌, arith}
use wgxdp.World.{Env, World}
use wgxdp.Act.{Act, Outcome, ok, err, fail, on_error, recover}
use wgxdp.Sql.{wrap_error}

-- A call with a wrapped error that has returned.
pub past_wrap :
    {A : Type 0} (what : String) (m : Act String A) (env : Env) (w : World) {a : A} {v : World}
    → wrap_error what m env w ≡ (ok a, v)
    → m env w ≡ (ok a, v)
unfolding on_error fail
past_wrap {A = A} what m env w {a = a} {v = v} e = at (m env w) refl e
  where
    at :
        (r : Outcome String A × World)
        → m env w ≡ r
        → recover (λ e. fail (what <> e)) env r ≡ (ok a, v)
        → m env w ≡ (ok a, v)
    at (ok b, u) q e = q ∙ e
    at (err x, u) q e = absurd (ground (arith, ap (λ r. r.0) e))
