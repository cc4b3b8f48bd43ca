-- ===== src/Server/Leads.antt =====
-- What holds after the parts of a handler.
use wgxdp.Base.{◌≡◌, some}
use wgxdp.World.{Env, World}
use wgxdp.Act.{Act, Outcome, ok, err}
use wgxdp.Act.Keeps.{Invariant}
use wgxdp.Act.Leads.{After, Leads}
use wgxdp.Server.{Server, Response, Handler, handler, settled}
use wgxdp.Server.Rules.{with_xdp}

pub Leads-with_xdp :
    {J K F : Invariant} (env : Env) (s : Server) (m : Act Response (Unit {0}))
    → s.xdp ≡ some tt
    → Leads env J (λ _. K) F m
    → Leads env J (λ _. K) F (with_xdp s m)
unfolding with_xdp
Leads-with_xdp env s m xdp h = rw xdp h

settled-After :
    (J : Invariant) (r : Outcome Response Response × World)
    → After (λ _. J) J r
    → J (settled r).1.db (settled r).1.peer_rules
settled-After J (ok a, w) j = j
settled-After J (err e, w) j = j

-- The same of a handler, which answers in any case.
pub record Reaches (env : Env) (J K : Invariant) (h : Handler) : Type 0 where
  pub at : (w : World) → J w.db w.peer_rules → K (h env w).1.db (h env w).1.peer_rules

pub Leads-handler :
    {J K : Invariant} (env : Env) (m : Act Response Response)
    → Leads env J (λ _. K) K m
    → Reaches env J K (handler m)
unfolding handler
Leads-handler {K = K} env m h = record { at = λ w j. settled-After K (m env w) (h.at w j) }
