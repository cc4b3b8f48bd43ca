-- ===== src/Server/Mux/Open.antt =====
-- What a request without a user can reach.
use wgxdp.Base.{
  String, ◌<>◌, Bool, true, false, ◌||◌, ◌&&◌, ◌≡◌, Option, none, some, map, All, Option-cases,
  Bool-cases, inl, inr, subst, ◌∙◌, List, [], ◌∷◌, ◌==◌, string_eq, ==_iff, ap, arith, refl,
}
use wgxdp.World.{Env, World}
use wgxdp.Server.{Server}
use wgxdp.Server.Middleware.{get_auth_header, get_auth_user, require_auth, session_lost_response}
use wgxdp.Server.Access.{user_of, IsRefused, serve_protected-IsRefused}
use wgxdp.Server.Calls.{Protected, Call, protected, serve}
use wgxdp.Server.Mux.{
  Incoming, path_of, joined_by_slash, Segment, literal, match_path, Pattern, Target, api, fits,
  guarded, public_file, unguarded_route, patterns, find_target, takes, answered, Site, serve_http,
}

-- The paths that StartServer leaves open, each as one text.
abbrev is_api : String → Bool
is_api path = path == "/join" || (path == "/device/code" || path == "/device/token")

abbrev is_file : String → Bool
is_file path =
    path == "/sw.js"
    || (path == "/manifest.json" || (path == "/icon-192.png" || path == "/icon-512.png"))

abbrev pub is_open : Incoming → Bool
is_open m = is_api (path_of m) || (("GET" == m.method || m.method == "HEAD") && is_file (path_of m))

-- A target that asks for the user of the request.
pub data IsClosed (s : Server) (m : Incoming) : Target → Type 0 where
  closed :
      (c : Protected)
      → user_of s c ≡ m.header (get_auth_header s)
      → IsClosed s m (api (protected c))

literals :
    (ls segments : List String) {values : List (String × String)}
    → match_path (map literal ls) segments ≡ some values
    → segments ≡ ls
literals [] [] e = refl
literals [] (s ∷ ss) e = cc
literals (l ∷ ls) [] e = cc
literals (l ∷ ls) (s ∷ ss) e = elim (Bool-cases (l == s)) [
  | inl same ↦ let rest = literals ls ss (rw same at e) in ground (arith, ==_iff l s)
  | inr other ↦ absurd (ground arith)
]

not_and : (a b c : Bool) → (a || (b && c)) ≡ false → b ≡ true → c ≡ true → ⊥
not_and a b c shut taken known = ground arith

not_or : (a b : Bool) → (a || b) ≡ false → a ≡ true → ⊥
not_or a b shut known = ground arith

-- How a pattern has fitted.
pub fits_inv :
    (p : Pattern) (m : Incoming) {t : Target}
    → fits p m ≡ some t
    → (values : List (String × String)) × (takes p.method m.method ≡ true)
      × (match_path p.path m.segments ≡ some values)
      × (p.target m values ≡ t)
fits_inv p m e = elim (Bool-cases (takes p.method m.method)) [
  | inl taken ↦ elim (Option-cases (match_path p.path m.segments)) [
    | inl miss ↦ absurd (ground arith)
    | inr (values, hit) ↦ (values, taken, hit, ground arith)
  ]
  | inr other ↦ absurd (ground arith)
]

-- Where the pattern leads, a request needs a user.
record Closes (s : Server) (m : Incoming) (p : Pattern) : Type 0 where
  at : (t : Target) → fits p m ≡ some t → IsClosed s m t

module _ (s : Server) (m : Incoming) where
  guarded-Closes :
      (method : String) (path : List Segment)
      (target : Incoming → List (String × String) → Protected)
      → ((values : List (String × String))
          → user_of s (target m values) ≡ m.header (get_auth_header s))
      → Closes s m (guarded method path target)
  guarded-Closes method path target user = record {
    at = λ t e.
        let (values, _, _, same) = fits_inv (guarded method path target) m e in
        subst (IsClosed s m) same (closed (target m values) (user values));
  }

  find_target-IsClosed :
      (ps : List Pattern) {t : Target}
      → All (Closes s m) ps
      → find_target ps m ≡ some t
      → IsClosed s m t
  unfolding find_target
  find_target-IsClosed [] each e = cc
  find_target-IsClosed (p ∷ ps) each e = elim (Option-cases (fits p m)) [
    | inl miss ↦ find_target-IsClosed ps each.1 (rw (miss, find_target) at e)
    | inr (u, hit) ↦ subst (IsClosed s m) (ground arith) (each.0.at u hit)
  ]

  module _ (shut : is_open m ≡ false) where
    public_file-Closes :
        (name : String) → is_file ("/" <> name) ≡ true → Closes s m (public_file name)
    public_file-Closes name known = record {
      at = λ t e.
          let (_, taken, hit, _) = fits_inv (public_file name) m e in
          let path : path_of m ≡ "/" <> name =
            ap (λ ss. "/" <> joined_by_slash ss) (literals (name ∷ []) m.segments hit) in
          absurd (
            not_and (is_api (path_of m)) _ (is_file (path_of m)) shut taken
              (ap is_file path ∙ known));
    }

    unguarded_route-Closes :
        (ls : List String) (target : Incoming → Call)
        → is_api ("/" <> joined_by_slash ls) ≡ true
        → Closes s m (unguarded_route (map literal ls) target)
    unguarded_route-Closes ls target known = record {
      at = λ t e.
          let (_, _, hit, _) = fits_inv (unguarded_route (map literal ls) target) m e in
          let path : path_of m ≡ "/" <> joined_by_slash ls =
            ap (λ ss. "/" <> joined_by_slash ss) (literals ls m.segments hit) in
          absurd (not_or (is_api (path_of m)) _ shut (ap is_api path ∙ known));
    }

    patterns-Closes : All (Closes s m) patterns
    unfolding get_auth_user
    patterns-Closes = (
      guarded-Closes _ _ _ (λ values. refl),
      (
        guarded-Closes _ _ _ (λ values. refl),
        (
          guarded-Closes _ _ _ (λ values. refl),
          (
            guarded-Closes _ _ _ (λ values. refl),
            (
              guarded-Closes _ _ _ (λ values. refl),
              (
                guarded-Closes _ _ _ (λ values. refl),
                (
                  guarded-Closes _ _ _ (λ values. refl),
                  (
                    guarded-Closes _ _ _ (λ values. refl),
                    (
                      unguarded_route-Closes ("join" ∷ []) _ refl,
                      (
                        unguarded_route-Closes ("device" ∷ "code" ∷ []) _ refl,
                        (
                          unguarded_route-Closes ("device" ∷ "token" ∷ []) _ refl,
                          (
                            public_file-Closes "sw.js" refl,
                            (
                              public_file-Closes "manifest.json" refl,
                              (
                                public_file-Closes "icon-192.png" refl,
                                (public_file-Closes "icon-512.png" refl, tt),
                              ),
                            ),
                          ),
                        ),
                      ),
                    ),
                  ),
                ),
              ),
            ),
          ),
        ),
      ),
    )

    answered-IsRefused :
        (site : Site) (env : Env) (w : World) (o : Option Target)
        → m.header (get_auth_header s) ≡ ""
        → ((t : Target) → o ≡ some t → IsClosed s m t)
        → IsRefused w (answered s site m o env w)
    unfolding answered serve require_auth get_auth_user session_lost_response
    answered-IsRefused site env w none nobody closes =
        rw ((==_iff (m.header (get_auth_header s)) "").1 nobody)
          (record { status = refl; challenge = refl; same = refl })
    answered-IsRefused site env w (some t) nobody closes = at (closes t refl)
      where
        at : {u : Target} → IsClosed s m u → IsRefused w (answered s site m (some u) env w)
        at (closed c user) = serve_protected-IsRefused s c env w (user ∙ nobody)

    -- A request without a user, on a path that is not open, is answered with the session's loss, and
    -- changes nothing.
    pub serve_http-IsRefused :
        (site : Site) (env : Env) (w : World)
        → m.header (get_auth_header s) ≡ ""
        → IsRefused w (serve_http s site m env w)
    unfolding serve_http
    serve_http-IsRefused site env w nobody =
        answered-IsRefused site env w (find_target patterns m) nobody
          (λ t found. find_target-IsClosed patterns patterns-Closes found)
