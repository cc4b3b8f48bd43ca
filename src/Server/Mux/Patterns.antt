-- ===== src/Server/Mux/Patterns.antt =====
-- What the patterns of `StartServer` make of each path.
use wgxdp.Base.{
  ◌≡◌, refl, String, false, none, List, [], All, ◌∷◌, ◌==◌, string_eq, arith, inl, inr,
  Option-cases,
}
use wgxdp.Server.Mux.{Incoming, Pattern, patterns, fits, find_target}
use wgxdp.Server.Mux.Routing.{call_of_one, call_of_device, call_of_two, call_in}

module _ (m : Incoming) where
  pub root : m.segments ≡ [] → call_in (find_target patterns m) ≡ none
  unfolding find_target
  root path = rw path (ground arith)

  pub peers : m.segments ≡ "peers" ∷ [] → call_in (find_target patterns m) ≡ call_of_one m "peers"
  unfolding find_target
  peers path = rw path (ground arith)

  pub rules : m.segments ≡ "rules" ∷ [] → call_in (find_target patterns m) ≡ call_of_one m "rules"
  unfolding find_target
  rules path = rw path (ground arith)

  pub info :
      m.segments ≡ "server-info" ∷ []
      → call_in (find_target patterns m) ≡ call_of_one m "server-info"
  unfolding find_target
  info path = rw path (ground arith)

  pub joining : m.segments ≡ "join" ∷ [] → call_in (find_target patterns m) ≡ call_of_one m "join"
  unfolding find_target
  joining path = rw path (ground arith)

  pub peer :
      (b : String)
      → m.segments ≡ "peers" ∷ b ∷ []
      → call_in (find_target patterns m) ≡ call_of_two m "peers" b
  unfolding find_target
  peer b path = rw path (ground arith)

  pub rule :
      (b : String)
      → m.segments ≡ "rules" ∷ b ∷ []
      → call_in (find_target patterns m) ≡ call_of_two m "rules" b
  unfolding find_target
  rule b path = rw path (ground arith)

  abbrev IsPassed : Pattern → Type 0
  IsPassed p = call_in (fits p m) ≡ none

  find_target-passed : (ps : List Pattern) → All IsPassed ps → call_in (find_target ps m) ≡ none
  unfolding find_target
  find_target-passed [] passed = refl
  find_target-passed (p ∷ ps) passed =
      let rest = find_target-passed ps passed.1 in
      elim (Option-cases (fits p m)) [
        | inl miss ↦ rw (miss, find_target) rest
        | inr (t, hit) ↦ rw (hit, find_target) (rw hit at passed.0)
      ]

  pub deep :
      (a b c : String) (ss : List String)
      → m.segments ≡ a ∷ b ∷ c ∷ ss
      → call_in (find_target patterns m) ≡ none
  deep a b c ss path = find_target-passed patterns (rw path (ground arith))

  pub other_one :
      (a : String)
      → m.segments ≡ a ∷ []
      → ("peers" == a) ≡ false
      → ("rules" == a) ≡ false
      → ("server-info" == a) ≡ false
      → ("join" == a) ≡ false
      → call_in (find_target patterns m) ≡ none
  other_one a path p r i j = find_target-passed patterns (rw path (rw (p, r, i, j) (ground arith)))

  pub other_two :
      (a b : String)
      → m.segments ≡ a ∷ b ∷ []
      → ("peers" == a) ≡ false
      → ("rules" == a) ≡ false
      → ("device" == a) ≡ false
      → call_in (find_target patterns m) ≡ none
  other_two a b path p r d = find_target-passed patterns (rw path (rw (p, r, d) (ground arith)))

  pub verify :
      m.segments ≡ "device" ∷ "verify" ∷ []
      → call_in (find_target patterns m) ≡ call_of_device m "verify"
  unfolding find_target
  verify path = rw path (ground arith)

  pub code :
      m.segments ≡ "device" ∷ "code" ∷ []
      → call_in (find_target patterns m) ≡ call_of_device m "code"
  unfolding find_target
  code path = rw path (ground arith)

  pub token :
      m.segments ≡ "device" ∷ "token" ∷ []
      → call_in (find_target patterns m) ≡ call_of_device m "token"
  unfolding find_target
  token path = rw path (ground arith)

  pub other_device :
      (b : String)
      → m.segments ≡ "device" ∷ b ∷ []
      → ("verify" == b) ≡ false
      → ("code" == b) ≡ false
      → ("token" == b) ≡ false
      → call_in (find_target patterns m) ≡ none
  other_device b path v c t = find_target-passed patterns (rw path (rw (v, c, t) (ground arith)))
