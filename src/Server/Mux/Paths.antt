-- ===== src/Server/Mux/Paths.antt =====
-- The patterns of `StartServer` against the routes by path and method.
use wgxdp.Base.{
  ◌≡◌, refl, ◌∙◌, subst, String, true, List, [], ◌∷◌, ◌==◌, ==_iff, string_eq, arith, inl, inr,
  Bool-cases,
}
use wgxdp.Server.Mux.{Incoming, patterns, find_target}
use wgxdp.Server.Mux.Routing.{
  call_of, call_of_one, call_of_device, call_of_two, call_of_path, call_in,
}
use wgxdp.Server.Mux.Patterns.{
  root, peers, rules, info, joining, peer, rule, deep, other_one, other_two, verify, code, token,
  other_device,
}

module _ (m : Incoming) where
  at_one :
      {l a : String}
      → (l == a) ≡ true
      → (m.segments ≡ l ∷ [] → call_in (find_target patterns m) ≡ call_of_one m l)
      → m.segments ≡ a ∷ []
      → call_in (find_target patterns m) ≡ call_of_one m a
  at_one {l} {a} hit f path =
      subst (λ x. m.segments ≡ x ∷ [] → call_in (find_target patterns m) ≡ call_of_one m x)
        ((==_iff l a).0 hit) f path

  one : (a : String) → m.segments ≡ a ∷ [] → call_in (find_target patterns m) ≡ call_of_one m a
  one a path = elim (Bool-cases ("peers" == a)) [
    | inl hit ↦ at_one hit (peers m) path
    | inr p ↦ elim (Bool-cases ("rules" == a)) [
      | inl hit ↦ at_one hit (rules m) path
      | inr r ↦ elim (Bool-cases ("server-info" == a)) [
        | inl hit ↦ at_one hit (info m) path
        | inr i ↦ elim (Bool-cases ("join" == a)) [
          | inl hit ↦ at_one hit (joining m) path
          | inr j ↦ rw (p, r, i, j) (other_one m a path p r i j)
        ]
      ]
    ]
  ]

  at_device :
      {l b : String}
      → (l == b) ≡ true
      → (m.segments ≡ "device" ∷ l ∷ [] → call_in (find_target patterns m) ≡ call_of_device m l)
      → m.segments ≡ "device" ∷ b ∷ []
      → call_in (find_target patterns m) ≡ call_of_device m b
  at_device {l} {b} hit f path =
      subst
        (λ x.
          m.segments ≡ "device" ∷ x ∷ [] → call_in (find_target patterns m) ≡ call_of_device m x)
        ((==_iff l b).0 hit) f path

  device :
      (b : String)
      → m.segments ≡ "device" ∷ b ∷ []
      → call_in (find_target patterns m) ≡ call_of_device m b
  device b path = elim (Bool-cases ("verify" == b)) [
    | inl hit ↦ at_device hit (verify m) path
    | inr v ↦ elim (Bool-cases ("code" == b)) [
      | inl hit ↦ at_device hit (code m) path
      | inr c ↦ elim (Bool-cases ("token" == b)) [
        | inl hit ↦ at_device hit (token m) path
        | inr t ↦ rw (v, c, t) (other_device m b path v c t)
      ]
    ]
  ]

  at_two :
      {l a b : String}
      → (l == a) ≡ true
      → (m.segments ≡ l ∷ b ∷ [] → call_in (find_target patterns m) ≡ call_of_two m l b)
      → m.segments ≡ a ∷ b ∷ []
      → call_in (find_target patterns m) ≡ call_of_two m a b
  at_two {l} {a} {b} hit f path =
      subst (λ x. m.segments ≡ x ∷ b ∷ [] → call_in (find_target patterns m) ≡ call_of_two m x b)
        ((==_iff l a).0 hit) f path

  two :
      (a b : String)
      → m.segments ≡ a ∷ b ∷ []
      → call_in (find_target patterns m) ≡ call_of_two m a b
  two a b path = elim (Bool-cases ("device" == a)) [
    | inl hit ↦ at_two hit (device b) path
    | inr d ↦ elim (Bool-cases ("peers" == a)) [
      | inl hit ↦ at_two hit (peer m b) path
      | inr p ↦ elim (Bool-cases ("rules" == a)) [
        | inl hit ↦ at_two hit (rule m b) path
        | inr r ↦ rw (d, p, r) (other_two m a b path p r d ∙ ground arith)
      ]
    ]
  ]

  find_target-call_of_path :
      (ss : List String) → m.segments ≡ ss → call_in (find_target patterns m) ≡ call_of_path m ss
  find_target-call_of_path [] path = root m path
  find_target-call_of_path (a ∷ []) path = one a path
  find_target-call_of_path (a ∷ b ∷ []) path = two a b path
  find_target-call_of_path (a ∷ b ∷ c ∷ ss) path = deep m a b c ss path

-- The patterns lead to the call of the path and the method, and to none where there is none.
pub find_target-call_of : (m : Incoming) → call_in (find_target patterns m) ≡ call_of m
find_target-call_of m = find_target-call_of_path m m.segments refl
