-- ===== src/Sql/Rows.antt =====
-- How the statements change rows that are to be distinct, and a fact about every row.
use wgxdp.Base.{
  ◌<◌, ◌≡◌, refl, Bool, true, false, List, [], ◌∷◌, ◌++◌, any, All, All-append, arith,
  if◌then◌else◌, ◌↔◌, Bool-cases, inl, inr,
}
use wgxdp.Sql.{delete, update, affected, select}

module _ {ℓ} {R : Type ℓ} where
  -- No row is the same as a later one, by a test such as the equality of a column.
  abbrev pub AreDistinct : (R → R → Bool) → List R → Type 0
  AreDistinct same [] = Unit
  AreDistinct same (r ∷ rs) = All (λ s. same r s ≡ false) rs × AreDistinct same rs

module _ {ℓ κ} {R : Type ℓ} (P : R → Type κ) (p : R → Bool) where
  pub All-delete : (rs : List R) → All P rs → All P (delete p rs)
  All-delete [] h = tt
  All-delete (r ∷ rs) h = elim (Bool-cases (p r)) [
    | inl gone ↦ rw gone (All-delete rs h.1)
    | inr kept ↦ rw kept (h.0, All-delete rs h.1)
  ]

  pub All-select : (rs : List R) → All P rs → All P (select p rs)
  All-select [] h = tt
  All-select (r ∷ rs) h = elim (Bool-cases (p r)) [
    | inl kept ↦ rw kept (h.0, All-select rs h.1)
    | inr gone ↦ rw gone (All-select rs h.1)
  ]

  pub All-update :
      (f : R → R)
      → ((r : R) → P r → p r ≡ true → P (f r))
      → (rs : List R) → All P rs
      → All P (update p f rs)
  All-update f keep [] h = tt
  All-update f keep (r ∷ rs) h = elim (Bool-cases (p r)) [
    | inl hit ↦ rw hit (keep r h.0 hit, All-update f keep rs h.1)
    | inr miss ↦ rw miss (h.0, All-update f keep rs h.1)
  ]

module _ {ℓ} {R : Type ℓ} where
  -- No row that a DELETE names is left, and the others are all there.
  pub any-delete_self : (p : R → Bool) (rs : List R) → any p (delete p rs) ≡ false
  any-delete_self p [] = refl
  any-delete_self p (r ∷ rs) = elim (Bool-cases (p r)) [
    | inl gone ↦ rw gone (any-delete_self p rs)
    | inr kept ↦ rw (kept, kept) (any-delete_self p rs)
  ]

  pub affected-any : (p : R → Bool) (rs : List R) → any p rs ≡ false → affected p rs ≡ 0
  affected-any p [] h = refl
  affected-any p (r ∷ rs) h = ground (arith, affected-any p rs)

  pub affected-any_iff : (p : R → Bool) (rs : List R) → (0 < affected p rs) ↔ (any p rs ≡ true)
  affected-any_iff p [] = ground arith
  affected-any_iff p (r ∷ rs) = ground (arith, affected-any_iff p rs)

  pub any-false_mono :
      (p q : R → Bool) (rs : List R)
      → ((r : R) → p r ≡ false → q r ≡ false)
      → any p rs ≡ false
      → any q rs ≡ false
  any-false_mono p q [] imp h = refl
  any-false_mono p q (r ∷ rs) imp h =
      ground (arith, imp r (ground arith), any-false_mono p q rs imp (ground arith))

  pub All-any-false : (p : R → Bool) (rs : List R) → any p rs ≡ false → All (λ r. p r ≡ false) rs
  All-any-false p [] h = tt
  All-any-false p (r ∷ rs) h = (ground arith, All-any-false p rs (ground arith))

module _ {ℓ} {R : Type ℓ} (same : R → R → Bool) where
  pub AreDistinct-delete :
      (p : R → Bool) (rs : List R) → AreDistinct same rs → AreDistinct same (delete p rs)
  AreDistinct-delete p [] h = tt
  AreDistinct-delete p (r ∷ rs) h = elim (Bool-cases (p r)) [
    | inl gone ↦ rw gone (AreDistinct-delete p rs h.1)
    | inr kept ↦ rw kept (All-delete (λ s. same r s ≡ false) p rs h.0, AreDistinct-delete p rs h.1)
  ]

  pub AreDistinct-append :
      (rs : List R) (row : R)
      → any (λ s. same s row) rs ≡ false
      → AreDistinct same rs
      → AreDistinct same (rs ++ row ∷ [])
  AreDistinct-append [] row new h = (tt, tt)
  AreDistinct-append (r ∷ rs) row new h = (
    All-append (λ s. same r s ≡ false) rs (row ∷ []) h.0 (ground arith, tt),
    AreDistinct-append rs row (ground arith) h.1,
  )

  module _ (p : R → Bool) (f : R → R) (left : (a b : R) → same (f a) b ≡ same a b)
      (right : (a b : R) → same a (f b) ≡ same a b) where
    All-update_same :
        (a : R) (rs : List R)
        → All (λ s. same a s ≡ false) rs
        → All (λ s. same (if p a then f a else a) s ≡ false) (update p f rs)
    All-update_same a [] h = tt
    All-update_same a (r ∷ rs) h =
        (ground (arith, left a r, right a r, left a (f r)), All-update_same a rs h.1)

    pub AreDistinct-update : (rs : List R) → AreDistinct same rs → AreDistinct same (update p f rs)
    AreDistinct-update [] h = tt
    AreDistinct-update (r ∷ rs) h = (All-update_same r rs h.0, AreDistinct-update rs h.1)
