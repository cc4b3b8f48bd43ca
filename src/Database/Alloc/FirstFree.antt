-- ===== src/Database/Alloc/FirstFree.antt =====
-- What the search for a free address finds.
use wgxdp.Base.{
  ℕ, zero, suc, ◌+◌, ◌-◌, ◌%◌, ◌≤◌, ◌<◌, ◌≡◌, ◌⊎◌, inl, inr, refl, String, true, false, List, arith,
  Bool-cases, ltb, ltb_iff,
}
use wgxdp.Database.Alloc.{
  u32, address_text, is_used, Search, found, exhausted, out_of_fuel, search_from,
}

-- The first free address of a range, with all below it in use; or none is free.
pub record IsFirstFree (used : List String) (lo hi : ℕ) (text : String) : Type 0 where
  pub address : ℕ
  pub from : lo ≤ address
  pub below : address < hi
  pub spelled : text ≡ address_text address
  pub free : is_used used address ≡ false
  pub lower : (m : ℕ) → lo ≤ m → m < address → is_used used m ≡ true

abbrev pub IsFull : List String → ℕ → ℕ → Type 0
IsFull used lo hi = (m : ℕ) → lo ≤ m → m < hi → is_used used m ≡ true

-- What each answer of the search says.
abbrev pub Finds : List String → ℕ → ℕ → Search → Type 0
Finds used lo hi (found text) = IsFirstFree used lo hi text
Finds used lo hi exhausted = IsFull used lo hi
Finds used lo hi out_of_fuel = ⊥

module _ (used : List String) (hi : ℕ) where
  used_or_above :
      (lo : ℕ) → is_used used lo ≡ true → (m : ℕ) → lo ≤ m → (lo + 1 ≤ m) ⊎ (is_used used m ≡ true)
  used_or_above lo h m le =
      let split : (lo + 1 ≤ m) ⊎ (m ≡ lo) = ground arith in
      elim split [ inl above ↦ inl above | inr same ↦ inr (rw same h) ]

  Finds-below :
      (lo : ℕ) (r : Search) → is_used used lo ≡ true → Finds used (lo + 1) hi r → Finds used lo hi r
  Finds-below lo (found text) h f = record {
    address = f.address;
    from = omega (arith, f.from);
    below = f.below;
    spelled = f.spelled;
    free = f.free;
    lower = λ m le lt. elim (used_or_above lo h m le) [ inl a ↦ f.lower m a lt | inr b ↦ b ];
  }
  Finds-below lo exhausted h f =
      λ m le lt. elim (used_or_above lo h m le) [ inl a ↦ f m a lt | inr b ↦ b ]
  Finds-below lo out_of_fuel h f = f

  -- With fuel for each address that is left, the loop ends by its test or by its return.
  pub search_from-Finds :
      (fuel lo : ℕ) → hi < u32 → hi - lo < fuel → Finds used lo hi (search_from used hi fuel lo)
  unfolding search_from
  search_from-Finds zero lo w enough = absurd (omega arith)
  search_from-Finds (suc fuel) lo w enough = elim (Bool-cases (ltb lo hi)) [
    | inr above ↦ rw above (λ m le lt. absurd (ground arith))
    | inl below ↦ elim (Bool-cases (is_used used lo)) [
      | inr free ↦
          rw (below, free)
            (record {
              address = lo;
              from = omega arith;
              below = (ltb_iff lo hi).0 below;
              spelled = refl;
              free = free;
              lower = λ m le lt. absurd (omega arith);
            })
      | inl taken ↦
          let lt : lo < hi = (ltb_iff lo hi).0 below in
          let step : (lo + 1) % u32 ≡ lo + 1 = omega arith in
          rw (below, taken, step)
            (Finds-below lo _ taken (search_from-Finds fuel (lo + 1) w (omega arith)))
    ]
  ]
