-- ===== src/Database/Random/Alphabet.antt =====
-- The letters of a user code.
use Prim.Native.String.{slice}
use wgxdp.Base.{
  ℕ, zero, suc, ◌+◌, ◌%◌, ◌<◌, ◌≡◌, ◌⊎◌, inl, inr, refl, sym, ap, subst, ◌∙◌, String, Bool, true,
  false, ◌&&◌, some, List, [], ◌∷◌, length, length-append, any, All, All-append, ◌==◌, ==_iff,
  nat_eq, arith, Bool-cases,
}
use wgxdp.Base.Text.{codes, codes-append}
use wgxdp.World.{Env, World}
use wgxdp.Act.{ok, ◌>>=◌}
use wgxdp.Database.{user_code_alphabet}
use wgxdp.Database.Random.{code_letter, write_letters, generate_user_code}

abbrev is_letter : ℕ → Bool
is_letter c = any (λ a. a == c) (codes user_code_alphabet)

-- What makes a text a user code before it is grouped: so many letters, and each of the alphabet.
pub record IsCode (n : ℕ) (text : String) : Type 0 where
  pub count : length (codes text) ≡ n
  pub letters : All (λ c. is_letter c ≡ true) (codes text)

all_below : (ℕ → Bool) → ℕ → Bool
all_below p zero = true
all_below p (suc n) = p n && all_below p n

all_below-lt : (p : ℕ → Bool) (n i : ℕ) → all_below p n ≡ true → i < n → p i ≡ true
unfolding all_below
all_below-lt p zero i h lt = absurd (omega (arith, lt))
all_below-lt p (suc n) i h lt = elim (nat_cases i n) [
  | inl e ↦ subst (λ j. p j ≡ true) (sym e) (ground arith)
  | inr below ↦ all_below-lt p n i (ground arith) (below lt)
]
  where
    nat_cases : (a b : ℕ) → (a ≡ b) ⊎ (a < suc b → a < b)
    nat_cases a b = elim (Bool-cases (a == b)) [
      | inl e ↦ inl ((==_iff a b).0 e)
      | inr d ↦ inr (λ lt. ground arith)
    ]

abbrev is_one_letter : List ℕ → Bool
is_one_letter (c ∷ []) = is_letter c
is_one_letter _ = false

one_letter :
    (cs : List ℕ) → is_one_letter cs ≡ true → (length cs ≡ 1) × All (λ c. is_letter c ≡ true) cs
one_letter [] h = ground arith
one_letter (c ∷ []) h = (refl, (h, tt))
one_letter (c ∷ d ∷ cs) h = ground arith

alphabet_checked :
    all_below (λ i. is_one_letter (codes (slice user_code_alphabet i (i + 1)))) 31 ≡ true
unfolding all_below
alphabet_checked = refl

code_letter-IsCode : (v : ℕ) → IsCode 1 (code_letter v)
unfolding code_letter
code_letter-IsCode v =
    let checked =
      all_below-lt (λ i. is_one_letter (codes (slice user_code_alphabet i (i + 1)))) 31 (v % 31)
        alphabet_checked (omega arith) in
    let one = one_letter (codes (slice user_code_alphabet (v % 31) (v % 31 + 1))) checked in
    record { count = one.0; letters = one.1 }

write_letters-IsCode : (vs : List ℕ) → IsCode (length vs) (write_letters vs)
unfolding write_letters
write_letters-IsCode [] = record { count = refl; letters = tt }
write_letters-IsCode (v ∷ vs) =
    let one = code_letter-IsCode v in
    let rest = write_letters-IsCode vs in
    record {
      count =
          ap length (codes-append (code_letter v) (write_letters vs))
          ∙ (length-append (codes (code_letter v)) (codes (write_letters vs))
              ∙ omega (arith, one.count, rest.count));
      letters =
          subst (λ cs. All (λ c. is_letter c ≡ true) cs)
            (sym (codes-append (code_letter v) (write_letters vs)))
            (All-append _ (codes (code_letter v)) _ one.letters rest.letters);
    }

written :
    (n : ℕ) (env : Env) (w : World) {bytes : List ℕ} {text : String} {w' : World}
    → env.random w.tick n ≡ some bytes
    → generate_user_code n env w ≡ (ok text, w')
    → write_letters bytes ≡ text
unfolding generate_user_code ◌>>=◌
written n env w random e = ground arith

-- A user code of `n` random bytes has `n` letters, each of the alphabet without 0, 1, I and O.
pub generate_user_code-IsCode :
    (n : ℕ) (env : Env) (w : World) {bytes : List ℕ} {text : String} {w' : World}
    → env.random w.tick n ≡ some bytes
    → length bytes ≡ n
    → generate_user_code n env w ≡ (ok text, w')
    → IsCode n text
generate_user_code-IsCode n env w {bytes = bytes} {text = text} random filled e =
    subst (λ t. IsCode n t) (written n env w random e)
      (subst (λ k. IsCode k (write_letters bytes)) filled (write_letters-IsCode bytes))
