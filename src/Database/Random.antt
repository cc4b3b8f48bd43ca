-- ===== src/Database/Random.antt =====
-- `generateRandomHex` and `generateUserCode` of internal/database.go.
pub mod Alphabet
use Prim.Native.String.{slice, len}
use wgxdp.Base.{ℕ, ◌+◌, ◌/◌, ◌%◌, String, ◌<>◌, Option, none, some, List, [], ◌∷◌}
use wgxdp.Act.{Act, Outcome, ok, err, pure, ask, lift, ◌>>=◌}
use wgxdp.Database.{user_code_alphabet}

abbrev filled : Option (List ℕ) → Outcome String (List ℕ)
filled (some b) = ok b
filled none = err "random source"

-- `rand.Read` into a buffer of `n` bytes.
unfoldable pub read_random : ℕ → Act String (List ℕ)
read_random n = do b ← ask (λ env t. env.random t n); lift (filled b)

hex_digit : ℕ → String
hex_digit d = slice "0123456789abcdef" d (d + 1)

unfoldable pub encode_to_string : List ℕ → String
unfolding hex_digit
encode_to_string [] = ""
encode_to_string (b ∷ bs) = hex_digit (b / 16) <> hex_digit (b % 16) <> encode_to_string bs

unfoldable pub generate_random_hex : ℕ → Act String String
unfolding read_random
generate_random_hex n = do b ← read_random n; pure (encode_to_string b)

code_letter : ℕ → String
code_letter v = let i = v % len user_code_alphabet in slice user_code_alphabet i (i + 1)

unfoldable pub write_letters : List ℕ → String
unfolding code_letter
write_letters [] = ""
write_letters (v ∷ vs) = code_letter v <> write_letters vs

unfoldable pub generate_user_code : ℕ → Act String String
unfolding read_random
generate_user_code length = do b ← read_random length; pure (write_letters b)
