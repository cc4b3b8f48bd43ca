-- ===== src/Client/Mask.antt =====
-- `maskFromCIDR` of cmd/wgxdp/main.go.
use Prim.Native.String.append
use wgxdp.Base.{
  ◌≡◌, refl, ap, String, ◌<>◌, Bool, false, ◌||◌, some, ◌==◌, string_eq, arith, Bool-cases, inl,
  inr,
}
use wgxdp.Client.Join.{after_slash, or_24, mask_from_cidr}

unfoldable pub has_slash : String → Bool
has_slash String.[] = false
has_slash (String.◌∷◌ c s) = (String.◌∷◌ c "" == "/") || has_slash s

slash_first : (bits : String) → after_slash ("/" <> bits) ≡ some bits
unfolding after_slash
slash_first bits = rw (append.cons, append.nil) refl

after_slash-append :
    (ip bits : String) → has_slash ip ≡ false → after_slash (ip <> ("/" <> bits)) ≡ some bits
unfolding after_slash has_slash
after_slash-append String.[] bits h = rw append.nil (slash_first bits)
after_slash-append (String.◌∷◌ c s) bits h = elim (Bool-cases (String.◌∷◌ c "" == "/")) [
  | inl slash ↦ absurd (ground (arith, slash, h))
  | inr other ↦ rw (append.cons, other) (after_slash-append s bits (ground (arith, other, h)))
]

-- The bits of an address with a mask are read back.
pub mask_from_cidr_lem :
    (ip bits : String) → has_slash ip ≡ false → mask_from_cidr (ip <> ("/" <> bits)) ≡ bits
unfolding mask_from_cidr
mask_from_cidr_lem ip bits h = ap or_24 (after_slash-append ip bits h)
