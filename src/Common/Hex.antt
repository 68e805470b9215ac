-- ===== src/Common/Hex.antt =====
-- The hex spelling of bytes is injective and has no colon, so keys made of it can be taken apart.
use nexnet.Common.{
  Bool, ◌&&◌, ◌||◌, length, ◌==◌, leb, all_by, ◌<◌, ◌≡◌, refl, ◌≢◌, [], ◌∷◌, ◌++◌, arith, Bytes,
  Text, to_hex, All,
}

-- `/^[0-9a-f]{64}$/`
unfoldable pub is_id_hex : Text → Bool
is_id_hex t =
    (length t == 64) && all_by (λ c. (leb b'0' c && leb c b'9') || (leb b'a' c && leb c b'f')) t

abbrev pub IsBytes : Bytes → Type 0
IsBytes = All (λ b. b < 256)

-- No code unit is a colon.
abbrev pub IsPlain : Text → Type 0
IsPlain = All (λ c. c ≢ b':')

pub to_hex-injective : (xs ys : Bytes) → IsBytes xs → IsBytes ys → to_hex xs ≡ to_hex ys → xs ≡ ys
unfolding to_hex
to_hex-injective [] [] h k e = refl
to_hex-injective [] (y ∷ ys) h k e = cc
to_hex-injective (x ∷ xs) [] h k e = cc
to_hex-injective (x ∷ xs) (y ∷ ys) h k e = ground (arith, to_hex-injective xs ys h.1 k.1)

pub to_hex-IsPlain : (xs : Bytes) → IsBytes xs → IsPlain (to_hex xs)
unfolding to_hex
to_hex-IsPlain [] h = tt
to_hex-IsPlain (x ∷ xs) h = (ground arith, (ground arith, to_hex-IsPlain xs h.1))

-- A text splits at its first colon in one way.
pub split_at_colon :
    (xs ys r t : Text)
    → IsPlain xs
    → IsPlain ys
    → xs ++ (b':' ∷ r) ≡ ys ++ (b':' ∷ t)
    → (xs ≡ ys) × (r ≡ t)
split_at_colon [] [] r t h k e = (refl, cc)
split_at_colon [] (y ∷ ys) r t h k e = absurd (k.0 (cc))
split_at_colon (x ∷ xs) [] r t h k e = absurd (h.0 (cc))
split_at_colon (x ∷ xs) (y ∷ ys) r t h k e = ground (arith, split_at_colon xs ys r t h.1 k.1)
