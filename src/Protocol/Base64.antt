-- ===== src/Protocol/Base64.antt =====
-- packages/protocol/src/wire.ts: `toBase64Url` and `fromBase64Url`, over `btoa` and `atob`.
use nexnet.Common.{
  ℕ, ◌+◌, ◌-◌, ◌*◌, ◌/◌, ◌%◌, ◌≡◌, refl, [], ◌∷◌, map, ltb, ◌==◌, if◌then◌else◌, Bytes, Text, codes,
}

-- The alphabet of `btoa`.
base64_digit : ℕ → ℕ
base64_digit d =
    if ltb d 26
    then d + b'A'
    else if ltb d 52
    then d - 26 + b'a'
    else if ltb d 62
    then d - 52 + b'0'
    else if d == 62
    then b'+'
    else b'/'

-- `btoa` of a string of bytes.
btoa : Bytes → Text
unfolding base64_digit
btoa [] = []
btoa (a ∷ []) = base64_digit (a / 4) ∷ base64_digit (a % 4 * 16) ∷ b'=' ∷ b'=' ∷ []
btoa (a ∷ b ∷ []) =
    base64_digit (a / 4)
    ∷ base64_digit (a % 4 * 16 + b / 16)
    ∷ base64_digit (b % 16 * 4)
    ∷ b'='
    ∷ []
btoa (a ∷ b ∷ c ∷ rest) =
    base64_digit (a / 4)
    ∷ base64_digit (a % 4 * 16 + b / 16)
    ∷ base64_digit (b % 16 * 4 + c / 64)
    ∷ base64_digit (c % 64)
    ∷ btoa rest

-- `.replace(/\+/g, "-").replace(/\//g, "_")`
url_char : ℕ → ℕ
url_char c = if c == b'+' then b'-' else if c == b'/' then b'_' else c

-- `.replace(/-/g, "+").replace(/_/g, "/")`
unfoldable pub standard_char : ℕ → ℕ
standard_char c = if c == b'-' then b'+' else if c == b'_' then b'/' else c

-- `.replace(/=+$/, "")`
strip_padding : Text → Text
strip_padding [] = []
strip_padding (c ∷ s) =
    let rest = strip_padding s in
    elim rest [ [] ↦ if c == b'=' then [] else c ∷ [] | x ∷ xs ↦ c ∷ x ∷ xs ]

unfoldable pub to_base64_url : Bytes → Text
unfolding btoa url_char strip_padding
to_base64_url bytes = strip_padding (map url_char (btoa bytes))

test_fo : to_base64_url (102 ∷ 111 ∷ []) ≡ codes "Zm8"
unfolding to_base64_url
test_fo = refl
