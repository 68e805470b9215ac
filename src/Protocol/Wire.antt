-- ===== src/Protocol/Wire.antt =====
-- packages/protocol/src/wire.ts: `fromHex`, against `toHex`.
use nexnet.Common.{
  ℕ, ◌+◌, ◌-◌, ◌*◌, ◌/◌, ◌%◌, ◌<◌, ◌≡◌, refl, arith, ◌&&◌, Option, none, some, [], ◌∷◌, leb,
  if◌then◌else◌, Bytes, Text, to_hex, hex_digit,
}
use nexnet.Common.Hex.{IsBytes}

unfoldable hex_value : ℕ → Option ℕ
hex_value c =
    if leb b'0' c && leb c b'9'
    then some (c - b'0')
    else if leb b'a' c && leb c b'f'
    then some (c - 87)
    else none

-- The byte that two digits spell, before the bytes of the rest.
push_byte : Option ℕ → Option ℕ → Option Bytes → Option Bytes
push_byte (some x) (some y) (some rest) = some ((16 * x + y) ∷ rest)
push_byte _ _ _ = none

-- `none` is the error "Invalid hex": an odd length, or a character that is no lower case digit.
unfoldable pub from_hex : Text → Option Bytes
unfolding hex_value push_byte
from_hex [] = some []
from_hex (c ∷ []) = none
from_hex (c ∷ d ∷ s) = push_byte (hex_value c) (hex_value d) (from_hex s)

hex_value-hex_digit : (n : ℕ) → n < 16 → hex_value (hex_digit n) ≡ some n
unfolding hex_value
hex_value-hex_digit n h = ground arith

-- Bytes are read back from their hex.
pub from_hex-to_hex : (bytes : Bytes) → IsBytes bytes → from_hex (to_hex bytes) ≡ some bytes
unfolding from_hex to_hex push_byte
from_hex-to_hex [] h = refl
from_hex-to_hex (b ∷ bs) h =
    let spelled : 16 * (b / 16) + b % 16 ≡ b = omega arith in
    rw (
      hex_value-hex_digit (b / 16) (omega (arith, h.0)),
      hex_value-hex_digit (b % 16) (omega arith),
      from_hex-to_hex bs h.1,
      spelled,
    )
