-- ===== src/Common/Words.antt =====
-- Big-endian words of four bytes: `DataView.setUint32` and `getUint32`, and the SSH `uint32`.
use nexnet.Common.{ℕ, ◌+◌, ◌*◌, ◌/◌, ◌%◌, ◌^◌, ◌<◌, ◌≡◌, [], ◌∷◌, ◌++◌, arith, Bytes, length, refl}

-- Four bytes, the highest first; a larger number loses its high bits.
unfoldable pub uint32 : ℕ → Bytes
uint32 value = value / 2 ^ 24 % 256 ∷ value / 2 ^ 16 % 256 ∷ value / 2 ^ 8 % 256 ∷ value % 256 ∷ []

-- The number in the first four bytes; the callers have checked that they are there.
unfoldable pub word : Bytes → ℕ
word (a ∷ b ∷ c ∷ d ∷ _) = a * 2 ^ 24 + b * 2 ^ 16 + c * 2 ^ 8 + d
word _ = 0

pub word-uint32 : (n : ℕ) (rest : Bytes) → n < 2 ^ 32 → word (uint32 n ++ rest) ≡ n
unfolding word uint32
word-uint32 n rest h = omega arith

pub length-uint32 : (n : ℕ) → length (uint32 n) ≡ 4
unfolding uint32
length-uint32 n = refl

pub word-uint32_end : (n : ℕ) → n < 2 ^ 32 → word (uint32 n) ≡ n
unfolding uint32
word-uint32_end n h = word-uint32 n [] h
