-- ===== src/Common/Texts.antt =====
-- Bytes and texts. A `Uint8Array` is the list of its bytes and a `string` the list of its UTF-16
-- code units, so that `length` and `===` are those of JavaScript.
use Prim.Native.Nat.{ℕ, ◌+◌, ◌/◌, ◌%◌}
use Prim.Native.Char.{code}
use Prim.Native.String.{String}
use mathlib.Core.Path.{◌≡◌, refl}
use mathlib.Core.Bool.{Bool, true, false, ◌&&◌, ◌||◌}
use mathlib.Core.Logic.{ite}
use mathlib.Core.List.{List, [], ◌∷◌, reverse}
use native.Mathlib.Decide.{ℕ_discrete}
use nexnet.Common.Tests.{leb, ◌==◌, if◌then◌else◌}

abbrev pub Bytes : Type 0
Bytes = List ℕ

abbrev pub Text : Type 0
Text = List ℕ

-- A literal of the Basic Multilingual Plane.
abbrev pub codes : String → Text
codes String.[] = []
codes (String.◌∷◌ c s) = code c ∷ codes s

both : {a b : ℕ} {s t : Text} → Dec (a ≡ b) → Dec (s ≡ t) → Dec (a ∷ s ≡ b ∷ t)
both (yes p) (yes q) = yes (λ i. p i ∷ q i)
both (yes p) (no n) = no (λ e. n (cc))
both (no n) q = no (λ e. n (cc))

-- The library's decision on lists cannot be unfolded; this one runs.
unfoldable pub text_discrete : Discrete Text
unfolding both ℕ_discrete
text_discrete [] [] = yes refl
text_discrete [] (b ∷ t) = no (λ e. cc)
text_discrete (a ∷ s) [] = no (λ e. cc)
text_discrete (a ∷ s) (b ∷ t) = both (ℕ_discrete a b) (text_discrete s t)

-- `a === b` on texts, `a.equals(b)` on buffers.
abbrev pub same : Text → Text → Bool
same a b = ite (text_discrete a b) true false

-- `Buffer.from(bytes).toString("hex")`
abbrev pub hex_digit : ℕ → ℕ
hex_digit d = if leb d 9 then d + b'0' else d + 87

unfoldable pub to_hex : Bytes → Text
to_hex [] = []
to_hex (b ∷ bs) = hex_digit (b / 16) ∷ hex_digit (b % 16) ∷ to_hex bs

test_same : same (codes "ab") (codes "ab") ≡ true
unfolding text_discrete
test_same = refl

test_hex : to_hex (255 ∷ 10 ∷ []) ≡ codes "ff0a"
unfolding to_hex
test_hex = refl

-- The code units that `trim` drops: white space and line terminators.
is_space : ℕ → Bool
is_space c =
    (leb 9 c && leb c 13)
    || (c == 32)
    || (c == 160)
    || (c == 0x1680)
    || (leb 0x2000 c && leb c 0x200a)
    || (c == 0x2028)
    || (c == 0x2029)
    || (c == 0x202f)
    || (c == 0x205f)
    || (c == 0x3000)
    || (c == 0xfeff)

trim_start : Text → Text
trim_start [] = []
trim_start (c ∷ s) = let rest = trim_start s in if is_space c then rest else c ∷ s

unfoldable pub trim : Text → Text
unfolding is_space trim_start
trim s = reverse (trim_start (reverse (trim_start s)))

test_trim : trim (codes "  ab c ") ≡ codes "ab c"
unfolding trim
test_trim = refl

-- `s.startsWith(prefix)`
unfoldable pub starts_with : Text → Text → Bool
starts_with s [] = true
starts_with [] (p ∷ ps) = false
starts_with (c ∷ s) (p ∷ ps) = (c == p) && starts_with s ps
