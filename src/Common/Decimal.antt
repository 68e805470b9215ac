-- ===== src/Common/Decimal.antt =====
-- A number in a template string: its decimal digits, which determine it.
use nexnet.Common.{
  ℕ, zero, suc, ◌+◌, ◌-◌, ◌*◌, ◌/◌, ◌%◌, ◌<◌, ◌≡◌, refl, [], ◌∷◌, ◌++◌, arith, Text, ltb,
  if◌then◌else◌,
}

-- Each step drops a digit, so one more step than the number is enough.
digits : ℕ → ℕ → Text
digits zero n = []
digits (suc steps) n =
    let rest = digits steps (n / 10) in
    if ltb n 10 then (n + b'0') ∷ [] else rest ++ ((n % 10 + b'0') ∷ [])

unfoldable pub decimal : ℕ → Text
unfolding digits
decimal n = digits (suc n) n

-- The number that digits spell, after the number `a`.
value : ℕ → Text → ℕ
value a [] = a
value a (c ∷ s) = value (a * 10 + (c - b'0')) s

value-append : (a : ℕ) (s : Text) (c : ℕ) → value a (s ++ (c ∷ [])) ≡ value a s * 10 + (c - b'0')
unfolding value
value-append a [] c = refl
value-append a (d ∷ s) c = value-append (a * 10 + (d - b'0')) s c

value-digits : (steps n : ℕ) → n < steps → value 0 (digits steps n) ≡ n
unfolding digits value
value-digits zero n h = omega arith
value-digits (suc steps) n h =
    ground
      (arith, value-digits steps (n / 10), value-append 0 (digits steps (n / 10)) (n % 10 + b'0'))

pub decimal-injective : (m n : ℕ) → decimal m ≡ decimal n → m ≡ n
unfolding decimal
decimal-injective m n e =
    grind (arith, value-digits (suc m) m (omega arith), value-digits (suc n) n (omega arith))
