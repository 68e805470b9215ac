-- ===== src/Common/Prefix.antt =====
-- Texts that start with a prefix, as the keys of a storage do.
use nexnet.Common.{
  ◌≡◌, refl, ◌≢◌, arith, true, false, [], ◌∷◌, ◌++◌, Text, starts_with, drop, length,
}

pub starts_with-append : (p s : Text) → starts_with (p ++ s) p ≡ true
unfolding starts_with
starts_with-append [] [] = refl
starts_with-append [] (c ∷ s) = refl
starts_with-append (c ∷ p) s = ground (arith, starts_with-append p s)

pub append-injective : (p s t : Text) → p ++ s ≡ p ++ t → s ≡ t
append-injective [] s t e = e
append-injective (c ∷ p) s t e = append-injective p s t (cc)

pub not_prefixed : (key p s : Text) → starts_with key p ≡ false → key ≢ p ++ s
not_prefixed key p s h e = cc (h, e, starts_with-append p s)

-- What follows the prefix of a text, behind the prefix, is the text.
pub append-drop_prefix : (p s : Text) → starts_with s p ≡ true → p ++ drop (length p) s ≡ s
unfolding starts_with
append-drop_prefix [] s h = refl
append-drop_prefix (c ∷ p) [] h = cc
append-drop_prefix (c ∷ p) (a ∷ s) h = ground (arith, h, append-drop_prefix p s)
