-- ===== src/Chain/Validators/Ranking.antt =====
-- `listValidators` sorts: a permutation of the set, by falling power.
use mathlib.Core.List.{Perm}
use mathlib.Core.List.Perm
use nexnet.Common.{◌≤◌, List, [], ◌∷◌, arith, ltb, Bool-cases, inl, inr}
use nexnet.Common.Map
use nexnet.Common.Map.{text_key}
use nexnet.Chain.State.{Chain, ValidatorRecord}
use nexnet.Chain.Validators.{insert_ranked, rank, list_validators}

-- The power of a head is at least that of the next.
abbrev pub IsRanked : List ValidatorRecord → Type 0
IsRanked [] = Unit
IsRanked (x ∷ []) = Unit
IsRanked (x ∷ y ∷ rest) = (y.effective_power ≤ x.effective_power) × IsRanked (y ∷ rest)

insert_ranked-IsRanked :
    (r : ValidatorRecord) (xs : List ValidatorRecord) → IsRanked xs → IsRanked (insert_ranked r xs)
unfolding insert_ranked
insert_ranked-IsRanked r [] h = tt
insert_ranked-IsRanked r (x ∷ []) h = ground arith
insert_ranked-IsRanked r (x ∷ y ∷ rest) h = ground (arith, insert_ranked-IsRanked r (y ∷ rest) h.1)

rank-IsRanked : (xs : List ValidatorRecord) → IsRanked (rank xs)
unfolding rank
rank-IsRanked [] = tt
rank-IsRanked (x ∷ xs) = insert_ranked-IsRanked x (rank xs) (rank-IsRanked xs)

insert_ranked-perm :
    (r : ValidatorRecord) (xs : List ValidatorRecord) → Perm (insert_ranked r xs) (r ∷ xs)
unfolding insert_ranked
insert_ranked-perm r [] = Perm.refl (r ∷ [])
insert_ranked-perm r (x ∷ xs) = elim (Bool-cases (ltb r.effective_power x.effective_power)) [
  | inl weaker ↦ rw weaker (Perm.trans (Perm.cons x (insert_ranked-perm r xs)) (Perm.swap r x xs))
  | inr other ↦ rw other (Perm.refl (r ∷ x ∷ xs))
]

rank-perm : (xs : List ValidatorRecord) → Perm (rank xs) xs
unfolding rank
rank-perm [] = Perm.refl []
rank-perm (x ∷ xs) = Perm.trans (insert_ranked-perm x (rank xs)) (Perm.cons x (rank-perm xs))

-- `listValidators` returns the validators, each as often as it is in the set, by falling power.
pub list_validators_sorts :
    (s : Chain) → IsRanked (list_validators s) × Perm (list_validators s) (Map.values s.validators)
unfolding list_validators
list_validators_sorts s =
    (rank-IsRanked (Map.values s.validators), rank-perm (Map.values s.validators))
