-- ===== src/Chain/Validators.antt =====
-- The validator set: a stake-ranked list with a lower and an upper size.
pub mod Ranking
use nexnet.Common.{
  ℕ, ◌+◌, ◌-◌, Bool, true, false, not, ◌&&◌, List, [], ◌∷◌, map, ltb, leb, ◌==◌, if◌then◌else◌,
  Result, ok, err, ◌>>=◌, ◌>>◌, throw_if, Bytes, Text, to_hex, length, min,
}
use nexnet.Common.Map
use nexnet.Common.Map.{Map, text_key}
use nexnet.Chain.State.{
  Chain, ValidatorRecord, ChainError, already_validator, insufficient_stake, validator_set_full,
  not_validator, below_min_validators,
}

abbrev pub min_validators : ℕ
min_validators = 4

abbrev pub max_validators : ℕ
max_validators = 21

abbrev min_bond : ℕ
min_bond = 1

abbrev pub validator_power_cap : ℕ
validator_power_cap = 1000000

unfoldable pub join_validator_set :
    ℕ → Bytes → ℕ → Chain → Result ChainError (Chain × ValidatorRecord)
join_validator_set now wallet bonded_stake s = do
  let hex = to_hex wallet
  throw_if (Map.has s.validators hex) already_validator
  throw_if (ltb bonded_stake min_bond) insufficient_stake
  throw_if (ltb max_validators (length s.validators + 1)) validator_set_full
  let rec : ValidatorRecord = record {
    wallet = wallet;
    bonded_stake = bonded_stake;
    effective_power = min bonded_stake validator_power_cap;
    joined_at = now;
  }
  ok (record s { validators = Map.set s.validators hex rec }, rec)

-- `size - 1` is written out where the set is not empty: the wallet is in it.
unfoldable pub leave_validator_set : Bytes → Chain → Result ChainError Chain
leave_validator_set wallet s = do
  let hex = to_hex wallet
  throw_if (not (Map.has s.validators hex)) not_validator
  let after = length s.validators - 1
  let bootstrapping = ltb (length s.validators) min_validators
  throw_if (not bootstrapping && ltb after min_validators) below_min_validators
  ok (record s { validators = Map.delete s.validators hex })

-- The stable sort of `Array.prototype.sort` by `b.effectivePower - a.effectivePower`.
insert_ranked : ValidatorRecord → List ValidatorRecord → List ValidatorRecord
insert_ranked r [] = r ∷ []
insert_ranked r (x ∷ xs) =
    if ltb r.effective_power x.effective_power then x ∷ insert_ranked r xs else r ∷ x ∷ xs

rank : List ValidatorRecord → List ValidatorRecord
unfolding insert_ranked
rank [] = []
rank (x ∷ xs) = insert_ranked x (rank xs)

unfoldable pub list_validators : Chain → List ValidatorRecord
unfolding rank
list_validators s = rank (Map.values s.validators)
