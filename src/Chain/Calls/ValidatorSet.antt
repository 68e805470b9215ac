-- ===== src/Chain/Calls/ValidatorSet.antt =====
-- The size and the powers of the validator set, over histories of calls.
use nexnet.Common.{ℕ, ◌≤◌, List, [], ◌∷◌, Bytes, arith, to_hex, length, min}
use nexnet.Common.Map
use nexnet.Common.Map.{
  Map, text_key, get-set, length-set, length-delete, IsMap, set-IsMap, delete-IsMap,
}
use nexnet.Chain.State.{Chain, ValidatorRecord, empty}
use nexnet.Chain.Validators.{max_validators, min_validators, validator_power_cap}
use nexnet.Chain.Usernames.{register_account, record_activity, register_username}
use nexnet.Chain.Identity.{register_identity}
use nexnet.Chain.Revocations.{revoke_credential}
use nexnet.Chain.Devices.{register_device_certificate, store_certificate}
use nexnet.Chain.Passkeys.{
  register_passkey_credential, begin_passkey_device_certificate_authorization,
  prune_pending_passkeys,
}
use nexnet.Chain.PasskeyGrants.{authorize_device_certificate_with_passkey}
use nexnet.Chain.SshKeys.{register_ssh_key, authorize_device_certificate_with_ssh_key}
use nexnet.Chain.Validators.{join_validator_set, leave_validator_set}
use nexnet.Chain.Calls.{Platform, Call, joins_validators, leaves_validators, step, run}

-- Every wallet once, at most twenty-one of them.
record IsBounded (s : Chain) : Type 0 where
  pub distinct : IsMap s.validators
  pub bounded : length s.validators ≤ max_validators

-- The record that a join writes.
abbrev joiner : ℕ → Bytes → ℕ → ValidatorRecord
joiner now w stake = record {
  wallet = w;
  bonded_stake = stake;
  effective_power = min stake validator_power_cap;
  joined_at = now;
}

module _ (platform : Platform) where
  step-IsBounded :
      (s : Chain) (now : ℕ) (c : Call) → IsBounded s → IsBounded (step platform s (now, c))
  unfolding step register_account record_activity register_username register_identity
      register_device_certificate store_certificate register_passkey_credential
      begin_passkey_device_certificate_authorization prune_pending_passkeys
      authorize_device_certificate_with_passkey register_ssh_key
      authorize_device_certificate_with_ssh_key revoke_credential join_validator_set
      leave_validator_set
  step-IsBounded s now (joins_validators w stake) v = ground (
    arith,
    length-set s.validators (to_hex w) (joiner now w stake),
    set-IsMap s.validators (to_hex w) (joiner now w stake) v.distinct,
  )
  step-IsBounded s now (leaves_validators w) v = ground (
    arith,
    length-delete s.validators (to_hex w) v.distinct,
    delete-IsMap s.validators (to_hex w) v.distinct,
  )
  step-IsBounded s now _ v = ground arith

  -- A set that has reached its quorum never falls below it.
  step-quorum :
      (s : Chain) (now : ℕ) (c : Call)
      → IsBounded s
      → min_validators ≤ length s.validators
      → min_validators ≤ length (step platform s (now, c)).validators
  unfolding step register_account record_activity register_username register_identity
      register_device_certificate store_certificate register_passkey_credential
      begin_passkey_device_certificate_authorization prune_pending_passkeys
      authorize_device_certificate_with_passkey register_ssh_key
      authorize_device_certificate_with_ssh_key revoke_credential join_validator_set
      leave_validator_set Map.has
  step-quorum s now (joins_validators w stake) v q =
      ground (arith, length-set s.validators (to_hex w) (joiner now w stake))
  step-quorum s now (leaves_validators w) v q =
      ground (arith, length-delete s.validators (to_hex w) v.distinct)
  step-quorum s now _ v q = ground arith

  run-IsBounded : (s : Chain) (cs : List (ℕ × Call)) → IsBounded s → IsBounded (run platform s cs)
  unfolding run
  run-IsBounded s [] v = v
  run-IsBounded s ((now, c) ∷ cs) v =
      run-IsBounded (step platform s (now, c)) cs (step-IsBounded s now c v)

  run-quorum :
      (s : Chain) (cs : List (ℕ × Call))
      → IsBounded s
      → min_validators ≤ length s.validators
      → min_validators ≤ length (run platform s cs).validators
  unfolding run
  run-quorum s [] v q = q
  run-quorum s ((now, c) ∷ cs) v q =
      run-quorum (step platform s (now, c)) cs (step-IsBounded s now c v) (step-quorum s now c v q)

  empty-IsBounded : IsBounded empty
  empty-IsBounded = record { distinct = tt; bounded = omega arith }

  -- After any history of calls on a new chain the validator set has at most twenty-one members.
  pub validators_stay_bounded :
      (cs : List (ℕ × Call)) → length (run platform empty cs).validators ≤ max_validators
  validators_stay_bounded cs = (run-IsBounded empty cs empty-IsBounded).bounded

  -- Once the validator set of a chain has its quorum of four, no further history takes it below four.
  pub quorum_is_kept :
      (cs more : List (ℕ × Call))
      → min_validators ≤ length (run platform empty cs).validators
      → min_validators ≤ length (run platform (run platform empty cs) more).validators
  quorum_is_kept cs more =
      run-quorum (run platform empty cs) more (run-IsBounded empty cs empty-IsBounded)
