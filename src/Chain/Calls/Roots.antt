-- ===== src/Chain/Calls/Roots.antt =====
-- Identity roots over histories of calls.
use nexnet.Common.{ℕ, some, List, [], ◌∷◌, ◌≡◌, Bytes, Text, arith, to_hex}
use nexnet.Common.Map
use nexnet.Common.Map.{Map, text_key, get-set}
use nexnet.Chain.State.{Chain}
use nexnet.Chain.Usernames.{register_account, record_activity, register_username}
use nexnet.Chain.Identity.{register_identity, get_identity_root}
use nexnet.Chain.Revocations.{revoke_credential}
use nexnet.Chain.Devices.{register_device_certificate, store_certificate}
use nexnet.Chain.Passkeys.{
  register_passkey_credential, begin_passkey_device_certificate_authorization,
  prune_pending_passkeys,
}
use nexnet.Chain.PasskeyGrants.{authorize_device_certificate_with_passkey}
use nexnet.Chain.SshKeys.{register_ssh_key, authorize_device_certificate_with_ssh_key}
use nexnet.Chain.Validators.{join_validator_set, leave_validator_set}
use nexnet.Chain.Calls.{
  Platform, Call, registers_account, registers_username, registers_identity, step, run,
}

module _ (platform : Platform) where
  step-root :
      (s : Chain) (now : ℕ) (c : Call) (id : Text) (wallet : Bytes)
      → Map.get s.identity_roots id ≡ some wallet
      → Map.get (step platform s (now, c)).identity_roots id ≡ some wallet
  unfolding step register_account record_activity register_username register_identity
      register_device_certificate store_certificate register_passkey_credential
      begin_passkey_device_certificate_authorization prune_pending_passkeys
      authorize_device_certificate_with_passkey register_ssh_key
      authorize_device_certificate_with_ssh_key revoke_credential join_validator_set
      leave_validator_set
  step-root s now (registers_account w) id wallet h = ground arith
  step-root s now (registers_username name w i) id wallet h =
      ground (arith, get-set s.identity_roots (to_hex i) id w)
  step-root s now (registers_identity w i proof) id wallet h =
      ground (arith, get-set s.identity_roots (to_hex i) id w)
  step-root s now _ id wallet h = ground arith

  run-root :
      (cs : List (ℕ × Call)) (s : Chain) (id : Text) (wallet : Bytes)
      → Map.get s.identity_roots id ≡ some wallet
      → Map.get (run platform s cs).identity_roots id ≡ some wallet
  unfolding run
  run-root [] s id wallet h = h
  run-root ((now, c) ∷ cs) s id wallet h =
      run-root cs (step platform s (now, c)) id wallet (step-root s now c id wallet h)

  -- Once an identity has a root wallet, no history of calls, by whomever, gives it another or takes it
  -- away.
  pub root_is_permanent :
      (s : Chain) (cs : List (ℕ × Call)) (identity_id wallet : Bytes)
      → get_identity_root identity_id s ≡ some wallet
      → get_identity_root identity_id (run platform s cs) ≡ some wallet
  unfolding get_identity_root
  root_is_permanent s cs identity_id wallet h = run-root cs s (to_hex identity_id) wallet h
