-- ===== src/Chain/Calls/Revoked.antt =====
-- Revocations over histories of calls.
use nexnet.Common.{ℕ, none, List, [], ◌∷◌, ◌≡◌, true, Bytes, Text, arith, to_hex}
use nexnet.Common.Map
use nexnet.Common.Map.{Map, text_key, get-set}
use nexnet.Protocol.Types.{device}
use nexnet.Chain.State.{Chain, is_revoked_key, revocation_key}
use nexnet.Chain.Revocations.{is_revoked, is_certificate_revoked}
use nexnet.Chain.Devices.{resolve_device_certificate}
use nexnet.Chain.Usernames.{register_account, record_activity, register_username}
use nexnet.Chain.Identity.{register_identity}
use nexnet.Chain.Revocations.{revoke_credential}
use nexnet.Chain.Devices.{register_device_certificate, store_certificate}
use nexnet.Chain.Passkeys.{
  register_passkey_credential, begin_passkey_device_certificate_authorization,
  prune_pending_passkeys,
}
use nexnet.Chain.PasskeyGrants.{authorize_device_certificate_with_passkey}
use nexnet.Chain.SshKeys.{register_ssh_key, authorize_device_certificate_with_ssh_key}
use nexnet.Chain.Validators.{join_validator_set, leave_validator_set}
use nexnet.Chain.Calls.{Platform, Call, revokes, step, run}

module _ (platform : Platform) where
  pub step-revoked :
      (s : Chain) (now : ℕ) (c : Call) (key : Text)
      → Map.has s.revocations key ≡ true
      → Map.has (step platform s (now, c)).revocations key ≡ true
  unfolding step register_account record_activity register_username register_identity
      register_device_certificate store_certificate register_passkey_credential
      begin_passkey_device_certificate_authorization prune_pending_passkeys
      authorize_device_certificate_with_passkey register_ssh_key
      authorize_device_certificate_with_ssh_key revoke_credential join_validator_set
      leave_validator_set Map.has
  step-revoked s now (revokes w r) key h = ground (
    arith,
    get-set s.revocations (revocation_key (to_hex r.account_id) r.kind r.credential_id) key
        r.sequence,
  )
  step-revoked s now _ key h = ground arith

  run-revoked :
      (cs : List (ℕ × Call)) (s : Chain) (key : Text)
      → Map.has s.revocations key ≡ true
      → Map.has (run platform s cs).revocations key ≡ true
  unfolding run
  run-revoked [] s key h = h
  run-revoked ((now, c) ∷ cs) s key h =
      run-revoked cs (step platform s (now, c)) key (step-revoked s now c key h)

  -- Once a device is revoked, its certificate resolves to nothing: after any history of calls, at any
  -- time, whichever credential certifies the device again.
  pub revoked_device_never_resolves :
      (s : Chain) (cs : List (ℕ × Call)) (now : ℕ) (identity_id device_id : Bytes)
      → is_revoked identity_id device (to_hex device_id) s ≡ true
      → resolve_device_certificate now identity_id device_id (run platform s cs) ≡ none
  unfolding is_revoked is_revoked_key is_certificate_revoked resolve_device_certificate
  revoked_device_never_resolves s cs now identity_id device_id h =
      ground
        (arith, run-revoked cs s (revocation_key (to_hex identity_id) device (to_hex device_id)) h)
