-- ===== src/Chain/Calls/SshLimit.antt =====
-- The limit on live SSH keys, over histories of calls.
use nexnet.Common.{
  or_empty, ℕ, ◌≤◌, List, [], ◌∷◌, ◌++◌, ◌≡◌, true, Bytes, Text, arith, to_hex, not, length,
  length-filter_by_mono, length-filter_by-append,
}
use nexnet.Common.Map
use native.Mathlib.Nat.{le_trans}
use nexnet.Common.Map.{Map, text_key, get-set}
use nexnet.Protocol.Types.{SshKeyCommitment, ssh}
use nexnet.Chain.State.{Chain, is_revoked_key, revocation_key, empty}
use nexnet.Chain.SshKeys.{live_keys, max_ssh_keys}
use nexnet.Chain.Calls.Revoked.{step-revoked}
use nexnet.Chain.Usernames.{register_account, record_activity, register_username}
use nexnet.Chain.Identity.{register_identity}
use nexnet.Chain.Revocations.{revoke_credential}
use nexnet.Chain.Devices.{register_device_certificate, store_certificate}
use nexnet.Chain.Passkeys.{
  register_passkey_credential, begin_passkey_device_certificate_authorization,
  prune_pending_passkeys,
}
use nexnet.Chain.PasskeyGrants.{authorize_device_certificate_with_passkey}
use nexnet.Chain.SshKeys.{register_ssh_key, authorize_device_certificate_with_ssh_key}
use nexnet.Chain.Validators.{join_validator_set, leave_validator_set}
use nexnet.Chain.Calls.{Platform, Call, registers_ssh, step, run}

abbrev IsSshCall : Call → Type 0
IsSshCall (registers_ssh w i key sig) = Unit
IsSshCall _ = ⊥

-- The keys of the identity that are not revoked.
abbrev pub live_ssh_keys : Text → Chain → List SshKeyCommitment
live_ssh_keys hex s = live_keys hex s (or_empty (Map.get s.ssh_keys hex))

abbrev IsLimited : Chain → Type 0
IsLimited s = (hex : Text) → length (live_ssh_keys hex s) ≤ max_ssh_keys

module _ (platform : Platform) where
  step_keys :
      (s : Chain) (now : ℕ) (c : Call)
      → ¬ IsSshCall c
      → (step platform s (now, c)).ssh_keys ≡ s.ssh_keys
  unfolding step register_account record_activity register_username register_identity
      register_device_certificate store_certificate register_passkey_credential
      begin_passkey_device_certificate_authorization prune_pending_passkeys
      authorize_device_certificate_with_passkey register_ssh_key
      authorize_device_certificate_with_ssh_key revoke_credential join_validator_set
      leave_validator_set
  step_keys s now (registers_ssh w i key sig) h = absurd (h tt)
  step_keys s now _ h = ground arith

  -- What is live after a call was live before it.
  live_before :
      (s : Chain) (now : ℕ) (c : Call) (key : Text)
      → not (Map.has (step platform s (now, c)).revocations key) ≡ true
      → not (Map.has s.revocations key) ≡ true
  live_before s now c key h = ground (arith, step-revoked platform s now c key)

  frame-IsLimited :
      (s : Chain) (now : ℕ) (c : Call)
      → ¬ IsSshCall c
      → IsLimited s
      → IsLimited (step platform s (now, c))
  unfolding live_keys is_revoked_key
  frame-IsLimited s now c h v hex = rw (step_keys s now c h) (
      le_trans
        (length-filter_by_mono _ _ (or_empty (Map.get s.ssh_keys hex))
          (λ item. live_before s now c (revocation_key hex ssh item.fingerprint)))
        (v hex))

  register-IsLimited :
      (s : Chain) (now : ℕ) (w i : Bytes) (key : SshKeyCommitment) (sig : Bytes)
      → IsLimited s
      → IsLimited (step platform s (now, registers_ssh w i key sig))
  unfolding step register_ssh_key live_keys is_revoked_key
  register-IsLimited s now w i key sig v hex = ground (
    arith,
    v hex,
    get-set s.ssh_keys (to_hex i) hex (or_empty (Map.get s.ssh_keys (to_hex i)) ++ (key ∷ [])),
    length-filter_by-append
        (λ (item : SshKeyCommitment).
          not (Map.has s.revocations (revocation_key hex ssh item.fingerprint)))
        (or_empty (Map.get s.ssh_keys (to_hex i))) (key ∷ []),
  )

  step-IsLimited :
      (s : Chain) (now : ℕ) (c : Call) → IsLimited s → IsLimited (step platform s (now, c))
  step-IsLimited s now (registers_ssh w i key sig) v = register-IsLimited s now w i key sig v
  step-IsLimited s now c v = frame-IsLimited s now c (λ h. h) v

  run-IsLimited : (s : Chain) (cs : List (ℕ × Call)) → IsLimited s → IsLimited (run platform s cs)
  unfolding run
  run-IsLimited s [] v = v
  run-IsLimited s ((now, c) ∷ cs) v =
      run-IsLimited (step platform s (now, c)) cs (step-IsLimited s now c v)

  -- From a new chain, after any history of calls, no identity has more than eight SSH keys that are not
  -- revoked.
  pub ssh_keys_stay_limited :
      (cs : List (ℕ × Call)) (identity_hex : Text)
      → length (live_ssh_keys identity_hex (run platform empty cs)) ≤ max_ssh_keys
  unfolding Map.get live_keys
  ssh_keys_stay_limited cs = run-IsLimited empty cs (λ hex. omega arith)
