-- ===== src/Chain/Calls.antt =====
-- Every call that changes the chain, and histories of such calls.
mod Tests
pub mod Roots
pub mod Revoked
pub mod Names
pub mod SshLimit
pub mod Takeover
pub mod ValidatorSet
use nexnet.Common.{ℕ, Option, List, [], ◌∷◌, Result, ok, err, Bytes, Text}
use nexnet.Crypto.{Crypto}
use nexnet.Protocol.Types.{
  DeviceCertificate, SshKeyCommitment, Revocation, PasskeyCredential, PasskeyAssertion,
}
use nexnet.Chain.State.{Chain, ChainError}
use nexnet.Chain.Usernames.{register_account, record_activity, register_username}
use nexnet.Chain.Identity.{register_identity}
use nexnet.Chain.Revocations.{revoke_credential}
use nexnet.Chain.Devices.{register_device_certificate}
use nexnet.Chain.Passkeys.{
  register_passkey_credential, begin_passkey_device_certificate_authorization,
}
use nexnet.Chain.PasskeyGrants.{authorize_device_certificate_with_passkey}
use nexnet.Chain.SshKeys.{register_ssh_key, authorize_device_certificate_with_ssh_key}
use nexnet.Chain.Validators.{join_validator_set, leave_validator_set}

-- What the chain calls and does not implement.
pub record Platform : Type 0 where
  pub crypto : Crypto
  pub lower : Text → Text
  pub verify_assertion : PasskeyAssertion → Text → PasskeyCredential → Option ℕ

pub data Call : Type 0 where
  registers_account records_activity : Bytes → Call
  registers_username : Text → Bytes → Bytes → Call
  registers_identity : Bytes → Bytes → Bytes → Call
  registers_device : Bytes → DeviceCertificate → Call
  registers_passkey : Bytes → Bytes → PasskeyCredential → Bytes → Call
  begins_passkey : Bytes → Bytes → DeviceCertificate → Call
  grants_by_passkey : Bytes → DeviceCertificate → PasskeyAssertion → Option Text → Call
  registers_ssh : Bytes → Bytes → SshKeyCommitment → Bytes → Call
  grants_by_ssh : Bytes → DeviceCertificate → Text → Call
  revokes : Bytes → Revocation → Call
  joins_validators : Bytes → ℕ → Call
  leaves_validators : Bytes → Call

-- A call that throws before its first write leaves the chain as it was.
abbrev pub after : {A : Type 0} → Chain → Result ChainError (Chain × A) → Chain
after s (ok (t, a)) = t
after s (err e) = s

abbrev pub after' : Chain → Result ChainError Chain → Chain
after' s (ok t) = t
after' s (err e) = s

module _ (platform : Platform) where
  open platform use {crypto, lower, verify_assertion}

  unfoldable pub step : Chain → ℕ × Call → Chain
  step s (now, registers_account wallet) = register_account now wallet s
  step s (now, records_activity wallet) = record_activity now wallet s
  step s (now, registers_username name wallet id) =
      after s (register_username lower now name wallet id s)
  step s (now, registers_identity wallet id proof) =
      after s (register_identity crypto now wallet id proof s)
  step s (now, registers_device wallet cert) =
      after s (register_device_certificate crypto now wallet cert s)
  step s (now, registers_passkey wallet id cred sig) =
      after s (register_passkey_credential crypto wallet id cred sig s)
  step s (now, begins_passkey nonce id cert) =
      (begin_passkey_device_certificate_authorization now nonce id cert s).0
  step s (now, grants_by_passkey id cert assertion expected) =
      (authorize_device_certificate_with_passkey verify_assertion now id cert assertion expected
        s).0
  step s (now, registers_ssh wallet id key sig) =
      after s (register_ssh_key crypto wallet id key sig s)
  step s (now, grants_by_ssh id cert fingerprint) =
      after s (authorize_device_certificate_with_ssh_key now id cert fingerprint s)
  step s (now, revokes wallet revocation) =
      after' s (revoke_credential crypto now wallet revocation s)
  step s (now, joins_validators wallet stake) = after s (join_validator_set now wallet stake s)
  step s (now, leaves_validators wallet) = after' s (leave_validator_set wallet s)

  unfoldable pub run : Chain → List (ℕ × Call) → Chain
  run s [] = s
  run s (c ∷ cs) = run (step s c) cs
