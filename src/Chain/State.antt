-- ===== src/Chain/State.antt =====
-- The state of `DevChainClient`: its maps, keyed by the hex of identities and wallets, its limits and
-- its errors. `Date.now()` is the argument `now` of each call, and `persist` writes a file and changes
-- no state.
use nexnet.Common.{
  ℕ, ◌*◌, Bool, Option, none, some, List, [], ◌∷◌, ◌++◌, Result, err, throw_if, not, Bytes, Text,
  same, to_hex,
}
use nexnet.Common.Map
use nexnet.Common.Map.{Map, text_key}
use nexnet.Protocol.Types.{
  DeviceCertificate, DeviceAuthorization, PasskeyCredential, SshKeyCommitment, CredentialKind,
  kind_text,
}

abbrev pub min_account_age_ms : ℕ
min_account_age_ms = 7 * 24 * 60 * 60 * 1000

abbrev pub inactivity_release_ms : ℕ
inactivity_release_ms = 90 * 24 * 60 * 60 * 1000

pub record AccountMeta : Type 0 where
  pub created_at : ℕ
  pub last_active_at : ℕ

pub record UsernameRecord : Type 0 where
  pub username : Text
  pub owner_wallet : Bytes
  pub identity_id : Bytes
  pub registered_at : ℕ

pub record ValidatorRecord : Type 0 where
  pub wallet : Bytes
  pub bonded_stake : ℕ
  pub effective_power : ℕ
  pub joined_at : ℕ

-- The certificate is kept with its bytes in base64, which is read back unchanged.
pub record PendingPasskeyAuthorization : Type 0 where
  pub challenge : Text
  pub certificate : DeviceCertificate
  pub expires_at : ℕ

pub record Chain : Type 0 where
  pub usernames : Map Text UsernameRecord
  pub wallet_to_username : Map Text Text
  pub history : Map Text (List UsernameRecord)
  pub identity_roots : Map Text Bytes
  pub device_certificates : Map Text DeviceCertificate
  pub passkeys : Map Text (List PasskeyCredential)
  pub pending_passkey_authorizations : Map Text PendingPasskeyAuthorization
  pub ssh_keys : Map Text (List SshKeyCommitment)
  pub revocations : Map Text ℕ
  pub revocation_sequences : Map Text ℕ
  pub device_authorizations : Map Text DeviceAuthorization
  pub accounts : Map Text AccountMeta
  pub validators : Map Text ValidatorRecord

abbrev pub empty : Chain
empty = record {
  usernames = [];
  wallet_to_username = [];
  history = [];
  identity_roots = [];
  device_certificates = [];
  passkeys = [];
  pending_passkey_authorizations = [];
  ssh_keys = [];
  revocations = [];
  revocation_sequences = [];
  device_authorizations = [];
  accounts = [];
  validators = [];
}

pub data ChainError : Type 0 where
  account_not_registered account_too_new wallet_owns_username identity_root_bound username_taken :
      ChainError
  transfer_disabled : ChainError
  invalid_identity_registration identity_id_mismatch invalid_identity_proof : ChainError
  not_identity_root invalid_device_certificate invalid_device_certificate_signature : ChainError
  device_revoked device_authorised_differently : ChainError
  invalid_passkey_authorization passkey_already_registered no_passkey too_many_pending : ChainError
  passkey_authorization_missing passkey_not_authorized invalid_passkey_assertion : ChainError
  invalid_ssh_authorization ssh_key_already_registered ssh_key_revoked too_many_ssh_keys :
      ChainError
  ssh_key_not_authorized invalid_revocation stale_revocation : ChainError
  already_validator insufficient_stake validator_set_full not_validator below_min_validators :
      ChainError

-- `if (!root || !root.equals(wallet)) throw new Error("Wallet is not the identity root")`
abbrev pub root_test : Option Bytes → Bytes → Result ChainError (Unit {0})
root_test none wallet = err not_identity_root
root_test (some root) wallet = throw_if (not (same root wallet)) not_identity_root

-- `${identityHex}:${kind}:${credentialId}`
unfoldable pub revocation_key : Text → CredentialKind → Text → Text
revocation_key identity_hex kind credential_id =
    identity_hex ++ (b':' ∷ (kind_text kind ++ (b':' ∷ credential_id)))

unfoldable pub is_revoked_key : Chain → Text → CredentialKind → Text → Bool
is_revoked_key s identity_hex kind credential_id =
    Map.has s.revocations (revocation_key identity_hex kind credential_id)

-- `${hex(identityId)}:${hex(deviceId)}`
unfoldable pub device_certificate_key : Bytes → Bytes → Text
device_certificate_key identity_id device_id = to_hex identity_id ++ (b':' ∷ to_hex device_id)
