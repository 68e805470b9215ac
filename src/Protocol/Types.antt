-- ===== src/Protocol/Types.antt =====
-- packages/types/src/index.ts: certificates, credentials and revocations.
use nexnet.Common.{ℕ, Option, Bytes, Text, codes}

pub record DeviceCertificate : Type 0 where
  pub account_id : Bytes
  pub device_id : Bytes
  pub device_signing_public_key : Bytes
  pub device_encryption_public_key : Bytes
  pub issued_at : ℕ
  pub expires_at : ℕ
  pub capabilities : ℕ
  pub root_signature : Bytes

pub record IdentityRecord : Type 0 where
  pub identity_id : Bytes
  pub wallet : Bytes
  pub created_at : ℕ
  pub username : Option Text

pub data CredentialKind : Type 0 where
  device ssh passkey : CredentialKind

-- The kind as the text of the union type.
abbrev pub kind_text : CredentialKind → Text
kind_text device = codes "device"
kind_text ssh = codes "ssh"
kind_text passkey = codes "passkey"

-- `algorithm` is always "ssh-ed25519".
pub record SshKeyCommitment : Type 0 where
  pub public_key : Bytes
  pub fingerprint : Text

pub record Revocation : Type 0 where
  pub account_id : Bytes
  pub kind : CredentialKind
  pub credential_id : Text
  pub sequence : ℕ
  pub root_signature : Bytes

-- `{ kind: "root", credentialId: null }`, or the credential that vouches for the device.
pub data DeviceAuthorization : Type 0 where
  root : DeviceAuthorization
  by_ssh : Text → DeviceAuthorization
  by_passkey : Text → DeviceAuthorization

pub record PasskeyCredential : Type 0 where
  pub credential_id : Text
  pub public_key : Bytes
  pub counter : ℕ
  pub rp_id : Text
  pub origin : Text

-- The fields that the WebAuthn library reads, beside the id that the chain looks up.
pub record PasskeyAssertion : Type 0 where
  pub id : Text
  client_data_json : Text
  authenticator_data : Text
  pub signature : Text
