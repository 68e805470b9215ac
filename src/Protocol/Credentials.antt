-- ===== src/Protocol/Credentials.antt =====
-- packages/protocol/src/credentials.ts and device-cert.ts: what each root signature covers.
use nexnet.Common.{ℕ, Bool, List, [], ◌∷◌, ◌++◌, Bytes, Text, codes}
use nexnet.Crypto.{Crypto, Field, text, bytes, number}
use nexnet.Protocol.Types.{
  DeviceCertificate, SshKeyCommitment, Revocation, PasskeyCredential, kind_text,
}

-- A field of the object that is encoded.
abbrev ◌:=◌ : Text → Field → Text × Field
◌:=◌ name value = (name, value)

infix 68 ◌:=◌
module _ (crypto : Crypto) where
  open crypto use {verify, derive_id, cde_encode}

  unfoldable pub identity_id_from_wallet : Bytes → Bytes
  identity_id_from_wallet wallet = derive_id (codes "nexnet identity id v1") wallet

  identity_proof_preimage : Bytes → Bytes
  identity_proof_preimage wallet = cde_encode (
      (codes "domain" := text (codes "nexnet identity registration v1"))
      ∷ (codes "wallet" := bytes wallet)
      ∷ [])

  unfoldable pub verify_identity_proof : Bytes → Bytes → Bool
  unfolding identity_proof_preimage
  verify_identity_proof wallet proof = verify wallet (identity_proof_preimage wallet) proof

  ssh_commitment_preimage : Bytes → SshKeyCommitment → Bytes
  ssh_commitment_preimage account_id commitment = cde_encode (
      (codes "domain" := text (codes "nexnet ssh key commitment v1"))
      ∷ (codes "accountId" := bytes account_id)
      ∷ (codes "algorithm" := text (codes "ssh-ed25519"))
      ∷ (codes "publicKey" := bytes commitment.public_key)
      ∷ [])

  unfoldable pub verify_ssh_commitment : Bytes → Bytes → SshKeyCommitment → Bytes → Bool
  unfolding ssh_commitment_preimage
  verify_ssh_commitment root_pk account_id commitment root_signature =
      verify root_pk (ssh_commitment_preimage account_id commitment) root_signature

  revocation_preimage : Revocation → Bytes
  revocation_preimage revocation = cde_encode (
      (codes "domain" := text (codes "nexnet revocation v1"))
      ∷ (codes "accountId" := bytes revocation.account_id)
      ∷ (codes "kind" := text (kind_text revocation.kind))
      ∷ (codes "credentialId" := text revocation.credential_id)
      ∷ (codes "sequence" := number revocation.sequence)
      ∷ [])

  unfoldable pub verify_revocation : Bytes → Revocation → Bool
  unfolding revocation_preimage
  verify_revocation root_pk revocation =
      verify root_pk (revocation_preimage revocation) revocation.root_signature

  sign_in_fields : Text → Text → Text → Text → ℕ → List (Text × Field)
  sign_in_fields audience method challenge_id nonce expires_at =
      (codes "domain" := text (codes "nexnet sign-in v1"))
      ∷ (codes "audience" := text audience)
      ∷ (codes "method" := text method)
      ∷ (codes "challengeId" := text challenge_id)
      ∷ (codes "nonce" := text nonce)
      ∷ (codes "expiresAt" := number expires_at)
      ∷ []

  certificate_fields : DeviceCertificate → List (Text × Field)
  certificate_fields certificate =
      (codes "accountId" := bytes certificate.account_id)
      ∷ (codes "deviceId" := bytes certificate.device_id)
      ∷ (codes "deviceSigningPublicKey" := bytes certificate.device_signing_public_key)
      ∷ (codes "deviceEncryptionPublicKey" := bytes certificate.device_encryption_public_key)
      ∷ (codes "certificateIssuedAt" := number certificate.issued_at)
      ∷ (codes "certificateExpiresAt" := number certificate.expires_at)
      ∷ (codes "capabilities" := number certificate.capabilities)
      ∷ []

  unfoldable pub sign_in_preimage : Text → Text → Text → Text → ℕ → DeviceCertificate → Bytes
  unfolding sign_in_fields certificate_fields
  sign_in_preimage audience method challenge_id nonce expires_at certificate = cde_encode (
      sign_in_fields audience method challenge_id nonce expires_at
      ++ certificate_fields certificate)

  device_cert_preimage : DeviceCertificate → List (Text × Field)
  device_cert_preimage cert =
      (codes "accountId" := bytes cert.account_id)
      ∷ (codes "deviceId" := bytes cert.device_id)
      ∷ (codes "deviceSigningPublicKey" := bytes cert.device_signing_public_key)
      ∷ (codes "deviceEncryptionPublicKey" := bytes cert.device_encryption_public_key)
      ∷ (codes "issuedAt" := number cert.issued_at)
      ∷ (codes "expiresAt" := number cert.expires_at)
      ∷ (codes "capabilities" := number cert.capabilities)
      ∷ []

  unfoldable pub verify_device_cert : DeviceCertificate → Bytes → Bool
  unfolding device_cert_preimage
  verify_device_cert cert root_pk =
      verify root_pk (cde_encode (device_cert_preimage cert)) cert.root_signature

  passkey_preimage : Bytes → PasskeyCredential → List (Text × Field)
  passkey_preimage account_id credential =
      (codes "accountId" := bytes account_id)
      ∷ (codes "credentialId" := text credential.credential_id)
      ∷ (codes "publicKey" := bytes credential.public_key)
      ∷ (codes "rpId" := text credential.rp_id)
      ∷ (codes "origin" := text credential.origin)
      ∷ []

  unfoldable pub verify_passkey_credential_authorization :
      Bytes → Bytes → PasskeyCredential → Bytes → Bool
  unfolding passkey_preimage
  verify_passkey_credential_authorization root_pk account_id credential root_signature =
      verify root_pk (cde_encode (passkey_preimage account_id credential)) root_signature
