-- ===== src/Protocol/IdentityAuth.antt =====
-- packages/protocol/src/identity-auth.ts: proofs that a request comes from an identity.
use nexnet.Common.{
  ℕ, Bool, not, ◌||◌, ◌&&◌, ◌+◌, ◌*◌, Option, none, some, List, [], ◌∷◌, ltb, leb, ◌==◌,
  if◌then◌else◌, Bytes, Text, codes, same, length,
}
use nexnet.Crypto.{Crypto, Json, text, bytes, object}
use nexnet.Protocol.Types.{DeviceCertificate}
use nexnet.Protocol.Credentials.{identity_id_from_wallet, verify_device_cert}
use nexnet.Protocol.Wire.{from_hex}

pub record IdentityProof : Type 0 where
  pub root_public_key : Bytes
  pub certificate : Option DeviceCertificate
  pub signature : Bytes

-- The device of the certificate, or none for a signature of the root key.
pub record VerifiedIdentity : Type 0 where
  pub device_id : Option Bytes

-- The fields of a request without `auth`, in the order of their keys.
abbrev pub Fields : Type 0
Fields = List (Text × Json)

module _ (crypto : Crypto) (now : ℕ) where
  unfoldable pub identity_auth_preimage : Text → Bytes → Fields → Bytes
  identity_auth_preimage operation identity_id fields = crypto.cde_encode (
      (codes "domain", text (codes "nexnet identity auth v1"))
      ∷ (codes "operation", text operation)
      ∷ (codes "identityId", bytes identity_id)
      ∷ (codes "fields", object fields)
      ∷ [])

  -- The certificate is not of this identity, not in its window or not signed by the root key.
  unfoldable certificate_fails : DeviceCertificate → Bytes → Bytes → Bool
  certificate_fails cert root_public_key identity_id =
      not (same cert.account_id identity_id)
      || ltb now cert.issued_at
      || leb cert.expires_at now
      || not (verify_device_cert crypto cert root_public_key)

  -- The last check, of the signature under the key that is to have made it.
  unfoldable pub signed_by : Bytes → Option Bytes → Bytes → Bytes → Option VerifiedIdentity
  signed_by signing_key device_id preimage signature =
      if crypto.verify signing_key preimage signature
      then some (record { device_id = device_id })
      else none

  unfoldable pub verify_identity_auth :
      IdentityProof → Text → Bytes → Fields → Option VerifiedIdentity
  unfolding certificate_fails signed_by
  verify_identity_auth proof operation identity_id fields =
      let preimage = identity_auth_preimage operation identity_id fields in
      if not (length identity_id == 32)
        || not (same (identity_id_from_wallet crypto proof.root_public_key) identity_id)
      then none
      else elim proof.certificate [
        | none ↦ signed_by proof.root_public_key none preimage proof.signature
        | some cert ↦
            if certificate_fails cert proof.root_public_key identity_id
            then none
            else signed_by cert.device_signing_public_key (some cert.device_id) preimage
                proof.signature
      ]

  -- `auth` is the proof that `identityProofFromJson` reads, or none where that throws.
  unfoldable pub verify_identity_auth_json :
      Fields → Option IdentityProof → Text → Text → Option VerifiedIdentity
  unfolding from_hex verify_identity_auth
  verify_identity_auth_json fields auth operation identity_hex =
      if not (length identity_hex == 64) then none else elim auth [
        | none ↦ none
        | some proof ↦ elim (from_hex identity_hex) [
          | none ↦ none
          | some identity_id ↦ verify_identity_auth proof operation identity_id fields
        ]
      ]

abbrev pub identity_auth_max_skew_ms : ℕ
identity_auth_max_skew_ms = 5 * 60000

-- `Math.abs(now - issuedAt) <= IDENTITY_AUTH_MAX_SKEW_MS`, of a safe integer.
unfoldable pub is_fresh_issued_at : ℕ → ℕ → Bool
is_fresh_issued_at issued_at now =
    leb issued_at 9007199254740991
    && leb now (issued_at + identity_auth_max_skew_ms)
    && leb issued_at (now + identity_auth_max_skew_ms)
