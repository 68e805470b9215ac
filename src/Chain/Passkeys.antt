-- ===== src/Chain/Passkeys.antt =====
-- Passkeys: registration, and the certificates that they authorise. The WebAuthn library is the
-- parameter `verify_assertion`, and the authorisation is modelled with no other call between its two
-- halves, which an `await` of that library separates.
use nexnet.Common.{
  or_empty, ℕ, ◌+◌, ◌*◌, Bool, not, ◌&&◌, ◌||◌, List, [], ◌∷◌, ◌++◌, ltb, leb, ◌==◌, if◌then◌else◌,
  Result, ok, err, ◌>>◌, throw_if, Bytes, Text, same, to_hex, length, any_by, filter_by,
  starts_with,
}
use nexnet.Common.Map
use nexnet.Common.Map.{Map, text_key}
use nexnet.Crypto.{Crypto}
use nexnet.Protocol.Types.{DeviceCertificate, device, passkey, PasskeyCredential}
use nexnet.Protocol.Base64.{to_base64_url}
use nexnet.Protocol.Credentials.{verify_passkey_credential_authorization}
use nexnet.Chain.State.{
  Chain, PendingPasskeyAuthorization, ChainError, invalid_device_certificate, device_revoked,
  invalid_passkey_authorization, passkey_already_registered, no_passkey, too_many_pending,
  root_test, is_revoked_key, device_certificate_key,
}
use nexnet.Chain.Revocations.{max_safe_integer}
use nexnet.Chain.Devices.{is_device_certificate_shape_valid}

abbrev max_pending_passkeys : ℕ
max_pending_passkeys = 16

abbrev passkey_ttl_ms : ℕ
passkey_ttl_ms = 5 * 60000

unfoldable pub has_id : Text → PasskeyCredential → Bool
has_id id item = same item.credential_id id

unfoldable pub register_passkey_credential :
    Crypto
    → Bytes
    → Bytes
    → PasskeyCredential
    → Bytes
    → Chain
    → Result ChainError (Chain × PasskeyCredential)
unfolding has_id
register_passkey_credential crypto wallet identity_id credential root_signature s = do
  let identity_hex = to_hex identity_id
  root_test (Map.get s.identity_roots identity_hex) wallet
  throw_if
      ((length credential.credential_id == 0)
        || (length credential.public_key == 0)
        || not (leb credential.counter max_safe_integer)
        || (length credential.rp_id == 0)
        || (length credential.origin == 0)
        || not (length root_signature == 64)
        || not (
            verify_passkey_credential_authorization crypto wallet identity_id credential
              root_signature))
      invalid_passkey_authorization
  let credentials = or_empty (Map.get s.passkeys identity_hex)
  throw_if (any_by (has_id credential.credential_id) credentials) passkey_already_registered
  ok (
    record s { passkeys = Map.set s.passkeys identity_hex (credentials ++ (credential ∷ [])) },
    credential,
  )

live_passkeys : Text → Chain → List PasskeyCredential
live_passkeys identity_hex s =
    filter_by (λ item. not (is_revoked_key s identity_hex passkey item.credential_id))
      (or_empty (Map.get s.passkeys identity_hex))

unfoldable pub has_live_passkey : Bytes → Chain → Bool
has_live_passkey identity_id s =
    any_by (λ item. not (is_revoked_key s (to_hex identity_id) passkey item.credential_id))
      (or_empty (Map.get s.passkeys (to_hex identity_id)))

-- `prunePendingPasskeys`: the entries that are left, and how many of them are this identity's.
kept_pending : ℕ → Map Text PendingPasskeyAuthorization → Map Text PendingPasskeyAuthorization
kept_pending now = filter_by (λ e. ltb now e.1.expires_at)

live_pending : Text → Map Text PendingPasskeyAuthorization → ℕ
live_pending identity_hex m =
    length (filter_by (λ e. starts_with e.0 (identity_hex ++ (b':' ∷ []))) m)

unfoldable pub prune_pending_passkeys : ℕ → Text → Chain → Chain × ℕ
unfolding kept_pending live_pending
prune_pending_passkeys now identity_hex s =
    let kept = kept_pending now s.pending_passkey_authorizations in
    (record s { pending_passkey_authorizations = kept }, live_pending identity_hex kept)

pub record Challenge : Type 0 where
  pub challenge : Text
  pub expires_at : ℕ

-- The end of the call, after the prune: its error leaves the pruned state.
add_pending : ℕ → Bytes → DeviceCertificate → Text → Chain × ℕ → Chain × Result ChainError Challenge
add_pending now nonce certificate key (s, pending_count) =
    if leb max_pending_passkeys pending_count && not (Map.has s.pending_passkey_authorizations key)
    then (s, err too_many_pending)
    else (
      record s {
        pending_passkey_authorizations = Map.set s.pending_passkey_authorizations key (record {
          challenge = to_base64_url nonce;
          certificate = certificate;
          expires_at = now + passkey_ttl_ms;
        });
      },
      ok (record { challenge = to_base64_url nonce; expires_at = now + passkey_ttl_ms }),
    )

-- The checks before the prune.
begin_checks : ℕ → Bytes → DeviceCertificate → Chain → Result ChainError (Unit {0})
unfolding live_passkeys
begin_checks now identity_id certificate s = do
  let identity_hex = to_hex identity_id
  throw_if
      (not (Map.has s.identity_roots identity_hex)
        || not (is_device_certificate_shape_valid now certificate identity_id))
      invalid_device_certificate
  throw_if (length (live_passkeys identity_hex s) == 0) no_passkey
  throw_if (is_revoked_key s identity_hex device (to_hex certificate.device_id)) device_revoked

-- `nonce` is `randomBytes(32)`.
unfoldable pub begin_passkey_device_certificate_authorization :
    ℕ → Bytes → Bytes → DeviceCertificate → Chain → Chain × Result ChainError Challenge
unfolding begin_checks add_pending
begin_passkey_device_certificate_authorization now nonce identity_id certificate s =
    elim (begin_checks now identity_id certificate s) [
      | err e ↦ (s, err e)
      | ok _ ↦
          add_pending now nonce certificate
            (device_certificate_key identity_id certificate.device_id)
            (prune_pending_passkeys now (to_hex identity_id) s)
    ]
