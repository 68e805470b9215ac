-- ===== src/Chain/PasskeyGrants.antt =====
-- `authorizeDeviceCertificateWithPasskey`.
pub mod Cases
use nexnet.Common.{
  or_empty, ℕ, Bool, true, false, not, ◌&&◌, ◌||◌, Option, none, some, List, [], ◌∷◌, map, ltb, leb,
  ◌==◌, if◌then◌else◌, Result, ok, err, ◌>>=◌, ◌>>◌, throw_if, or_throw, Bytes, Text, same, to_hex,
  length, find_by,
}
use nexnet.Common.Map
use nexnet.Common.Map.{Map, text_key}
use nexnet.Protocol.Types.{
  DeviceCertificate, passkey, PasskeyCredential, PasskeyAssertion, by_passkey,
}
use nexnet.Chain.State.{
  Chain, PendingPasskeyAuthorization, ChainError, passkey_authorization_missing,
  passkey_not_authorized, invalid_passkey_assertion, is_revoked_key, device_certificate_key,
}
use nexnet.Chain.Devices.{
  is_device_certificate_shape_valid, assert_no_conflicting_device, store_certificate,
}
use nexnet.Chain.Passkeys.{has_id}

unfoldable same_device_certificate : DeviceCertificate → DeviceCertificate → Bool
same_device_certificate a b =
    same a.account_id b.account_id
    && same a.device_id b.device_id
    && same a.device_signing_public_key b.device_signing_public_key
    && same a.device_encryption_public_key b.device_encryption_public_key
    && (a.issued_at == b.issued_at)
    && (a.expires_at == b.expires_at)
    && (a.capabilities == b.capabilities)
    && same a.root_signature b.root_signature

-- The challenge to verify against: the pending one, which must be there, current and for this
-- certificate, or the one that the caller expects.
challenge_for :
    ℕ
    → Bytes
    → DeviceCertificate
    → Option Text
    → Option PendingPasskeyAuthorization
    → Result ChainError Text
unfolding same_device_certificate
challenge_for now identity_id certificate none none = err passkey_authorization_missing
challenge_for now identity_id certificate none (some pending) =
    if ltb pending.expires_at now
      || not (is_device_certificate_shape_valid now certificate identity_id)
      || not (same_device_certificate pending.certificate certificate)
    then err passkey_authorization_missing
    else ok pending.challenge
challenge_for now identity_id certificate (some expected) pending =
    if (length expected == 0) || not (is_device_certificate_shape_valid now certificate identity_id)
    then err passkey_authorization_missing
    else ok expected

-- The credential that the assertion names, if it is not revoked.
live_credential : Text → Text → Chain → Result ChainError PasskeyCredential
live_credential identity_hex id s = do
  credential ←
      or_throw (find_by (has_id id) (or_empty (Map.get s.passkeys identity_hex)))
        passkey_not_authorized
  throw_if (is_revoked_key s identity_hex passkey credential.credential_id) passkey_not_authorized
  ok credential

-- `credential.counter = newCounter`, through the reference that `find` returned.
set_counter : Text → ℕ → List PasskeyCredential → List PasskeyCredential
set_counter id counter [] = []
set_counter id counter (c ∷ cs) =
    if has_id id c then record c { counter = counter } ∷ cs else c ∷ set_counter id counter cs

-- After the `await`: the counter is written before the conflict is looked for.
unfoldable pub finish_authorization :
    ℕ
    → Bytes
    → DeviceCertificate
    → PasskeyCredential
    → ℕ
    → Chain
    → Chain × Result ChainError DeviceCertificate
unfolding set_counter
finish_authorization now identity_id certificate credential new_counter s =
    let identity_hex = to_hex identity_id in
    let counted = record s {
      passkeys = Map.set s.passkeys identity_hex (
          set_counter credential.credential_id new_counter
            (or_empty (Map.get s.passkeys identity_hex)));
    } in
    let authorization = by_passkey credential.credential_id in
    elim (assert_no_conflicting_device now certificate authorization counted) [
      | err e ↦ (counted, err e)
      | ok _ ↦ (
        let stored = store_certificate certificate authorization counted in
            record stored {
              pending_passkey_authorizations =
                  Map.delete stored.pending_passkey_authorizations
                    (device_certificate_key identity_id certificate.device_id);
            },
        ok certificate,
      )
    ]

-- An assertion that the library does not verify, or throws on, is `none`.
conclude :
    ℕ
    → Bytes
    → DeviceCertificate
    → Result ChainError (PasskeyCredential × Option ℕ)
    → Chain
    → Chain × Result ChainError DeviceCertificate
unfolding finish_authorization
conclude now identity_id certificate (err e) s = (s, err e)
conclude now identity_id certificate (ok (credential, none)) s = (s, err invalid_passkey_assertion)
conclude now identity_id certificate (ok (credential, some new_counter)) s =
    finish_authorization now identity_id certificate credential new_counter s

-- `verify_assertion`, by assertion, challenge and credential, is the WebAuthn library's: the new
-- counter, if the assertion is verified.
module _ (verify_assertion : PasskeyAssertion → Text → PasskeyCredential → Option ℕ) where
  -- Up to the answer of the library: the credential and its verdict.
  check_assertion :
      ℕ
      → Bytes
      → DeviceCertificate
      → PasskeyAssertion
      → Option Text
      → Chain
      → Result ChainError (PasskeyCredential × Option ℕ)
  unfolding challenge_for live_credential
  check_assertion now identity_id certificate assertion expected s = do
    let pending =
        Map.get s.pending_passkey_authorizations
          (device_certificate_key identity_id certificate.device_id)
    challenge ← challenge_for now identity_id certificate expected pending
    credential ← live_credential (to_hex identity_id) assertion.id s
    ok (credential, verify_assertion assertion challenge credential)

  unfoldable pub authorize_device_certificate_with_passkey :
      ℕ
      → Bytes
      → DeviceCertificate
      → PasskeyAssertion
      → Option Text
      → Chain
      → Chain × Result ChainError DeviceCertificate
  unfolding check_assertion conclude
  authorize_device_certificate_with_passkey now identity_id certificate assertion expected s =
      conclude now identity_id certificate
        (check_assertion now identity_id certificate assertion expected s) s
