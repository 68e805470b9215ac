-- ===== src/Chain/Devices.antt =====
-- `registerDeviceCertificate`, `resolveDeviceCertificate`, `getDeviceAuthorization`, and the checks
-- that every way to authorise a device shares.
pub mod Trust
use nexnet.Common.{
  ℕ, Bool, true, false, not, ◌&&◌, ◌||◌, Option, none, some, ltb, leb, ◌==◌, if◌then◌else◌, Result,
  ok, err, ◌>>=◌, ◌>>◌, throw_if, Bytes, Text, same, to_hex, length,
}
use nexnet.Common.Map
use nexnet.Common.Map.{Map, text_key}
use nexnet.Crypto.{Crypto}
use nexnet.Protocol.Types.{DeviceCertificate, device, DeviceAuthorization, root, by_ssh, by_passkey}
use nexnet.Protocol.Credentials.{verify_device_cert}
use nexnet.Chain.State.{
  Chain, ChainError, invalid_device_certificate, invalid_device_certificate_signature,
  device_revoked, device_authorised_differently, root_test, is_revoked_key, device_certificate_key,
}
use nexnet.Chain.Revocations.{is_certificate_revoked}

-- The lengths and the window; a number of the model is finite.
lengths_and_window : ℕ → DeviceCertificate → Bool
lengths_and_window now certificate =
    (length certificate.device_id == 32)
    && (length certificate.device_signing_public_key == 32)
    && (length certificate.device_encryption_public_key == 32)
    && (length certificate.root_signature == 64)
    && ltb certificate.issued_at certificate.expires_at
    && ltb now certificate.expires_at

unfoldable pub is_device_certificate_shape_valid : ℕ → DeviceCertificate → Bytes → Bool
unfolding lengths_and_window
is_device_certificate_shape_valid now certificate identity_id =
    (length certificate.account_id == 32)
    && same certificate.account_id identity_id
    && lengths_and_window now certificate

-- `authorization?.kind === next.kind && (authorization?.credentialId ?? null) === next.credentialId`
unfoldable pub same_authorization : Option DeviceAuthorization → DeviceAuthorization → Bool
same_authorization (some root) root = true
same_authorization (some (by_ssh a)) (by_ssh b) = same a b
same_authorization (some (by_passkey a)) (by_passkey b) = same a b
same_authorization _ _ = false

conflicts :
    ℕ
    → Option DeviceCertificate
    → Option DeviceAuthorization
    → DeviceCertificate
    → DeviceAuthorization
    → Bool
conflicts now none authorization certificate next = false
conflicts now (some existing) authorization certificate next =
    if leb existing.expires_at now
    then false
    else not (same existing.device_signing_public_key certificate.device_signing_public_key)
      || not (same_authorization authorization next)

unfoldable pub assert_no_conflicting_device :
    ℕ → DeviceCertificate → DeviceAuthorization → Chain → Result ChainError (Unit {0})
unfolding conflicts
assert_no_conflicting_device now certificate next s =
    let key = device_certificate_key certificate.account_id certificate.device_id in
    throw_if
      (conflicts now (Map.get s.device_certificates key) (Map.get s.device_authorizations key)
        certificate next)
      device_authorised_differently

-- The two writes that store a certificate with what vouches for it.
unfoldable pub store_certificate : DeviceCertificate → DeviceAuthorization → Chain → Chain
store_certificate certificate authorization s =
    let key = device_certificate_key certificate.account_id certificate.device_id in
    record s {
      device_certificates = Map.set s.device_certificates key certificate;
      device_authorizations = Map.set s.device_authorizations key authorization;
    }

unfoldable pub register_device_certificate :
    Crypto → ℕ → Bytes → DeviceCertificate → Chain → Result ChainError (Chain × DeviceCertificate)
unfolding lengths_and_window
register_device_certificate crypto now wallet certificate s = do
  throw_if
      (not (length wallet == 32)
        || not (length certificate.account_id == 32)
        || not (lengths_and_window now certificate))
      invalid_device_certificate
  let identity_hex = to_hex certificate.account_id
  root_test (Map.get s.identity_roots identity_hex) wallet
  throw_if (not (verify_device_cert crypto certificate wallet)) invalid_device_certificate_signature
  throw_if (is_revoked_key s identity_hex device (to_hex certificate.device_id)) device_revoked
  assert_no_conflicting_device now certificate root s
  ok (store_certificate certificate root s, certificate)

-- The certificate is in its window at `now`.
in_window : ℕ → DeviceCertificate → Bool
in_window now certificate = leb certificate.issued_at now && ltb now certificate.expires_at

unfoldable pub resolve_device_certificate : ℕ → Bytes → Bytes → Chain → Option DeviceCertificate
unfolding in_window
resolve_device_certificate now identity_id device_id s =
    elim (Map.get s.device_certificates (device_certificate_key identity_id device_id)) [
      | none ↦ none
      | some certificate ↦
          if not (in_window now certificate) || is_certificate_revoked identity_id device_id s
          then none
          else some certificate
    ]

unfoldable pub get_device_authorization : Bytes → Bytes → Chain → Option DeviceAuthorization
get_device_authorization identity_id device_id s =
    Map.get s.device_authorizations (device_certificate_key identity_id device_id)
