-- ===== src/Chain/Calls/Takeover.antt =====
-- A live device certificate keeps its key and its authorisation, whoever calls.
use nexnet.Common.{ℕ, ◌<◌, Option, some, none, ◌≡◌, refl, true, ok, Bytes, Text, arith}
use nexnet.Common.Map
use nexnet.Common.Map.{Map, text_key, get-set}
use nexnet.Protocol.Types.{
  DeviceCertificate, PasskeyCredential, DeviceAuthorization, root, by_ssh, by_passkey,
}
use nexnet.Chain.State.{Chain, device_certificate_key}
use nexnet.Chain.Devices.{
  assert_no_conflicting_device, same_authorization, get_device_authorization,
}
use nexnet.Chain.Usernames.{register_account, record_activity, register_username}
use nexnet.Chain.Identity.{register_identity}
use nexnet.Chain.Revocations.{revoke_credential}
use nexnet.Chain.Devices.{register_device_certificate, store_certificate}
use nexnet.Chain.Passkeys.{
  register_passkey_credential, begin_passkey_device_certificate_authorization,
  prune_pending_passkeys,
}
use nexnet.Chain.PasskeyGrants.{authorize_device_certificate_with_passkey, finish_authorization}
use nexnet.Chain.PasskeyGrants.Cases.{authorize_cases}
use nexnet.Chain.SshKeys.{register_ssh_key, authorize_device_certificate_with_ssh_key}
use nexnet.Chain.Validators.{join_validator_set, leave_validator_set}
use nexnet.Chain.Calls.{Platform, Call, registers_device, grants_by_passkey, grants_by_ssh, step}

abbrev pub signing_key : Option DeviceCertificate → Option Bytes
signing_key none = none
signing_key (some c) = some c.device_signing_public_key

same_authorization-eq :
    (o : Option DeviceAuthorization) (a : DeviceAuthorization)
    → same_authorization o a ≡ true
    → o ≡ some a
unfolding same_authorization
same_authorization-eq o a e = ground arith

-- What holds at a key whose certificate is live.
record Kept (s t : Chain) (key : Text) (old : DeviceCertificate) : Type 0 where
  certified : signing_key (Map.get t.device_certificates key) ≡ some old.device_signing_public_key
  authorised : Map.get t.device_authorizations key ≡ Map.get s.device_authorizations key

store-Kept :
    (s t : Chain) (now : ℕ) (key : Text) (old cert : DeviceCertificate) (a : DeviceAuthorization)
    → Map.get s.device_certificates key ≡ some old
    → now < old.expires_at
    → assert_no_conflicting_device now cert a s ≡ ok tt
    → t.device_certificates
      ≡ Map.set s.device_certificates (device_certificate_key cert.account_id cert.device_id) cert
    → t.device_authorizations
      ≡ Map.set s.device_authorizations (device_certificate_key cert.account_id cert.device_id) a
    → Kept s t key old
unfolding assert_no_conflicting_device
store-Kept s t now key old cert a e live ok_ p q =
    let k = device_certificate_key cert.account_id cert.device_id in
    record {
      certified = ground (arith, get-set s.device_certificates k key cert);
      authorised = ground (
        arith,
        get-set s.device_authorizations k key a,
        same_authorization-eq (Map.get s.device_authorizations k) a,
      );
    }

-- The counter that an authorisation writes first concerns no certificate.
finish-Kept :
    (s : Chain) (now : ℕ) (i : Bytes) (cert : DeviceCertificate) (credential : PasskeyCredential)
    (n : ℕ) (key : Text) (old : DeviceCertificate)
    → Map.get s.device_certificates key ≡ some old
    → now < old.expires_at
    → Kept s (finish_authorization now i cert credential n s).0 key old
unfolding finish_authorization store_certificate assert_no_conflicting_device
finish-Kept s now i cert credential n key old e live =
    let t = store_certificate cert (by_passkey credential.credential_id) s in
    let kept = store-Kept s t now key old cert (by_passkey credential.credential_id) e live in
    record { certified = ground (arith, kept); authorised = ground (arith, kept) }

module _ (platform : Platform) where
  step-Kept :
      (s : Chain) (now : ℕ) (c : Call) (key : Text) (old : DeviceCertificate)
      → Map.get s.device_certificates key ≡ some old
      → now < old.expires_at
      → Kept s (step platform s (now, c)) key old
  unfolding step register_account record_activity register_username register_identity
      register_device_certificate store_certificate register_passkey_credential
      begin_passkey_device_certificate_authorization prune_pending_passkeys
      authorize_device_certificate_with_passkey register_ssh_key
      authorize_device_certificate_with_ssh_key revoke_credential join_validator_set
      leave_validator_set
  step-Kept s now (registers_device w cert) key old e live =
      let t = store_certificate cert root s in
      let kept = store-Kept s t now key old cert root e live in
      record { certified = ground (arith, kept); authorised = ground (arith, kept) }
  step-Kept s now (grants_by_ssh i cert fp) key old e live =
      let t = store_certificate cert (by_ssh fp) s in
      let kept = store-Kept s t now key old cert (by_ssh fp) e live in
      record { certified = ground (arith, kept); authorised = ground (arith, kept) }
  step-Kept s now (grants_by_passkey i cert a x) key old e live =
      authorize_cases platform.verify_assertion (λ t. Kept s t key old) now i cert a x s
        (record { certified = ground arith; authorised = refl })
        (λ credential n. finish-Kept s now i cert credential n key old e live)
  step-Kept s now _ key old e live = record { certified = ground arith; authorised = ground arith }

  -- While a device certificate is live no call, by whomever, replaces its signing key, and none changes
  -- what the device is authorised by.
  pub live_device_is_not_taken_over :
      (s : Chain) (now : ℕ) (c : Call) (identity_id device_id : Bytes) (old : DeviceCertificate)
      → Map.get s.device_certificates (device_certificate_key identity_id device_id) ≡ some old
      → now < old.expires_at
      → (signing_key (
            Map.get
              (step platform s (now, c)).device_certificates
              (device_certificate_key identity_id device_id))
          ≡ some old.device_signing_public_key)
        × (get_device_authorization identity_id device_id (step platform s (now, c))
            ≡ get_device_authorization identity_id device_id s)
  unfolding get_device_authorization
  live_device_is_not_taken_over s now c identity_id device_id old e live =
      let k = step-Kept s now c (device_certificate_key identity_id device_id) old e live in
      (k.certified, k.authorised)
