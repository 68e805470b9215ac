-- ===== src/Chain/Devices/Trust.antt =====
-- What makes a stored certificate resolve, and what stops it.
use nexnet.Common.{ℕ, ◌≤◌, ◌<◌, ◌≡◌, true, Option, some, none, ok, Bytes, Text, to_hex, arith}
use nexnet.Common.Map
use nexnet.Common.Map.{text_key, get-set}
use nexnet.Crypto.{Crypto}
use nexnet.Protocol.Types.{
  DeviceCertificate, CredentialKind, ssh, passkey, Revocation, DeviceAuthorization, root, by_ssh,
  by_passkey,
}
use nexnet.Chain.State.{Chain, is_revoked_key, revocation_key, device_certificate_key}
use nexnet.Chain.Revocations.{revoke_credential, is_certificate_revoked}
use nexnet.Chain.Devices.{
  register_device_certificate, resolve_device_certificate, store_certificate,
  get_device_authorization,
}

-- A certificate that the root registers resolves, unchanged, at every time of its window.
pub registered_certificate_resolves :
    (crypto : Crypto) (now later : ℕ) (wallet : Bytes) (certificate c : DeviceCertificate)
    (s t : Chain)
    → register_device_certificate crypto now wallet certificate s ≡ ok (t, c)
    → certificate.issued_at ≤ later
    → later < certificate.expires_at
    → resolve_device_certificate later certificate.account_id certificate.device_id t
      ≡ some certificate
unfolding register_device_certificate resolve_device_certificate store_certificate
    is_certificate_revoked is_revoked_key
registered_certificate_resolves crypto now later wallet certificate c s t e after before =
    let key = device_certificate_key certificate.account_id certificate.device_id in
    ground (
      arith,
      get-set s.device_certificates key key certificate,
      get-set s.device_authorizations key key root,
    )

-- The authorisation that a credential of a kind stands for.
abbrev Vouches : CredentialKind → Text → Option DeviceAuthorization → Type 0
Vouches ssh id (some (by_ssh a)) = a ≡ id
Vouches passkey id (some (by_passkey a)) = a ≡ id
Vouches _ _ _ = ⊥

vouched-IsRevoked :
    (kind : CredentialKind) (id : Text) (o : Option DeviceAuthorization)
    (identity_id device_id : Bytes) (s : Chain)
    → Map.get s.device_authorizations (device_certificate_key identity_id device_id) ≡ o
    → Vouches kind id o
    → is_revoked_key s (to_hex identity_id) kind id ≡ true
    → is_certificate_revoked identity_id device_id s ≡ true
unfolding is_certificate_revoked
vouched-IsRevoked ssh id (some (by_ssh a)) identity_id device_id s e v r = ground arith
vouched-IsRevoked passkey id (some (by_passkey a)) identity_id device_id s e v r = ground arith
vouched-IsRevoked kind id o identity_id device_id s e v r = ground arith

-- Directly after an SSH key or a passkey is revoked, no device that it vouches for resolves to a
-- certificate, whatever the time at which it is asked for.
pub revocation_reaches_devices :
    (crypto : Crypto) (now later : ℕ) (wallet device_id : Bytes) (r : Revocation) (s t : Chain)
    → revoke_credential crypto now wallet r s ≡ ok t
    → Vouches r.kind r.credential_id (get_device_authorization r.account_id device_id s)
    → resolve_device_certificate later r.account_id device_id t ≡ none
unfolding resolve_device_certificate get_device_authorization revoke_credential is_revoked_key
    Map.has
revocation_reaches_devices crypto now later wallet device_id r s t e v =
    let key = revocation_key (to_hex r.account_id) r.kind r.credential_id in
    ground (
      arith,
      get-set s.revocations key key r.sequence,
      vouched-IsRevoked r.kind r.credential_id
          (Map.get s.device_authorizations (device_certificate_key r.account_id device_id))
          r.account_id device_id t,
    )
