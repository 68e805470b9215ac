-- ===== src/Chain/Revocations.antt =====
-- `revokeCredential`, `isRevoked` and `isCertificateRevoked`.
pub mod Exact
use nexnet.Common.{
  ℕ, ◌+◌, ◌-◌, ◌*◌, ◌^◌, Bool, true, false, not, ◌&&◌, ◌||◌, Option, none, some, List, [], ◌∷◌, ltb,
  leb, ◌==◌, if◌then◌else◌, Result, ok, err, ◌>>=◌, ◌>>◌, throw_if, Bytes, Text, codes, same,
  to_hex, length, all_by, take, drop,
}
use nexnet.Common.Map
use nexnet.Common.Map.{Map, text_key}
use nexnet.Crypto.{Crypto}
use nexnet.Protocol.Types.{
  CredentialKind, device, ssh, passkey, Revocation, DeviceAuthorization, root, by_ssh, by_passkey,
}
use nexnet.Protocol.Credentials.{verify_revocation}
use nexnet.Chain.State.{
  Chain, ChainError, invalid_revocation, stale_revocation, root_test, revocation_key,
  is_revoked_key, device_certificate_key,
}

abbrev max_revocation_sequence_ahead_ms : ℕ
max_revocation_sequence_ahead_ms = 24 * 60 * 60 * 1000

abbrev pub max_safe_integer : ℕ
max_safe_integer = 2 ^ 53 - 1

-- `/^[0-9a-f]{64}$/`
abbrev is_hex_char : ℕ → Bool
is_hex_char c = (leb b'0' c && leb c b'9') || (leb b'a' c && leb c b'f')

-- `[A-Za-z0-9+/]`
abbrev is_base64_char : ℕ → Bool
is_base64_char c =
    (leb b'A' c && leb c b'Z')
    || (leb b'a' c && leb c b'z')
    || (leb b'0' c && leb c b'9')
    || (c == b'+')
    || (c == b'/')

well_formed_by_kind : CredentialKind → Text → Bool
well_formed_by_kind device id = length id == 64 && all_by is_hex_char id
well_formed_by_kind ssh id =
    same (take 7 id) (codes "SHA256:")
    && (length (drop 7 id) == 43)
    && all_by is_base64_char (drop 7 id)
well_formed_by_kind passkey id = true

unfoldable pub is_credential_id_well_formed : CredentialKind → Text → Bool
unfolding well_formed_by_kind
is_credential_id_well_formed kind id =
    if length id == 0 || ltb 256 (length id) then false else well_formed_by_kind kind id

-- `this.revocationSequences.get(identityHex) ?? 0`
abbrev last_sequence : Option ℕ → ℕ
last_sequence none = 0
last_sequence (some n) = n

module _ (crypto : Crypto) where
  -- The kind is one of three by its type.
  revocation_invalid : ℕ → Bytes → Revocation → Bool
  revocation_invalid now wallet revocation =
      not (is_credential_id_well_formed revocation.kind revocation.credential_id)
      || not (leb revocation.sequence max_safe_integer)
      || ltb revocation.sequence 1
      || ltb (now + max_revocation_sequence_ahead_ms) revocation.sequence
      || not (length revocation.root_signature == 64)
      || not (verify_revocation crypto wallet revocation)

  unfoldable pub revoke_credential : ℕ → Bytes → Revocation → Chain → Result ChainError Chain
  unfolding revocation_invalid
  revoke_credential now wallet revocation s = do
    let identity_hex = to_hex revocation.account_id
    root_test (Map.get s.identity_roots identity_hex) wallet
    throw_if (revocation_invalid now wallet revocation) invalid_revocation
    throw_if (leb revocation.sequence (last_sequence (Map.get s.revocation_sequences identity_hex)))
        stale_revocation
    ok (record s {
      revocation_sequences = Map.set s.revocation_sequences identity_hex revocation.sequence;
      revocations =
          Map.set s.revocations
            (revocation_key identity_hex revocation.kind revocation.credential_id)
            revocation.sequence;
    })

unfoldable pub is_revoked : Bytes → CredentialKind → Text → Chain → Bool
is_revoked identity_id kind credential_id s =
    is_revoked_key s (to_hex identity_id) kind credential_id

-- The credential that vouches for the device is revoked.
authorization_revoked : Chain → Text → Option DeviceAuthorization → Bool
authorization_revoked s identity_hex none = false
authorization_revoked s identity_hex (some root) = false
authorization_revoked s identity_hex (some (by_ssh id)) = is_revoked_key s identity_hex ssh id
authorization_revoked s identity_hex (some (by_passkey id)) =
    is_revoked_key s identity_hex passkey id

unfoldable pub is_certificate_revoked : Bytes → Bytes → Chain → Bool
unfolding authorization_revoked
is_certificate_revoked identity_id device_id s =
    if is_revoked_key s (to_hex identity_id) device (to_hex device_id)
    then true
    else authorization_revoked s (to_hex identity_id)
        (Map.get s.device_authorizations (device_certificate_key identity_id device_id))
