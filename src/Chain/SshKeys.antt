-- ===== src/Chain/SshKeys.antt =====
-- SSH keys: registration, lookup, and the certificates that they authorise.
use nexnet.Common.{
  or_empty, ℕ, Bool, not, ◌||◌, Option, none, List, [], ◌∷◌, ◌++◌, leb, ◌==◌, if◌then◌else◌, Result,
  ok, ◌>>=◌, ◌>>◌, throw_if, or_throw, Bytes, Text, same, to_hex, length, any_by, filter_by,
  find_by,
}
use nexnet.Common.Map
use nexnet.Common.Map.{Map, text_key}
use nexnet.Crypto.{Crypto}
use nexnet.Protocol.Types.{DeviceCertificate, SshKeyCommitment, device, ssh, by_ssh}
use nexnet.Protocol.Credentials.{verify_ssh_commitment}
use nexnet.Protocol.Ssh.{ssh_fingerprint}
use nexnet.Chain.State.{
  Chain, ChainError, invalid_device_certificate, device_revoked, invalid_ssh_authorization,
  ssh_key_already_registered, ssh_key_revoked, too_many_ssh_keys, ssh_key_not_authorized, root_test,
  is_revoked_key,
}
use nexnet.Chain.Devices.{
  is_device_certificate_shape_valid, assert_no_conflicting_device, store_certificate,
}

abbrev pub max_ssh_keys : ℕ
max_ssh_keys = 8

abbrev has_fingerprint : Text → SshKeyCommitment → Bool
has_fingerprint fingerprint item = same item.fingerprint fingerprint

unfoldable pub live_keys : Text → Chain → List SshKeyCommitment → List SshKeyCommitment
live_keys identity_hex s =
    filter_by (λ item. not (is_revoked_key s identity_hex ssh item.fingerprint))

unfoldable pub register_ssh_key :
    Crypto
    → Bytes
    → Bytes
    → SshKeyCommitment
    → Bytes
    → Chain
    → Result ChainError (Chain × SshKeyCommitment)
unfolding live_keys
register_ssh_key crypto wallet identity_id commitment root_signature s = do
  let identity_hex = to_hex identity_id
  root_test (Map.get s.identity_roots identity_hex) wallet
  throw_if
      (not (length commitment.public_key == 32)
        || not (length root_signature == 64)
        || not (same commitment.fingerprint (ssh_fingerprint crypto commitment.public_key))
        || not (verify_ssh_commitment crypto wallet identity_id commitment root_signature))
      invalid_ssh_authorization
  let keys = or_empty (Map.get s.ssh_keys identity_hex)
  throw_if (any_by (has_fingerprint commitment.fingerprint) keys) ssh_key_already_registered
  throw_if (is_revoked_key s identity_hex ssh commitment.fingerprint) ssh_key_revoked
  throw_if (leb max_ssh_keys (length (live_keys identity_hex s keys))) too_many_ssh_keys
  ok (
    record s { ssh_keys = Map.set s.ssh_keys identity_hex (keys ++ (commitment ∷ [])) },
    commitment,
  )

unfoldable pub resolve_ssh_key : Bytes → Text → Chain → Option SshKeyCommitment
resolve_ssh_key identity_id fingerprint s =
    if is_revoked_key s (to_hex identity_id) ssh fingerprint
    then none
    else find_by (has_fingerprint fingerprint) (or_empty (Map.get s.ssh_keys (to_hex identity_id)))

unfoldable pub authorize_device_certificate_with_ssh_key :
    ℕ → Bytes → DeviceCertificate → Text → Chain → Result ChainError (Chain × DeviceCertificate)
authorize_device_certificate_with_ssh_key now identity_id certificate fingerprint s = do
  let identity_hex = to_hex identity_id
  throw_if
      (not (Map.has s.identity_roots identity_hex)
        || not (is_device_certificate_shape_valid now certificate identity_id))
      invalid_device_certificate
  key ← or_throw (resolve_ssh_key identity_id fingerprint s) ssh_key_not_authorized
  throw_if (is_revoked_key s identity_hex device (to_hex certificate.device_id)) device_revoked
  assert_no_conflicting_device now certificate (by_ssh fingerprint) s
  ok (store_certificate certificate (by_ssh fingerprint) s, certificate)
