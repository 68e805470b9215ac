-- ===== src/Chain/Calls/Tests.antt =====
-- The chain's theorems at small histories.
use nexnet.Common.{
  take, ℕ, zero, suc, ◌+◌, ◌≤◌, some, none, List, [], ◌∷◌, ◌≡◌, refl, true, ok, Bytes, Text, codes,
  map, leb, ◌&&◌, if◌then◌else◌, to_hex, text_discrete, trim, arith, length, ◌↔◌, ◌⊎◌, ite, err,
  ◌++◌,
}
use nexnet.Common.Map
use nexnet.Common.Map.{text_key}
use nexnet.Crypto.{Crypto}
use nexnet.Protocol.Types.{DeviceCertificate, SshKeyCommitment, Revocation, device, ssh}
use nexnet.Protocol.Credentials.{
  identity_id_from_wallet, verify_identity_proof, verify_device_cert, verify_ssh_commitment,
  verify_revocation,
}
use nexnet.Protocol.Ssh.{ssh_fingerprint, ssh_public_key_blob}
use nexnet.Protocol.Base64.{to_base64_url, standard_char}
use nexnet.Chain.State.{
  Chain, UsernameRecord, stale_revocation, empty, revocation_key, is_revoked_key,
  device_certificate_key,
}
use nexnet.Chain.Identity.{get_identity_root}
use nexnet.Chain.Revocations.{is_revoked, is_credential_id_well_formed, is_certificate_revoked}
use nexnet.Chain.Devices.{
  resolve_device_certificate, assert_no_conflicting_device, same_authorization,
  is_device_certificate_shape_valid, get_device_authorization,
}
use nexnet.Chain.SshKeys.{live_keys, resolve_ssh_key}
use nexnet.Chain.Usernames.{normalize, append_history}
use nexnet.Chain.Calls.Roots.{root_is_permanent}
use nexnet.Chain.Calls.Revoked.{revoked_device_never_resolves}
use nexnet.Chain.Calls.Names.{one_name_after_any_history}
use nexnet.Chain.Calls.SshLimit.{ssh_keys_stay_limited, live_ssh_keys}
use nexnet.Chain.Calls.ValidatorSet.{validators_stay_bounded, quorum_is_kept}
use nexnet.Chain.Calls.Takeover.{live_device_is_not_taken_over, signing_key}
use nexnet.Chain.Validators.Ranking.{IsRanked, list_validators_sorts}
use nexnet.Chain.Validators.{list_validators}
use nexnet.Chain.Revocations.Exact.{revokes_exactly, replay_is_stale}
use nexnet.Chain.Devices.Trust.{registered_certificate_resolves, revocation_reaches_devices}
use nexnet.Chain.Usernames.Claims.{MayRegister, register_username_iff, register_username_effect}
use nexnet.Chain.Usernames.{resolve_username, get_username_history}
use mathlib.Core.List.{Perm}
use nexnet.Chain.Usernames.{register_account, record_activity, register_username}
use nexnet.Chain.Identity.{register_identity}
use nexnet.Chain.Revocations.{revoke_credential}
use nexnet.Chain.Devices.{register_device_certificate, store_certificate}
use nexnet.Chain.Passkeys.{
  register_passkey_credential, begin_passkey_device_certificate_authorization,
  prune_pending_passkeys,
}
use nexnet.Chain.PasskeyGrants.{authorize_device_certificate_with_passkey}
use nexnet.Chain.SshKeys.{register_ssh_key, authorize_device_certificate_with_ssh_key}
use nexnet.Chain.Validators.{join_validator_set, leave_validator_set}
use nexnet.Chain.Calls.{
  Platform, Call, registers_account, registers_username, registers_identity, registers_device,
  registers_ssh, grants_by_ssh, revokes, joins_validators, leaves_validators, step, run,
}

abbrev replicate : ℕ → ℕ → Bytes
replicate zero b = []
replicate (suc n) b = b ∷ replicate n b

-- Signatures verify, an identity is its wallet, and `toLowerCase` is that of ASCII.
abbrev crypto : Crypto
crypto = record {
  verify = λ key message signature. true;
  derive_id = λ context bytes. bytes;
  sha256 = take 32;
  cde_encode = λ fields. [];
}

abbrev platform : Platform
platform = record {
  crypto = crypto;
  lower = map (λ c. if leb b'A' c && leb c b'Z' then c + 32 else c);
  verify_assertion = λ assertion challenge credential. some (credential.counter + 1);
}

abbrev alice : Bytes
alice = replicate 32 1

abbrev bob : Bytes
bob = replicate 32 2

abbrev phone : Bytes
phone = replicate 32 3

abbrev proof : Bytes
proof = replicate 64 9

abbrev certificate : DeviceCertificate
certificate = record {
  account_id = alice;
  device_id = phone;
  device_signing_public_key = replicate 32 4;
  device_encryption_public_key = replicate 32 5;
  issued_at = 10;
  expires_at = 900000000;
  capabilities = 1;
  root_signature = proof;
}

abbrev phone_revoked : Revocation
phone_revoked = record {
  account_id = alice;
  kind = device;
  credential_id = to_hex phone;
  sequence = 7;
  root_signature = proof;
}

-- Alice has an identity and a phone.
abbrev opening : List (ℕ × Call)
opening = (0, registers_identity alice alice proof) ∷ (10, registers_device alice certificate) ∷ []

-- The state that the tests start from; its line names all that they run.
started : Chain
unfolding run step register_account record_activity register_username register_identity
    register_device_certificate store_certificate register_passkey_credential
    begin_passkey_device_certificate_authorization prune_pending_passkeys
    authorize_device_certificate_with_passkey register_ssh_key
    authorize_device_certificate_with_ssh_key revoke_credential join_validator_set
    leave_validator_set get_identity_root Map.get Map.set Map.delete Map.has to_hex text_discrete
    identity_id_from_wallet verify_identity_proof verify_device_cert verify_ssh_commitment
    verify_revocation is_revoked_key revocation_key assert_no_conflicting_device
    device_certificate_key normalize trim append_history live_keys ssh_fingerprint
    ssh_public_key_blob to_base64_url standard_char is_revoked is_credential_id_well_formed
    is_certificate_revoked resolve_device_certificate get_device_authorization same_authorization
    is_device_certificate_shape_valid resolve_ssh_key
started = run platform empty opening

started_root : get_identity_root alice started ≡ some alice
unfolding started
started_root = refl

abbrev later_calls : List (ℕ × Call)
later_calls =
    (20, registers_account bob)
    ∷ (30, registers_username (codes "Alice") bob alice)
    ∷ (40, revokes alice phone_revoked)
    ∷ []

root_is_permanent_example : get_identity_root alice (run platform started later_calls) ≡ some alice
root_is_permanent_example = root_is_permanent platform started later_calls alice alice started_root

-- The phone is lost.
lost : Chain
unfolding started
lost = step platform started (40, revokes alice phone_revoked)

phone_is_lost : is_revoked alice device (to_hex phone) lost ≡ true
unfolding lost
phone_is_lost = refl

revoked_device_never_resolves_example :
    resolve_device_certificate 60 alice phone
      (run platform lost ((50, registers_device alice certificate) ∷ []))
    ≡ none
revoked_device_never_resolves_example =
    revoked_device_never_resolves platform lost ((50, registers_device alice certificate) ∷ []) 60
      alice phone phone_is_lost

abbrev named : List (ℕ × Call)
named =
    (0, registers_identity alice alice proof)
    ∷ (604800000, registers_username (codes " Alice") alice alice)
    ∷ []

abbrev alice_record : UsernameRecord
alice_record = record {
  username = codes "alice";
  owner_wallet = alice;
  identity_id = alice;
  registered_at = 604800000;
}

alice_named : Map.get (run platform empty named).usernames (codes "alice") ≡ some alice_record
unfolding started
alice_named = refl

one_name_after_any_history_example :
    (codes "alice" ≡ codes "alice") × (alice_record.username ≡ codes "alice")
one_name_after_any_history_example =
    one_name_after_any_history platform named (codes "alice") (codes "alice") alice_record
      alice_record alice_named alice_named refl

abbrev laptop_key : SshKeyCommitment
laptop_key = record {
  public_key = replicate 32 6;
  fingerprint = codes "SHA256:AAAAC3NzaC1lZDI1NTE5AAAAIAYGBgYGBgYGBgYGBgY";
}

-- The stand-in for SHA-256 keeps 32 bytes.
laptop_fingerprint : ssh_fingerprint crypto laptop_key.public_key ≡ laptop_key.fingerprint
unfolding started
laptop_fingerprint = refl

abbrev with_laptop : List (ℕ × Call)
with_laptop =
    (0, registers_identity alice alice proof) ∷ (5, registers_ssh alice alice laptop_key proof) ∷ []

laptop_resolves :
    resolve_ssh_key alice laptop_key.fingerprint (run platform empty with_laptop) ≡ some laptop_key
unfolding started
laptop_resolves = refl

ssh_keys_stay_limited_example :
    length (live_ssh_keys (to_hex alice) (run platform empty with_laptop)) ≤ 8
ssh_keys_stay_limited_example = ssh_keys_stay_limited platform with_laptop (to_hex alice)

abbrev joining : List (ℕ × Call)
joining =
    (1, joins_validators (replicate 32 1) 5)
    ∷ (2, joins_validators (replicate 32 2) 2000000)
    ∷ (3, joins_validators (replicate 32 3) 7)
    ∷ (4, joins_validators (replicate 32 4) 1)
    ∷ []

validators_stay_bounded_example : length (run platform empty joining).validators ≤ 21
validators_stay_bounded_example = validators_stay_bounded platform joining

quorum_is_kept_example :
    4
    ≤ length
        (run platform
          (run platform empty joining)
          ((9, leaves_validators (replicate 32 1)) ∷ [])).validators
unfolding started
quorum_is_kept_example =
    quorum_is_kept platform joining ((9, leaves_validators (replicate 32 1)) ∷ []) (omega arith)

list_validators_sorts_example :
    IsRanked (list_validators (run platform empty joining))
    × Perm
        (list_validators (run platform empty joining))
        (Map.values (run platform empty joining).validators)
list_validators_sorts_example = list_validators_sorts (run platform empty joining)

register_username_iff_example :
    ((t : Chain × UsernameRecord) × (register_username platform.lower 604800000
          (codes "Alice")
          alice
          alice
          started
        ≡ ok t))
    ↔ MayRegister platform.lower 604800000 (codes "Alice") alice alice started
register_username_iff_example =
    register_username_iff platform.lower 604800000 (codes "Alice") alice alice started

-- The chain after the phone's owner takes the name.
abbrev claimed : Chain
claimed = step platform started (604800000, registers_username (codes " Alice") alice alice)

claims :
    register_username platform.lower 604800000 (codes " Alice") alice alice started
    ≡ ok (claimed, alice_record)
unfolding started
claims = refl

register_username_effect_example :
    (alice_record ≡ alice_record)
    × ((q : Text)
        → resolve_username platform.lower q claimed
          ≡ ite
              (text_discrete (codes "alice") (normalize platform.lower q))
              (some alice_record)
              (resolve_username platform.lower q started))
    × ((q : Text)
        → get_username_history platform.lower q claimed
          ≡ ite
              (text_discrete (codes "alice") (normalize platform.lower q))
              (get_username_history platform.lower q started ++ (alice_record ∷ []))
              (get_username_history platform.lower q started))
unfolding started
register_username_effect_example =
    register_username_effect platform.lower 604800000 (codes " Alice") alice alice started claimed
      alice_record claims

phone_revocation : revoke_credential crypto 40 alice phone_revoked started ≡ ok lost
unfolding lost
phone_revocation = refl

revokes_exactly_example : (is_revoked bob device (to_hex phone) lost ≡ true) ↔ (
    ((bob ≡ alice) × (device ≡ device) × (to_hex phone ≡ to_hex phone))
    ⊎ (is_revoked bob device (to_hex phone) started ≡ true))
revokes_exactly_example =
    revokes_exactly crypto 40 alice phone_revoked started lost phone_revocation bob device
      (to_hex phone) (omega arith) (omega arith)

replay_is_stale_example :
    revoke_credential crypto 41 alice phone_revoked lost ≡ err stale_revocation
replay_is_stale_example =
    replay_is_stale crypto 40 alice phone_revoked started lost phone_revocation 41 (omega arith)

abbrev rooted : Chain
rooted = step platform empty (0, registers_identity alice alice proof)

phone_registration :
    register_device_certificate crypto 10 alice certificate rooted ≡ ok (started, certificate)
unfolding started
phone_registration = refl

registered_certificate_resolves_example :
    resolve_device_certificate 500 alice phone started ≡ some certificate
registered_certificate_resolves_example =
    registered_certificate_resolves crypto 10 500 alice certificate certificate rooted started
      phone_registration (omega arith) (omega arith)

abbrev by_laptop : Chain
by_laptop = run platform empty (
    (0, registers_identity alice alice proof)
    ∷ (5, registers_ssh alice alice laptop_key proof)
    ∷ (10, grants_by_ssh alice certificate laptop_key.fingerprint)
    ∷ [])

abbrev laptop_revoked : Revocation
laptop_revoked = record {
  account_id = alice;
  kind = ssh;
  credential_id = laptop_key.fingerprint;
  sequence = 8;
  root_signature = proof;
}

abbrev laptop_lost : Chain
laptop_lost = step platform by_laptop (60, revokes alice laptop_revoked)

laptop_revocation : revoke_credential crypto 60 alice laptop_revoked by_laptop ≡ ok laptop_lost
unfolding started
laptop_revocation = refl

revocation_reaches_devices_example : resolve_device_certificate 70 alice phone laptop_lost ≡ none
unfolding started
revocation_reaches_devices_example =
    revocation_reaches_devices crypto 60 70 alice phone laptop_revoked by_laptop laptop_lost
      laptop_revocation refl

started_certificate :
    Map.get started.device_certificates (device_certificate_key alice phone) ≡ some certificate
unfolding started
started_certificate = refl

-- Another key for the phone.
abbrev forged : DeviceCertificate
forged = record certificate { device_signing_public_key = replicate 32 7 }

live_device_is_not_taken_over_example :
    (signing_key (
        Map.get
          (step platform started (20, registers_device alice forged)).device_certificates
          (device_certificate_key alice phone))
      ≡ some certificate.device_signing_public_key)
    × (get_device_authorization alice phone
          (step platform started (20, registers_device alice forged))
        ≡ get_device_authorization alice phone started)
live_device_is_not_taken_over_example =
    live_device_is_not_taken_over platform started 20 (registers_device alice forged) alice phone
      certificate started_certificate (omega arith)
