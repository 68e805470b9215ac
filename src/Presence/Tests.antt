-- ===== src/Presence/Tests.antt =====
-- A tracker of workers/presence/src/index.ts with one identity, whose root key signs its requests.
use nexnet.Common.Hex.{is_id_hex}
use nexnet.Common.{
  ℕ, ◌⊎◌, arith, ◌≡◌, ◌≢◌, refl, Bool, true, false, none, some, [], ◌∷◌, Bytes, Text, codes, same,
  repeat, to_hex, text_discrete, ok, err,
}
use nexnet.Common.Map
use nexnet.Common.Map.{Map, text_key, object_key}
use nexnet.Crypto.{Crypto, string, integer}
use nexnet.Protocol.IdentityAuth.{
  Fields, VerifiedIdentity, verify_identity_auth_json, verify_identity_auth, signed_by,
  is_fresh_issued_at,
}
use nexnet.Protocol.Wire.{from_hex}
use nexnet.Protocol.Credentials.{identity_id_from_wallet}
use nexnet.Protocol.Requests.{Body, object_of, proof}
use nexnet.Presence.State.{Tracker, Refusal, fresh_tracker}
use nexnet.Presence.Requests.{
  SignedBody, read_body, keys_allowed, lease_of, verified_for, check_publish,
}
use nexnet.Presence.Tracker.{
  ensure_loaded, handle_publish, handle_query, claim_issued_at, keep_lease,
}
use nexnet.Common.Map.{Lists}
use nexnet.Presence.Calls.{
  Platform, publishes, run_write, run_call, writes, body_of, operation_of, Becomes, first_tracker,
}
use nexnet.Presence.Calls.Restart.{restart_loses_nothing}
use nexnet.Presence.Calls.Replay.{writes_are_accepted_once}
use nexnet.Presence.Calls.Owners.{only_the_identity_writes}

-- An identity is its root key, and a signature is the key.
abbrev crypto : Crypto
crypto = record {
  verify = λ key message signature. same key signature;
  derive_id = λ domain key. key;
  sha256 = λ bytes. bytes;
  cde_encode = λ fields. [];
}

abbrev platform : Platform
platform = record { crypto = crypto; verify_hex = λ key sig message. some true }

abbrev working : ℕ → Bool
working ws = false

abbrev alice : Bytes
alice = repeat 32 171

abbrev alice_hex : Text
unfolding to_hex
alice_hex = to_hex alice

abbrev fields : Fields
fields =
    (codes "identityId", string alice_hex)
    ∷ (codes "deviceId", string (repeat 64 b'7'))
    ∷ (codes "issuedAt", integer 5)
    ∷ (codes "expiresAt", integer 200000)
    ∷ []

abbrev request : Body
request =
    object_of fields
      (proof (record { root_public_key = alice; certificate = none; signature = alice }))

published : Tracker
published = (run_write platform working 10 (publishes request) first_tracker).0

abbrev alice_body : SignedBody
alice_body = record {
  identity = alice_hex;
  issued_at = 5;
  fields = fields;
  auth = proof (record { root_public_key = alice; certificate = none; signature = alice });
}

-- The lease lasts no longer than ninety seconds.
test_query : (handle_query 20 alice_hex published).1 ≡ some (90010, none)
unfolding published run_write handle_publish handle_query check_publish read_body keys_allowed
    lease_of verified_for verify_identity_auth_json verify_identity_auth signed_by
    identity_id_from_wallet from_hex is_id_hex to_hex text_discrete Map.get Map.set claim_issued_at
    keep_lease
test_query = refl

test_accepted : (run_write platform working 10 (publishes request) first_tracker).1 ≡ ok tt
unfolding run_write handle_publish check_publish read_body keys_allowed lease_of verified_for
    verify_identity_auth_json verify_identity_auth signed_by identity_id_from_wallet from_hex
    is_id_hex to_hex text_discrete Map.get Map.set claim_issued_at keep_lease
test_accepted = refl

test_read : body_of (publishes request) ≡ ok alice_body
unfolding read_body keys_allowed is_id_hex to_hex text_discrete Map.get
test_read = refl

writes_are_accepted_once_example :
    (run_write platform working 11
      (publishes request)
      (run_write platform working 10 (publishes request) first_tracker).0).1
    ≢ ok tt
writes_are_accepted_once_example =
    writes_are_accepted_once platform working working 10 11 (publishes request) (publishes request)
      alice_body alice_body first_tracker
      (run_write platform working 10 (publishes request) first_tracker).0 test_accepted test_read
      test_read refl (omega arith) Becomes.unchanged

published-Becomes : Becomes platform first_tracker published
unfolding published run_call
published-Becomes = Becomes.called working 10 (writes (publishes request)) Becomes.unchanged

published_listed : Lists published.storage published.storage
unfolding published run_write handle_publish check_publish read_body keys_allowed lease_of
    verified_for verify_identity_auth_json verify_identity_auth signed_by identity_id_from_wallet
    from_hex is_id_hex to_hex text_discrete Map.get Map.set claim_issued_at keep_lease
published_listed = (ground arith, λ key. refl)

restart_loses_nothing_example :
    (Map.get (ensure_loaded published.storage (fresh_tracker published.storage)).leases alice_hex
      ≡ Map.get published.leases alice_hex)
    × (Map.get (ensure_loaded published.storage (fresh_tracker published.storage)).prekeys alice_hex
        ≡ Map.get published.prekeys alice_hex)
restart_loses_nothing_example =
    restart_loses_nothing platform published published.storage alice_hex published-Becomes
      published_listed

only_the_identity_writes_example :
    ((e : Refusal) × (run_write platform working 10 (publishes request) first_tracker
        ≡ (first_tracker, err e)))
    ⊎ ((body : SignedBody) × (v : VerifiedIdentity) × ((run_write platform working 10
            (publishes request)
            first_tracker).1
          ≡ ok tt)
        × (body_of (publishes request) ≡ ok body)
        × (verified_for crypto 10 (operation_of (publishes request)) body ≡ some v)
        × (is_fresh_issued_at body.issued_at 10 ≡ true)
        × ((codes "bob" ≡ body.identity)
            ⊎ ((Map.get
                    (run_write platform working 10 (publishes request) first_tracker).0.leases
                    (codes "bob")
                  ≡ Map.get first_tracker.leases (codes "bob"))
                × (Map.get
                      (run_write platform working 10 (publishes request) first_tracker).0.prekeys
                      (codes "bob")
                    ≡ Map.get first_tracker.prekeys (codes "bob")))))
only_the_identity_writes_example =
    only_the_identity_writes platform working 10 (publishes request) first_tracker (codes "bob")
