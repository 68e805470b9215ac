-- ===== src/Presence/Requests.antt =====
-- workers/presence/src/index.ts: what is asked of a signed request before it changes anything.
use nexnet.Common.{
  ℕ, Bool, true, false, not, Option, none, some, List, [], ◌∷◌, all_by, any_by, leb, Result, ok,
  err, ◌>>=◌, ◌>>◌, throw_if, or_throw, Text, codes, same, to_hex,
}
use nexnet.Common.Map
use nexnet.Common.Map.{Map, text_key}
use nexnet.Crypto.{Crypto}
use nexnet.Protocol.IdentityAuth.{Fields, VerifiedIdentity, verify_identity_auth_json}
use nexnet.Protocol.Requests.{
  Auth, Body, invalid_json, not_an_object, object_of, proof_of, string_at, id_at, safe_integer_at,
  optional_string_at,
}
use nexnet.Presence.State.{
  PresenceLeaseData, Refusal, malformed, already_expired, invalid_key_material, unauthorized,
  invalid_signed_prekey,
}

-- `body.identityId`, `body.issuedAt`, the fields and the proof.
pub record SignedBody : Type 0 where
  pub identity : Text
  pub issued_at : ℕ
  pub fields : Fields
  pub auth : Auth

abbrev pub prekey_publish_keys : List Text
prekey_publish_keys =
    codes "identityId"
    ∷ codes "identityDhPublic"
    ∷ codes "signedPrekeyPublic"
    ∷ codes "signedPrekeySig"
    ∷ codes "identitySignPublic"
    ∷ codes "oneTimePrekeyPublic"
    ∷ codes "oneTimePrekeyId"
    ∷ codes "issuedAt"
    ∷ codes "auth"
    ∷ []

abbrev pub lease_publish_keys : List Text
lease_publish_keys =
    codes "identityId"
    ∷ codes "deviceId"
    ∷ codes "issuedAt"
    ∷ codes "expiresAt"
    ∷ codes "nonce"
    ∷ codes "relayHint"
    ∷ codes "auth"
    ∷ []

abbrev pub remove_keys : List Text
remove_keys = codes "identityId" ∷ codes "issuedAt" ∷ codes "auth" ∷ []

unfoldable pub keys_allowed : List Text → Fields → Bool
keys_allowed allowed fields = all_by (λ f. any_by (same f.0) allowed) fields

-- The key `auth` is in every set of allowed keys.
unfoldable pub read_body : Body → List Text → Result Refusal SignedBody
unfolding keys_allowed id_at safe_integer_at
read_body invalid_json allowed = err malformed
read_body not_an_object allowed = err malformed
read_body (object_of fields auth) allowed = do
  throw_if (not (keys_allowed allowed fields)) malformed
  identity ← or_throw (id_at (codes "identityId") fields) malformed
  issued_at ← or_throw (safe_integer_at (codes "issuedAt") fields) malformed
  ok (record { identity = identity; issued_at = issued_at; fields = fields; auth = auth })

-- The lease that a body describes, as far as its fields have the right types.
unfoldable pub lease_of : SignedBody → Result Refusal PresenceLeaseData
unfolding id_at safe_integer_at optional_string_at
lease_of body = do
  device ← or_throw (id_at (codes "deviceId") body.fields) malformed
  expires_at ← or_throw (safe_integer_at (codes "expiresAt") body.fields) malformed
  nonce ← or_throw (optional_string_at (codes "nonce") body.fields) malformed
  relay_hint ← or_throw (optional_string_at (codes "relayHint") body.fields) malformed
  ok (record {
    identity = body.identity;
    device = device;
    relay_hint = relay_hint;
    issued_at = body.issued_at;
    expires_at = expires_at;
    nonce = nonce;
  })

-- `verified.deviceId && toHex(verified.deviceId) !== body.deviceId`
abbrev pub other_device : VerifiedIdentity → Text → Bool
other_device verified device = elim verified.device_id [
  | none ↦ false
  | some device_id ↦ not (same (to_hex device_id) device)
]

-- The texts of a prekey bundle: the signing key, the signature and the signed prekey.
pub record SignedPrekey : Type 0 where
  pub sign_public : Text
  pub sig : Text
  pub prekey_public : Text

-- `value === undefined || Number.isSafeInteger(value)`
unfoldable pub optional_safe_integer : Text → Fields → Bool
unfolding safe_integer_at
optional_safe_integer key fields = elim (Map.get fields key) [
  | none ↦ true
  | some value ↦ elim (safe_integer_at key fields) [ none ↦ false | some n ↦ true ]
]

unfoldable pub prekey_of : SignedBody → Result Refusal SignedPrekey
unfolding string_at optional_string_at optional_safe_integer
prekey_of body = do
  dh ← or_throw (string_at (codes "identityDhPublic") body.fields) malformed
  prekey_public ← or_throw (string_at (codes "signedPrekeyPublic") body.fields) malformed
  sig ← or_throw (string_at (codes "signedPrekeySig") body.fields) malformed
  sign_public ← or_throw (string_at (codes "identitySignPublic") body.fields) malformed
  one_time ← or_throw (optional_string_at (codes "oneTimePrekeyPublic") body.fields) malformed
  throw_if (not (optional_safe_integer (codes "oneTimePrekeyId") body.fields)) malformed
  ok (record { sign_public = sign_public; sig = sig; prekey_public = prekey_public })

module _ (crypto : Crypto) (now : ℕ) where
  unfoldable pub verified_for : Text → SignedBody → Option VerifiedIdentity
  verified_for operation body =
      verify_identity_auth_json crypto now body.fields (proof_of body.auth) operation body.identity

  -- The checks of `handlePublish` before `claimIssuedAt`.
  unfoldable pub check_publish : Body → Result Refusal (SignedBody × PresenceLeaseData)
  check_publish request = do
    body ← read_body request lease_publish_keys
    lease ← lease_of body
    verified ← or_throw (verified_for (codes "presence.publish") body) unauthorized
    throw_if (other_device verified lease.device) unauthorized
    throw_if (leb lease.expires_at now) already_expired
    ok (body, lease)

  -- The same of `handlePrekeyPublish`. `verify_hex` is the verification of the signed prekey, from
  -- the hex texts of key, signature and message; `none` is where it throws.
  unfoldable pub check_prekey_publish :
      (Text → Text → Text → Option Bool) → Body → Result Refusal SignedBody
  check_prekey_publish verify_hex request = do
    body ← read_body request prekey_publish_keys
    prekey ← prekey_of body
    verified ← or_throw (verified_for (codes "prekeys.publish") body) unauthorized
    valid ←
        or_throw (verify_hex prekey.sign_public prekey.sig prekey.prekey_public)
          invalid_key_material
    throw_if (not valid) invalid_signed_prekey
    ok body

  -- The checks of `authorizeRemove` before `claimIssuedAt`; `path` is the identity of the path.
  unfoldable pub check_remove : Text → Body → Text → Result Refusal SignedBody
  check_remove operation request path = do
    body ← read_body request remove_keys
    throw_if (not (same body.identity path)) malformed
    verified ← or_throw (verified_for operation body) unauthorized
    ok body
