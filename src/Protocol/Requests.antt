-- ===== src/Protocol/Requests.antt =====
-- JSON bodies of signed requests, `{ ...fields, auth }`, as the workers read them.
use nexnet.Common.{ℕ, ◌-◌, ◌^◌, Option, none, some, Text, leb, if◌then◌else◌}
use nexnet.Common.Hex.{is_id_hex}
use nexnet.Common.Map
use nexnet.Common.Map.{Map, text_key}
use nexnet.Crypto.{string, integer}
use nexnet.Protocol.IdentityAuth.{Fields, IdentityProof}

-- `body.auth`: `unread` where `identityProofFromJson` throws.
pub data Auth : Type 0 where
  missing unread : Auth
  proof : IdentityProof → Auth

-- What `request.json()` gives: it throws, it gives a value that is no object, or it gives an object.
pub data Body : Type 0 where
  invalid_json not_an_object : Body
  object_of : Fields → Auth → Body

abbrev pub proof_of : Auth → Option IdentityProof
proof_of (proof p) = some p
proof_of _ = none

-- `typeof body[key] === "string"`
unfoldable pub string_at : Text → Fields → Option Text
string_at key fields = elim (Map.get fields key) [
  | none ↦ none
  | some value ↦ elim value [ string t ↦ some t | _ ↦ none ]
]

-- `typeof body[key] === "string" && /^[0-9a-f]{64}$/.test(body[key])`
unfoldable pub id_at : Text → Fields → Option Text
unfolding string_at is_id_hex
id_at key fields = elim (string_at key fields) [
  | none ↦ none
  | some t ↦ if is_id_hex t then some t else none
]

-- `typeof body[key] === "number" && Number.isSafeInteger(body[key])`
unfoldable pub safe_integer_at : Text → Fields → Option ℕ
safe_integer_at key fields = elim (Map.get fields key) [
  | none ↦ none
  | some value ↦ elim value [ integer n ↦ if leb n (2 ^ 53 - 1) then some n else none | _ ↦ none ]
]

-- `body[key] === undefined || typeof body[key] === "string"`: the text, if it is there.
unfoldable pub optional_string_at : Text → Fields → Option (Option Text)
optional_string_at key fields = elim (Map.get fields key) [
  | none ↦ some none
  | some value ↦ elim value [ string t ↦ some (some t) | _ ↦ none ]
]
