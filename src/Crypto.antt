-- ===== src/Crypto.antt =====
-- packages/crypto: thin wrappers round the noble libraries, cbor2 and WebAuthn, which the model takes
-- as a parameter. No law of them is assumed here; a theorem that needs one states it.
use nexnet.Common.{ℕ, Bool, List, Bytes, Text}

-- A JSON value of a request: `integer` is a number from 0 up without a fraction, and `other` is anything
-- else (another number, a boolean, null, an object, another array), known by its JSON text.
pub data Json : Type 0 where
  string : Text → Json
  integer : ℕ → Json
  strings : List Text → Json
  other : Text → Json

-- What the program hands to the canonical encoder: objects of texts, bytes, numbers, lists of bytes and JSON objects.
pub data Field : Type 0 where
  text : Text → Field
  bytes : Bytes → Field
  number : ℕ → Field
  object : List (Text × Json) → Field
  byte_lists : List Bytes → Field

pub record Crypto : Type 0 where
  -- ed25519.verify, by public key, message and signature
  pub verify : Bytes → Bytes → Bytes → Bool
  -- BLAKE3 in its key derivation mode
  pub derive_id : Text → Bytes → Bytes
  pub sha256 : Bytes → Bytes
  -- cbor2, with the options of the canonical encoding
  pub cde_encode : List (Text × Field) → Bytes
