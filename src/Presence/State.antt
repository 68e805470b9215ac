-- ===== src/Presence/State.antt =====
-- workers/presence/src/index.ts: the data of `PresenceTracker` and its durable storage.
use nexnet.Common.{ℕ, Bool, false, Option, List, [], ◌++◌, Text, codes}
use nexnet.Common.Map.{Map}
use nexnet.Protocol.IdentityAuth.{Fields}
use nexnet.Protocol.Requests.{Auth}

pub record PresenceLeaseData : Type 0 where
  pub identity : Text
  pub device : Text
  pub relay_hint : Option Text
  pub issued_at : ℕ
  pub expires_at : ℕ
  pub nonce : Option Text

-- The fields of the request as they came, with the proof; `updatedAt` is set by the server.
pub record PrekeyBundleData : Type 0 where
  pub identity : Text
  pub fields : Fields
  pub auth : Auth
  pub updated_at : ℕ

-- What the durable storage holds under a key.
pub data Stored : Type 0 where
  lease : PresenceLeaseData → Stored
  bundle : PrekeyBundleData → Stored
  sequence : ℕ → Stored

abbrev pub lease_key : Text → Text
lease_key identity = codes "lease:" ++ identity

abbrev pub prekey_key : Text → Text
prekey_key identity = codes "prekey:" ++ identity

-- What a subscriber is sent.
pub data Update : Type 0 where
  online : Text → ℕ → Update
  offline : Text → Update
  snapshot : List (Text × ℕ) → Update

-- The object with its durable storage, and what it sent to its sockets, the latest first.
pub record Tracker : Type 0 where
  pub leases : Map Text PresenceLeaseData
  pub prekeys : Map Text PrekeyBundleData
  pub subscriptions : Map ℕ (Unit {0})
  pub cleaning : Bool
  pub storage : Map Text Stored
  pub sent : List (ℕ × Update)

-- A new object of an isolate, before `ensureLoaded`.
abbrev pub fresh_tracker : Map Text Stored → Tracker
fresh_tracker storage = record {
  leases = [];
  prekeys = [];
  subscriptions = [];
  cleaning = false;
  storage = storage;
  sent = [];
}

-- The answers that refuse a request, with their status codes.
pub data Refusal : Type 0 where
  -- 400
  malformed already_expired invalid_key_material : Refusal
  -- 401
  unauthorized : Refusal
  -- 403
  invalid_signed_prekey : Refusal
  -- 409
  stale : Refusal
