-- ===== src/Protocol/Events.antt =====
-- packages/protocol/src/event.ts: the id, the signature and the limits of an event.
use nexnet.Common.{ℕ, Bool, not, ◌||◌, List, [], ◌∷◌, ◌++◌, Bytes, Text, codes, same, length, ltb}
use nexnet.Crypto.{Crypto, Field, text, bytes, number, byte_lists}

pub record NexnetEvent : Type 0 where
  pub protocol_version : ℕ
  pub event_type : Text
  pub event_id : Bytes
  pub author_identity_id : Bytes
  pub author_device_id : Bytes
  pub created_at : ℕ
  pub sequence : ℕ
  pub parent_ids : List Bytes
  pub payload : Bytes
  pub signature : Bytes

-- The fields before and after the id.
abbrev head_fields : NexnetEvent → List (Text × Field)
head_fields e =
    (codes "protocolVersion", number e.protocol_version)
    ∷ (codes "eventType", text e.event_type)
    ∷ []

abbrev rest_fields : NexnetEvent → List (Text × Field)
rest_fields e =
    (codes "authorIdentityId", bytes e.author_identity_id)
    ∷ (codes "authorDeviceId", bytes e.author_device_id)
    ∷ (codes "createdAt", number e.created_at)
    ∷ (codes "sequence", number e.sequence)
    ∷ (codes "parentIds", byte_lists e.parent_ids)
    ∷ (codes "payload", bytes e.payload)
    ∷ []

unfoldable pub to_id_preimage : NexnetEvent → List (Text × Field)
to_id_preimage e = head_fields e ++ rest_fields e

unfoldable pub to_signing_preimage : NexnetEvent → List (Text × Field)
to_signing_preimage e = head_fields e ++ ((codes "eventId", bytes e.event_id) ∷ rest_fields e)

-- `validateEventLimits` does not throw.
unfoldable pub is_within_limits : NexnetEvent → Bool
is_within_limits e =
    not (
      ltb 262144 (length e.payload) || ltb 32 (length e.parent_ids) || ltb 64 (length e.event_type))

module _ (crypto : Crypto) where
  unfoldable pub event_id_of : NexnetEvent → Bytes
  unfolding to_id_preimage
  event_id_of e =
      crypto.derive_id (codes "nexnet event id v1") (crypto.cde_encode (to_id_preimage e))

  unfoldable pub verify_event : NexnetEvent → Bytes → Bool
  unfolding to_signing_preimage
  verify_event e public_key =
      crypto.verify public_key (crypto.cde_encode (to_signing_preimage e)) e.signature

  unfoldable pub verify_event_id : NexnetEvent → Bool
  unfolding event_id_of
  verify_event_id e = same (event_id_of e) e.event_id
