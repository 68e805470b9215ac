-- ===== src/Outbox/Queue.antt =====
-- packages/storage/src/queue.ts: the table of outgoing messages and the statements on it.
use nexnet.Common.{
  ℕ, suc, ◌+◌, ◌*◌, ◌^◌, min, Bool, true, false, not, ◌&&◌, Option, none, some, List, [], ◌∷◌, leb,
  if◌then◌else◌, Result, ok, ◌>>◌, throw_if, Bytes, Text, codes, same, filter_by,
}
use nexnet.Common.Map
use nexnet.Common.Map.{Map, text_key}

pub data DeliveryState : Type 0 where
  pending sent delivered failed : DeliveryState

pub record OutboundQueueItem : Type 0 where
  pub encryption_format : Option Text
  pub message_id : Bytes
  pub recipient_identity_id : Bytes
  pub encrypted_envelope : Bytes
  pub created_at : ℕ
  pub last_attempt_at : Option ℕ
  pub next_attempt_at : Option ℕ
  pub attempt_count : ℕ
  pub delivery_state : DeliveryState

-- The table `outbound`, by message id.
abbrev pub Outbound : Type 0
Outbound = Map Bytes OutboundQueueItem

pub data QueueError : Type 0 where
  no_x3dh_provenance legacy_item : QueueError

abbrev pub dm_x3dh_queue_format : Text
dm_x3dh_queue_format = codes "nexnet-dm-x3dh-v1"

-- `encryption_format = 'nexnet-dm-x3dh-v1'`
unfoldable pub has_format : OutboundQueueItem → Bool
has_format item = elim item.encryption_format [
  | none ↦ false
  | some format ↦ same format dm_x3dh_queue_format
]

abbrev is_legacy : Option OutboundQueueItem → Bool
is_legacy none = false
is_legacy (some existing) = not (has_format existing)

unfoldable pub enqueue : OutboundQueueItem → Outbound → Result QueueError Outbound
enqueue item q = do
  throw_if (not (has_format item)) no_x3dh_provenance
  throw_if (is_legacy (Map.get q item.message_id)) legacy_item
  ok (Map.set q item.message_id item)

abbrev pub is_pending_state : DeliveryState → Bool
is_pending_state pending = true
is_pending_state _ = false

abbrev due : ℕ → Option ℕ → Bool
due now none = true
due now (some at) = leb at now

unfoldable pub is_due : ℕ → OutboundQueueItem → Bool
is_due now item =
    is_pending_state item.delivery_state && has_format item && due now item.next_attempt_at

-- `ORDER BY created_at ASC`; SQL leaves open which of two rows of one time comes first.
insert_by_age : OutboundQueueItem → List OutboundQueueItem → List OutboundQueueItem
insert_by_age item [] = item ∷ []
insert_by_age item (other ∷ items) =
    let rest = insert_by_age item items in
    if leb item.created_at other.created_at then item ∷ other ∷ items else other ∷ rest

by_age : List OutboundQueueItem → List OutboundQueueItem
unfolding insert_by_age
by_age [] = []
by_age (item ∷ items) = insert_by_age item (by_age items)

unfoldable pending_items : ℕ → Outbound → List OutboundQueueItem
unfolding is_due by_age
pending_items now q = by_age (filter_by (is_due now) (Map.values q))

unfoldable pending_for_recipient : Bytes → Outbound → List OutboundQueueItem
unfolding by_age
pending_for_recipient identity_id q = by_age (
    filter_by
      (λ item.
        is_pending_state item.delivery_state
        && has_format item
        && same item.recipient_identity_id identity_id)
      (Map.values q))

-- `UPDATE … WHERE message_id = ? AND encryption_format = …`
unfoldable pub update_item : Bytes → (OutboundQueueItem → OutboundQueueItem) → Outbound → Outbound
update_item message_id change q = elim (Map.get q message_id) [
  | none ↦ q
  | some item ↦ if has_format item then Map.set q message_id (change item) else q
]

unfoldable pub mark_delivered : Bytes → Outbound → Outbound
mark_delivered message_id q =
    update_item message_id (λ item. record item { delivery_state = delivered }) q

unfoldable pub backoff_ms : ℕ → ℕ
backoff_ms attempt_count = min (30000 * 2 ^ attempt_count) (30 * 60 * 1000)

unfoldable pub mark_attempt : ℕ → Bytes → Outbound → Outbound
mark_attempt now message_id q =
    update_item message_id
      (λ item. record item {
        attempt_count = suc item.attempt_count;
        last_attempt_at = some now;
        next_attempt_at = some (now + backoff_ms item.attempt_count);
      })
      q
