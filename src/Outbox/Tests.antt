-- ===== src/Outbox/Tests.antt =====
-- The queue of packages/storage/src/queue.ts with one message, and with one of unknown origin.
use nexnet.Common.{
  ◌+◌, ◌*◌, ◌^◌, ◌≡◌, refl, min, true, false, none, some, [], ◌∷◌, leb, text_discrete,
}
use nexnet.Common.Map
use nexnet.Common.Map.{text_key}
use nexnet.Outbox.Queue.{
  Outbound, delivered, mark_delivered, update_item, OutboundQueueItem, pending,
  dm_x3dh_queue_format, has_format, is_due, mark_attempt,
}
use nexnet.Outbox.Retries.{
  delivers, attempts, queue_run, queue_step, delivered_is_not_retried, legacy_is_kept,
  attempt_backs_off,
}

abbrev letter : OutboundQueueItem
letter = record {
  encryption_format = some dm_x3dh_queue_format;
  message_id = 1 ∷ [];
  recipient_identity_id = 2 ∷ [];
  encrypted_envelope = 3 ∷ [];
  created_at = 5;
  last_attempt_at = none;
  next_attempt_at = none;
  attempt_count = 3;
  delivery_state = pending;
}

abbrev old_letter : OutboundQueueItem
old_letter = record letter { encryption_format = none; message_id = 9 ∷ [] }

abbrev outbound : Outbound
outbound = (1 ∷ [], letter) ∷ (9 ∷ [], old_letter) ∷ []

attempt_backs_off_example :
    (after : OutboundQueueItem) × (Map.get (mark_attempt 100 (1 ∷ []) outbound) (1 ∷ [])
      ≡ some after)
    × (is_due 200000 after ≡ leb (100 + min (30000 * 2 ^ 3) 1800000) 200000)
    × (is_due (100 + 29999) after ≡ false)
    × (is_due (100 + 1800000) after ≡ true)
unfolding Map.get has_format text_discrete
attempt_backs_off_example = attempt_backs_off 100 200000 (1 ∷ []) letter outbound refl refl refl

legacy_is_kept_example :
    (Map.get (queue_run (attempts 10 (9 ∷ []) ∷ delivers (9 ∷ []) ∷ []) outbound) (9 ∷ [])
      ≡ some old_letter)
    × (is_due 1000 old_letter ≡ false)
unfolding Map.get has_format text_discrete
legacy_is_kept_example =
    legacy_is_kept (attempts 10 (9 ∷ []) ∷ delivers (9 ∷ []) ∷ []) outbound (9 ∷ []) old_letter 1000
      refl refl

delivered_letter :
    Map.get (queue_run (delivers (9 ∷ []) ∷ []) (mark_delivered (1 ∷ []) outbound)) (1 ∷ [])
    ≡ some (record letter { delivery_state = delivered })
unfolding queue_run queue_step mark_delivered update_item Map.get Map.set has_format text_discrete
delivered_letter = refl

delivered_is_not_retried_example :
    is_due 5000 (record letter { delivery_state = delivered }) ≡ false
unfolding Map.get has_format text_discrete
delivered_is_not_retried_example =
    delivered_is_not_retried (delivers (9 ∷ []) ∷ []) outbound (1 ∷ []) letter
      (record letter { delivery_state = delivered }) 5000 refl refl tt delivered_letter
