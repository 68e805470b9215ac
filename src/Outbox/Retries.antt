-- ===== src/Outbox/Retries.antt =====
-- packages/storage/src/queue.ts: what is tried again, and when.
use nexnet.Common.{
  ℕ, suc, ◌+◌, ◌*◌, ◌^◌, ◌≤◌, ◌≡◌, ◌≢◌, ◌∙◌, ap, refl, zero, Option-cases, Bool-cases, inl, inr,
  min, arith, Bool, true, false, not, Option, none, some, List, [], ◌∷◌, leb, if◌then◌else◌, Result,
  ok, err, Bytes, same,
}
use native.Mathlib.Numerals.{unary_clauses}
use nexnet.Common.Map
use nexnet.Common.Map.{Map, text_key, get-set}
use nexnet.Outbox.Queue.{
  Outbound, OutboundQueueItem, QueueError, pending, delivered, is_pending_state, has_format,
  enqueue, is_due, update_item, mark_delivered, mark_attempt, backoff_ms,
}

pub data QueueCall : Type 0 where
  enqueues : OutboundQueueItem → QueueCall
  delivers : Bytes → QueueCall
  attempts : ℕ → Bytes → QueueCall

abbrev or_same : Outbound → Result QueueError Outbound → Outbound
or_same q (ok t) = t
or_same q (err e) = q

unfoldable pub queue_step : QueueCall → Outbound → Outbound
queue_step (enqueues item) q = or_same q (enqueue item q)
queue_step (delivers message_id) q = mark_delivered message_id q
queue_step (attempts now message_id) q = mark_attempt now message_id q

unfoldable pub queue_run : List QueueCall → Outbound → Outbound
unfolding queue_step
queue_run [] q = q
queue_run (call ∷ calls) q = queue_run calls (queue_step call q)

-- What `update_item` leaves of a row.
abbrev updated :
    (OutboundQueueItem → OutboundQueueItem) → Option OutboundQueueItem → Option OutboundQueueItem
updated change none = none
updated change (some item) = if has_format item then some (change item) else some item

get-update_item :
    (message_id : Bytes) (change : OutboundQueueItem → OutboundQueueItem) (q : Outbound)
    (other : Bytes)
    → Map.get (update_item message_id change q) other
      ≡ (if same message_id other then updated change (Map.get q other) else Map.get q other)
unfolding update_item
get-update_item message_id change q other = elim (Option-cases (Map.get q message_id)) [
  | inl e ↦ ground (arith, e)
  | inr (item, e) ↦ elim (Bool-cases (has_format item)) [
    | inl y ↦ ground (arith, e, y, get-set q message_id other (change item))
    | inr n ↦ ground (arith, e, n)
  ]
]

legacy_untouched :
    (message_id : Bytes) (change : OutboundQueueItem → OutboundQueueItem) (q : Outbound)
    (other : Bytes) (item : OutboundQueueItem)
    → has_format item ≡ false
    → Map.get q other ≡ some item
    → Map.get (update_item message_id change q) other ≡ some item
legacy_untouched message_id change q other item legacy at =
    ground (arith, legacy, at, get-update_item message_id change q other)

-- An item of unknown origin stays as it is.
step-legacy :
    (call : QueueCall) (q : Outbound) (message_id : Bytes) (item : OutboundQueueItem)
    → has_format item ≡ false
    → Map.get q message_id ≡ some item
    → Map.get (queue_step call q) message_id ≡ some item
unfolding queue_step enqueue mark_delivered mark_attempt
step-legacy (enqueues other) q message_id item legacy at =
    ground (arith, legacy, at, get-set q other.message_id message_id other)
step-legacy (delivers other) q message_id item legacy at =
    legacy_untouched other _ q message_id item legacy at
step-legacy (attempts now other) q message_id item legacy at =
    legacy_untouched other _ q message_id item legacy at

-- A legacy item, whose encryption is of unknown origin, is never due, and no calls replace, deliver or
-- retry it.
pub legacy_is_kept :
    (calls : List QueueCall) (q : Outbound) (message_id : Bytes) (item : OutboundQueueItem)
    (now : ℕ)
    → has_format item ≡ false
    → Map.get q message_id ≡ some item
    → (Map.get (queue_run calls q) message_id ≡ some item) × (is_due now item ≡ false)
unfolding queue_run is_due
legacy_is_kept [] q message_id item now legacy at = (at, ground (arith, legacy))
legacy_is_kept (call ∷ calls) q message_id item now legacy at =
    legacy_is_kept calls (queue_step call q) message_id item now legacy
      (step-legacy call q message_id item legacy at)

pow_pos : (n : ℕ) → 1 ≤ 2 ^ n
pow_pos zero = omega arith
pow_pos (suc n) = simp unary_clauses (omega (arith, pow_pos n))

backoff-bounds : (n : ℕ) → (30000 ≤ backoff_ms n) × (backoff_ms n ≤ 1800000)
unfolding backoff_ms
backoff-bounds n = (omega (arith, pow_pos n), omega arith)

same_format :
    (a b : OutboundQueueItem)
    → b.encryption_format ≡ a.encryption_format
    → has_format b ≡ has_format a
unfolding has_format
same_format a b e = rw e refl

is_due-from :
    (now at : ℕ) (item : OutboundQueueItem)
    → has_format item ≡ true
    → item.delivery_state ≡ pending
    → item.next_attempt_at ≡ some at
    → is_due now item ≡ leb at now
unfolding is_due
is_due-from now at item formatted waits next = rw (formatted, waits, next)

update_own :
    (message_id : Bytes) (change : OutboundQueueItem → OutboundQueueItem) (q : Outbound)
    (item : OutboundQueueItem)
    → Map.get q message_id ≡ some item
    → has_format item ≡ true
    → Map.get (update_item message_id change q) message_id ≡ some (change item)
update_own message_id change q item at formatted =
    ground (arith, at, formatted, get-update_item message_id change q message_id)

backoff_ms_lem : (n : ℕ) → backoff_ms n ≡ min (30000 * 2 ^ n) 1800000
unfolding backoff_ms
backoff_ms_lem n = refl

-- After an attempt an item that waits is due again from thirty seconds times two to the number of its
-- earlier attempts on, but never later than half an hour on.
pub attempt_backs_off :
    (now later : ℕ) (message_id : Bytes) (item : OutboundQueueItem) (q : Outbound)
    → Map.get q message_id ≡ some item
    → has_format item ≡ true
    → item.delivery_state ≡ pending
    → (after : OutboundQueueItem) × (Map.get (mark_attempt now message_id q) message_id
        ≡ some after)
      × (is_due later after ≡ leb (now + min (30000 * 2 ^ item.attempt_count) 1800000) later)
      × (is_due (now + 29999) after ≡ false)
      × (is_due (now + 1800000) after ≡ true)
unfolding mark_attempt
attempt_backs_off now later message_id item q at formatted waits =
    let (least, most) = backoff-bounds item.attempt_count in
    let after : OutboundQueueItem = record item {
      attempt_count = suc item.attempt_count;
      last_attempt_at = some now;
      next_attempt_at = some (now + backoff_ms item.attempt_count);
    } in
    let due_from = λ (at : ℕ).
      is_due-from at (now + backoff_ms item.attempt_count) after
        (same_format item after refl ∙ formatted) waits refl in
    (
      after,
      update_own message_id _ q item at formatted,
      due_from later ∙ ap (λ n. leb (now + n) later) (backoff_ms_lem item.attempt_count),
      due_from (now + 29999) ∙ ground (arith, least),
      due_from (now + 1800000) ∙ ground (arith, most),
    )

-- Nothing with this id is put in the queue.
abbrev NotEnqueued : Bytes → List QueueCall → Type 0
NotEnqueued message_id [] = Unit
NotEnqueued message_id (enqueues item ∷ calls) =
    (item.message_id ≢ message_id) × NotEnqueued message_id calls
NotEnqueued message_id (delivers id ∷ calls) = NotEnqueued message_id calls
NotEnqueued message_id (attempts now id ∷ calls) = NotEnqueued message_id calls

-- The row does not wait any more, or there is none.
abbrev is_done : Option OutboundQueueItem → Bool
is_done none = true
is_done (some item) = not (is_pending_state item.delivery_state)

update-done :
    (message_id : Bytes) (change : OutboundQueueItem → OutboundQueueItem) (q : Outbound)
    (other : Bytes)
    → ((item : OutboundQueueItem)
        → is_pending_state item.delivery_state ≡ false
        → is_pending_state (change item).delivery_state ≡ false)
    → is_done (Map.get q other) ≡ true
    → is_done (Map.get (update_item message_id change q) other) ≡ true
update-done message_id change q other keeps h = elim (Option-cases (Map.get q other)) [
  | inl e ↦ ground (arith, h, e, get-update_item message_id change q other)
  | inr (item, e) ↦ ground (arith, h, e, keeps item, get-update_item message_id change q other)
]

step-done :
    (call : QueueCall) (calls : List QueueCall) (q : Outbound) (message_id : Bytes)
    → NotEnqueued message_id (call ∷ calls)
    → is_done (Map.get q message_id) ≡ true
    → (is_done (Map.get (queue_step call q) message_id) ≡ true) × NotEnqueued message_id calls
unfolding queue_step enqueue mark_delivered mark_attempt
step-done (enqueues item) calls q message_id (other, rest) h =
    (ground (arith, h, other, get-set q item.message_id message_id item), rest)
step-done (delivers id) calls q message_id rest h =
    (update-done id _ q message_id (λ item k. refl) h, rest)
step-done (attempts now id) calls q message_id rest h =
    (update-done id _ q message_id (λ item k. k) h, rest)

run-done :
    (calls : List QueueCall) (q : Outbound) (message_id : Bytes)
    → NotEnqueued message_id calls
    → is_done (Map.get q message_id) ≡ true
    → is_done (Map.get (queue_run calls q) message_id) ≡ true
unfolding queue_run
run-done [] q message_id rest h = h
run-done (call ∷ calls) q message_id rest h =
    let (still, more) = step-done call calls q message_id rest h in
    run-done calls (queue_step call q) message_id more still

-- Once a message was marked as delivered it is never due again, whatever is delivered, tried or put in
-- the queue under other ids.
pub delivered_is_not_retried :
    (calls : List QueueCall) (q : Outbound) (message_id : Bytes) (item after : OutboundQueueItem)
    (now : ℕ)
    → Map.get q message_id ≡ some item
    → has_format item ≡ true
    → NotEnqueued message_id calls
    → Map.get (queue_run calls (mark_delivered message_id q)) message_id ≡ some after
    → is_due now after ≡ false
unfolding mark_delivered is_due
delivered_is_not_retried calls q message_id item after now at formatted rest found =
    let own =
      update_own message_id (λ i. record i { delivery_state = delivered }) q item at formatted in
    let done : is_done (Map.get (mark_delivered message_id q) message_id) ≡ true = ap is_done own in
    ground (arith, found, run-done calls (mark_delivered message_id q) message_id rest done)
