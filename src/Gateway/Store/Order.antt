-- ===== src/Gateway/Store/Order.antt =====
-- packages/gateway/src/store.ts: the rows of the messages table.
use nexnet.Common.{
  ℕ, suc, ◌≤◌, ◌<◌, ◌≡◌, refl, ◌≢◌, ◌∙◌, Bool-cases, inl, inr, arith, Bool, false, List, [], ◌∷◌,
  ◌++◌, leb, Text, same, filter_by, any_by, All, All-append, All-filter_by,
}
use nexnet.Common.Map
use nexnet.Common.Map.{Map, text_key, get-set}
use nexnet.Gateway.Store.{
  Store, NewMessage, StoredMessage, empty_store, last_sequence_of, has_event, sequence_key,
  add_message, insert_message, purge_channel, create_session, delete_session,
  delete_expired_sessions,
}
use nexnet.Gateway.Store.History.{
  Write, inserts, purges, creates, deletes, expires, write, write_all,
}

-- Rows by rising number.
abbrev pub Rising : ℕ → List StoredMessage → Type 0
Rising low [] = Unit
Rising low (row ∷ rows) = (low < row.seq) × Rising row.seq rows

-- No event twice.
abbrev pub Unique : List StoredMessage → Type 0
Unique [] = Unit
Unique (row ∷ rows) = All (λ q. q.message.event_id ≢ row.message.event_id) rows × Unique rows

Rising-lower :
    (low high : ℕ) (rows : List StoredMessage) → low ≤ high → Rising high rows → Rising low rows
Rising-lower low high [] h v = tt
Rising-lower low high (row ∷ rows) h v = (omega (arith, v.0), v.1)

Rising-filter :
    (p : StoredMessage → Bool) (low : ℕ) (rows : List StoredMessage)
    → Rising low rows
    → Rising low (filter_by p rows)
Rising-filter p low [] v = tt
Rising-filter p low (row ∷ rows) (h, v) = elim (Bool-cases (p row)) [
  | inl e ↦ rw e (h, Rising-filter p row.seq rows v)
  | inr e ↦ rw e (Rising-filter p low rows (Rising-lower low row.seq rows (omega (arith, h)) v))
]

Rising-append :
    (low : ℕ) (rows : List StoredMessage) (row : StoredMessage)
    → Rising low rows
    → low < row.seq
    → All (λ q. q.seq < row.seq) rows
    → Rising low (rows ++ (row ∷ []))
Rising-append low [] row v h below = (h, tt)
Rising-append low (q ∷ rows) row v h below = (v.0, Rising-append q.seq rows row v.1 below.0 below.1)

Unique-filter :
    (p : StoredMessage → Bool) (rows : List StoredMessage) → Unique rows → Unique (filter_by p rows)
Unique-filter p [] v = tt
Unique-filter p (row ∷ rows) (h, v) = elim (Bool-cases (p row)) [
  | inl e ↦ rw e (All-filter_by _ p rows h, Unique-filter p rows v)
  | inr e ↦ rw e (Unique-filter p rows v)
]

Unique-append :
    (rows : List StoredMessage) (row : StoredMessage)
    → Unique rows
    → any_by (λ q. same q.message.event_id row.message.event_id) rows ≡ false
    → Unique (rows ++ (row ∷ []))
Unique-append [] row v h = (tt, tt)
Unique-append (q ∷ rows) row v h =
    (All-append _ rows row v.0 (ground (arith, h)), Unique-append rows row v.1 (ground (arith, h)))

record IsOrderly (s : Store) : Type 0 where
  rising : Rising 0 s.messages
  counted : All (λ row. row.seq < suc s.last_seq) s.messages
  unique : Unique s.messages

All-later :
    (low high : ℕ) (rows : List StoredMessage)
    → low ≤ high
    → All (λ row. row.seq < low) rows
    → All (λ row. row.seq < high) rows
All-later low high [] h v = tt
All-later low high (row ∷ rows) h v = (omega (arith, v.0), All-later low high rows h v.1)

has_event-any :
    (event_id : Text) (s : Store)
    → any_by (λ row. same row.message.event_id event_id) s.messages ≡ has_event event_id s
unfolding has_event
has_event-any event_id s = refl

insert_message-IsOrderly :
    (m : NewMessage) (n : ℕ) (s : Store) → IsOrderly s → IsOrderly (insert_message m n s).0
unfolding insert_message add_message
insert_message-IsOrderly m n s v = elim (Bool-cases (has_event m.event_id s)) [
  | inl known ↦ rw (insert_message, known) v
  | inr new ↦ elim (Bool-cases (leb n (last_sequence_of (sequence_key m) s))) [
    | inl stale ↦ rw (insert_message, new, stale) v
    | inr next ↦
        rw (insert_message, new, next)
          (record {
            rising = Rising-append 0 s.messages _ v.rising (omega arith) v.counted;
            counted =
                All-append _ s.messages _ (All-later _ _ s.messages (omega arith) v.counted)
                  (omega arith);
            unique = Unique-append s.messages _ v.unique (has_event-any m.event_id s ∙ new);
          })
  ]
]

write-IsOrderly : (w : Write) (s : Store) → IsOrderly s → IsOrderly (write w s)
unfolding write purge_channel create_session delete_session delete_expired_sessions
write-IsOrderly (inserts m n) s v = insert_message-IsOrderly m n s v
write-IsOrderly (purges channel) s v = record {
  rising = Rising-filter _ 0 s.messages v.rising;
  counted = All-filter_by _ _ s.messages v.counted;
  unique = Unique-filter _ s.messages v.unique;
}
write-IsOrderly (creates session) s v = elim (Bool-cases (Map.has s.sessions session.token_hash)) [
  | inl e ↦ rw (create_session, e) v
  | inr e ↦
      rw (create_session, e) (record { rising = v.rising; counted = v.counted; unique = v.unique })
]
write-IsOrderly (deletes token_hash) s v = record {
  rising = v.rising;
  counted = v.counted;
  unique = v.unique;
}
write-IsOrderly (expires now) s v = record {
  rising = v.rising;
  counted = v.counted;
  unique = v.unique;
}

write_all-IsOrderly : (ws : List Write) (s : Store) → IsOrderly s → IsOrderly (write_all ws s)
unfolding write_all
write_all-IsOrderly [] s v = v
write_all-IsOrderly (w ∷ ws) s v = write_all-IsOrderly ws (write w s) (write-IsOrderly w s v)

-- Whatever is written to a new store, in any order, its rows have rising numbers and no event is there
-- twice.
pub rows_are_orderly :
    (ws : List Write)
    → Rising 0 (write_all ws empty_store).messages × Unique (write_all ws empty_store).messages
rows_are_orderly ws =
    let v =
      write_all-IsOrderly ws empty_store (record { rising = tt; counted = tt; unique = tt }) in
    (v.rising, v.unique)
