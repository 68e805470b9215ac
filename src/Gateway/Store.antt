-- ===== src/Gateway/Store.antt =====
-- packages/gateway/src/store.ts: the SQLite store, each statement as a function on its tables.
pub mod Expiry
pub mod History
pub mod Order
use nexnet.Common.{
  ℕ, suc, ◌+◌, Bool, true, false, not, ◌&&◌, Option, none, some, List, [], ◌∷◌, ◌++◌, map, ltb, leb,
  if◌then◌else◌, Result, ok, err, Text, same, filter_by, any_by, take,
}
use mathlib.Core.List.{reverse}
use nexnet.Common.Map
use nexnet.Common.Map.{Map, text_key}

pub record NewMessage : Type 0 where
  pub channel : Text
  pub event_id : Text
  pub identity : Text
  pub device : Text
  pub created_at : ℕ
  pub received_at : ℕ
  pub body : Text

pub record StoredMessage : Type 0 where
  pub seq : ℕ
  pub message : NewMessage

pub record StoredSession : Type 0 where
  pub token_hash : Text
  pub identity : Text
  pub device : Text
  pub method : Text
  pub expires_at : ℕ

-- The tables. `last_seq` is the AUTOINCREMENT counter, which a deletion does not turn back; the rows
-- of `messages` are in the order of their insertion.
pub record Store : Type 0 where
  pub messages : List StoredMessage
  pub last_seq : ℕ
  pub device_sequences : Map Text ℕ
  pub sessions : Map Text StoredSession

abbrev pub empty_store : Store
empty_store = record { messages = []; last_seq = 0; device_sequences = []; sessions = [] }

pub data InsertResult : Type 0 where
  duplicate stale_sequence : InsertResult
  inserted : StoredMessage → InsertResult

pub data StoreError : Type 0 where
  token_hash_taken : StoreError

unfoldable pub last_sequence_of : Text → Store → ℕ
last_sequence_of key s = elim (Map.get s.device_sequences key) [ none ↦ 0 | some n ↦ n ]

unfoldable pub has_event : Text → Store → Bool
has_event event_id s = any_by (λ row. same row.message.event_id event_id) s.messages

unfoldable pub sequence_key : NewMessage → Text
sequence_key m = m.identity ++ (b':' ∷ m.device)

-- The two inserts of the transaction.
unfoldable pub add_message : NewMessage → ℕ → Store → Store × InsertResult
unfolding sequence_key
add_message m device_sequence s =
    let stored : StoredMessage = record { seq = suc s.last_seq; message = m } in
    (
      record s {
        messages = s.messages ++ (stored ∷ []);
        last_seq = suc s.last_seq;
        device_sequences = Map.set s.device_sequences (sequence_key m) device_sequence;
      },
      inserted stored,
    )

unfoldable pub insert_message : NewMessage → ℕ → Store → Store × InsertResult
unfolding has_event last_sequence_of add_message
insert_message m device_sequence s =
    if has_event m.event_id s
    then (s, duplicate)
    else if leb device_sequence (last_sequence_of (sequence_key m) s)
    then (s, stale_sequence)
    else add_message m device_sequence s

-- `seq < ?`, if a number is given.
abbrev before : Option ℕ → ℕ → Bool
before none seq = true
before (some bound) seq = ltb seq bound

-- The newest rows first, at most `limit`, and turned round. The rows are in the order of `seq`.
unfoldable pub page : Text → ℕ → Option ℕ → Store → List StoredMessage
page channel limit before_seq s = reverse (
    take limit (
      reverse (
        filter_by (λ row. same row.message.channel channel && before before_seq row.seq)
          s.messages)))

abbrev later_of : Option ℕ → ℕ → Option ℕ
later_of none at = some at
later_of (some other) at = some (if ltb other at then at else other)

abbrev latest : List StoredMessage → Option ℕ
latest [] = none
latest (row ∷ rows) = later_of (latest rows) row.message.received_at

unfoldable pub last_message_at : Text → Store → Option ℕ
last_message_at channel s = latest (filter_by (λ row. same row.message.channel channel) s.messages)

unfoldable pub purge_channel : Text → Store → Store
purge_channel channel s = record s {
  messages = filter_by (λ row. not (same row.message.channel channel)) s.messages;
}

-- The token hash is the primary key.
unfoldable pub create_session : StoredSession → Store → Result StoreError Store
create_session session s =
    if Map.has s.sessions session.token_hash
    then err token_hash_taken
    else ok (record s { sessions = Map.set s.sessions session.token_hash session })

unfoldable pub get_session : Text → Store → Option StoredSession
get_session token_hash s = Map.get s.sessions token_hash

unfoldable pub delete_session : Text → Store → Store
delete_session token_hash s = record s { sessions = Map.delete s.sessions token_hash }

unfoldable pub sessions_for_identity : Text → Store → List StoredSession
sessions_for_identity identity s =
    filter_by (λ session. same session.identity identity) (Map.values s.sessions)

unfoldable pub delete_expired_sessions : ℕ → Store → Store
delete_expired_sessions now s = record s {
  sessions = filter_by (λ entry. ltb now entry.1.expires_at) s.sessions;
}
