-- ===== src/Gateway/Store/History.antt =====
-- packages/gateway/src/store.ts: what holds of the store after any statements in any order.
use nexnet.Common.{ℕ, ◌≤◌, ◌≡◌, ◌≢◌, ap, arith, List, [], ◌∷◌, Result, ok, err, Text}
use nexnet.Common.Map.{text_key, get-set}
use nexnet.Gateway.Store.{
  Store, NewMessage, StoredMessage, StoredSession, StoreError, inserted, last_sequence_of,
  has_event, sequence_key, add_message, insert_message, purge_channel, create_session,
  delete_session, delete_expired_sessions,
}

-- The statements that write.
pub data Write : Type 0 where
  inserts : NewMessage → ℕ → Write
  purges : Text → Write
  creates : StoredSession → Write
  deletes : Text → Write
  expires : ℕ → Write

abbrev or_same : Store → Result StoreError Store → Store
or_same s (ok t) = t
or_same s (err e) = s

unfoldable pub write : Write → Store → Store
write (inserts m n) s = (insert_message m n s).0
write (purges channel) s = purge_channel channel s
write (creates session) s = or_same s (create_session session s)
write (deletes token_hash) s = delete_session token_hash s
write (expires now) s = delete_expired_sessions now s

unfoldable pub write_all : List Write → Store → Store
unfolding write
write_all [] s = s
write_all (w ∷ ws) s = write_all ws (write w s)

-- No write turns a device's sequence back.
write-grows :
    (w : Write) (s : Store) (key : Text) → last_sequence_of key s ≤ last_sequence_of key (write w s)
unfolding write last_sequence_of insert_message add_message has_event purge_channel create_session
    delete_session delete_expired_sessions
write-grows (inserts m n) s key = ground (arith, get-set s.device_sequences (sequence_key m) key n)
write-grows (purges channel) s key = omega arith
write-grows (creates session) s key = ground arith
write-grows (deletes token_hash) s key = omega arith
write-grows (expires now) s key = omega arith

write_all-grows :
    (ws : List Write) (s : Store) (key : Text)
    → last_sequence_of key s ≤ last_sequence_of key (write_all ws s)
unfolding write_all
write_all-grows [] s key = omega arith
write_all-grows (w ∷ ws) s key =
    omega (arith, write-grows w s key, write_all-grows ws (write w s) key)

inserted-sequence :
    (m : NewMessage) (n : ℕ) (s : Store) (r : StoredMessage)
    → (insert_message m n s).1 ≡ inserted r
    → last_sequence_of (sequence_key m) (insert_message m n s).0 ≡ n
unfolding insert_message add_message last_sequence_of
inserted-sequence m n s r e =
    ground (arith, e, get-set s.device_sequences (sequence_key m) (sequence_key m) n)

used-refused :
    (m : NewMessage) (n : ℕ) (s : Store) (t : StoredMessage)
    → n ≤ last_sequence_of (sequence_key m) s
    → (insert_message m n s).1 ≢ inserted t
unfolding insert_message
used-refused m n s t h e = ground (arith, h, e)

-- Once a message of a device was stored, nothing of that device with the same or a lower sequence
-- number is stored any more, whatever is written in between, and also when the channel was purged.
pub no_replay :
    (m again : NewMessage) (n low : ℕ) (s : Store) (ws : List Write) (r t : StoredMessage)
    → (insert_message m n s).1 ≡ inserted r
    → again.identity ≡ m.identity
    → again.device ≡ m.device
    → low ≤ n
    → (insert_message again low (write_all ws (insert_message m n s).0)).1 ≢ inserted t
unfolding sequence_key
no_replay m again n low s ws r t e same_identity same_device below =
    let after = write_all ws (insert_message m n s).0 in
    let same_key : sequence_key again ≡ sequence_key m = cc in
    used-refused again low after t (
      ground (
        arith,
        same_key,
        ap (λ key. last_sequence_of key after) same_key,
        inserted-sequence m n s r e,
        write_all-grows ws (insert_message m n s).0 (sequence_key m),
      ))
