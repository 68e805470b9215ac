-- ===== src/Gateway/Tests.antt =====
-- The limiter of packages/gateway/src/policy.ts with two messages in ten milliseconds, and a store of
-- packages/gateway/src/store.ts with one message.
use nexnet.Common.{
  ℕ, ◌+◌, ◌<◌, ◌≤◌, ◌≡◌, ◌≢◌, refl, arith, List, [], ◌∷◌, Text, codes, length, filter_by, ltb,
}
use nexnet.Common.Map
use nexnet.Common.Map.{text_key}
use nexnet.Gateway.Store.{
  NewMessage, empty_store, insert_message, inserted, add_message, has_event, last_sequence_of,
  StoredSession, get_session, delete_expired_sessions,
}
use nexnet.Gateway.Store.Expiry.{unexpired, expiry_is_exact}
use nexnet.Gateway.Store.History.{Write, inserts, purges, creates, write_all, no_replay}
use nexnet.Gateway.Store.Order.{Rising, Unique, rows_are_orderly}
use nexnet.Gateway.Limits.{Said, recent, allow, allow_text}
use nexnet.Gateway.Limits.Duplicates.{Call, said_by, fresh, copies, run_texts, copies_stay_below}
use nexnet.Gateway.Limits.Window.{run, times, window_is_bounded, lets_through_iff}

abbrev calls : List (Text × ℕ)
calls = (codes "a", 1) ∷ (codes "b", 2) ∷ (codes "a", 3) ∷ (codes "a", 4) ∷ []

window_is_bounded_example :
    length (filter_by (recent 10 5) (times (codes "a") (run 2 10 calls [] []).1)) ≤ 2
window_is_bounded_example =
    window_is_bounded 2 10 calls 5 (codes "a")
      (omega arith, (omega arith, (omega arith, (omega arith, tt)))) (omega arith)

lets_through_iff_example :
    (allow 2 10 (codes "a") 12 (run 2 10 calls [] []).0).1
    ≡ ltb (length (filter_by (recent 10 12) (times (codes "a") (run 2 10 calls [] []).1))) 2
lets_through_iff_example =
    lets_through_iff 2 10 calls 12 (codes "a")
      (omega arith, (omega arith, (omega arith, (omega arith, tt)))) (omega arith)

abbrev says_hi : ℕ → Said
says_hi now = record { at = now; body = codes "hi" }

abbrev texts : List Call
texts = (codes "a", says_hi 1) ∷ (codes "a", says_hi 2) ∷ (codes "b", says_hi 3) ∷ []

copies_stay_below_example :
    (copies
        (codes "hi")
        (filter_by (fresh 10 4) (said_by (codes "a") (run_texts 3 10 texts [] []).1))
      < 3)
    × ((allow_text 3 10 (codes "a") (codes "hi") 4 (run_texts 3 10 texts [] []).0).1
        ≡ ltb
            (copies
                (codes "hi")
                (filter_by (fresh 10 4) (said_by (codes "a") (run_texts 3 10 texts [] []).1))
              + 1)
            3)
copies_stay_below_example =
    copies_stay_below 3 10 texts (codes "a") (says_hi 4) (omega arith)
      (omega arith, (omega arith, (omega arith, tt))) (omega arith)

abbrev hello : NewMessage
hello = record {
  channel = codes "public";
  event_id = codes "e1";
  identity = codes "alice";
  device = codes "phone";
  created_at = 1;
  received_at = 2;
  body = codes "hello";
}

abbrev hello_again : NewMessage
hello_again = record hello { event_id = codes "e2" }

no_replay_example :
    (insert_message hello_again 7
      (write_all (purges (codes "public") ∷ []) (insert_message hello 7 empty_store).0)).1
    ≢ inserted (record { seq = 2; message = hello_again })
unfolding insert_message add_message has_event last_sequence_of Map.get
no_replay_example =
    no_replay hello hello_again 7 7 empty_store (purges (codes "public") ∷ [])
      (record { seq = 1; message = hello }) (record { seq = 2; message = hello_again }) refl refl
      refl (omega arith)

rows_are_orderly_example :
    Rising 0 (write_all (inserts hello 7 ∷ inserts hello_again 8 ∷ []) empty_store).messages
    × Unique (write_all (inserts hello 7 ∷ inserts hello_again 8 ∷ []) empty_store).messages
rows_are_orderly_example = rows_are_orderly (inserts hello 7 ∷ inserts hello_again 8 ∷ [])

abbrev session_until : Text → ℕ → StoredSession
session_until token_hash at = record {
  token_hash = token_hash;
  identity = codes "alice";
  device = codes "phone";
  method = codes "ssh";
  expires_at = at;
}

abbrev two_sessions : List Write
two_sessions =
    creates (session_until (codes "old") 5) ∷ creates (session_until (codes "new") 9) ∷ []

expiry_is_exact_example :
    get_session (codes "old") (delete_expired_sessions 5 (write_all two_sessions empty_store))
    ≡ unexpired 5 (get_session (codes "old") (write_all two_sessions empty_store))
expiry_is_exact_example = expiry_is_exact two_sessions 5 (codes "old")
