-- ===== src/Presence/Calls.antt =====
-- workers/presence/src/index.ts: every call on a `PresenceTracker`, and the states that an object of
-- its durable storage can be in, over any number of restarts.
pub mod Kept
pub mod Walks
pub mod Agreement
pub mod Restart
pub mod Proved
pub mod Accepted
pub mod Replay
pub mod Owners
use nexnet.Common.{ℕ, Bool, Option, List, [], Text, Result, ok, err, codes}
use nexnet.Crypto.{Crypto}
use nexnet.Protocol.Requests.{Body}
use nexnet.Presence.State.{Stored, Tracker, Refusal, fresh_tracker}
use nexnet.Presence.Requests.{
  SignedBody, read_body, lease_publish_keys, prekey_publish_keys, remove_keys,
}
use nexnet.Presence.Tracker.{
  presence_seq, prekey_seq, Answer, ensure_loaded, handle_publish, handle_remove,
  handle_prekey_publish, handle_prekey_remove, handle_query, handle_subscribe, web_socket_close,
  cleanup_expired,
}
use nexnet.Common.Map.{Lists, text_key}

pub record Platform : Type 0 where
  pub crypto : Crypto
  pub verify_hex : Text → Text → Text → Option Bool

-- The signed writes, with the identity of the path where there is one.
pub data Write : Type 0 where
  publishes publishes_prekey : Body → Write
  removes removes_prekey : Text → Body → Write

pub data Call : Type 0 where
  writes : Write → Call
  queries : Text → Call
  subscribes : Bool → ℕ → Call
  closes : ℕ → Call
  cleans : Call

abbrev answered : {A : Type 0} → Tracker × Result Refusal A → Tracker × Result Refusal (Unit {0})
answered (t, ok a) = (t, ok tt)
answered (t, err e) = (t, err e)

module _ (platform : Platform) (broken : ℕ → Bool) (now : ℕ) where
  open platform use {crypto, verify_hex}

  unfoldable pub run_write : Write → Tracker → Tracker × Result Refusal (Unit {0})
  run_write (publishes body) t = answered (handle_publish broken crypto now body t)
  run_write (publishes_prekey body) t =
      answered (handle_prekey_publish verify_hex crypto now body t)
  run_write (removes path body) t = answered (handle_remove broken crypto now path body t)
  run_write (removes_prekey path body) t = answered (handle_prekey_remove crypto now path body t)

  unfoldable pub run_call : Call → Tracker → Tracker
  unfolding run_write
  run_call (writes w) t = (run_write w t).0
  run_call (queries identity) t = (handle_query now identity t).0
  run_call (subscribes upgrade ws) t = (handle_subscribe broken now upgrade ws t).0
  run_call (closes ws) t = web_socket_close ws t
  run_call cleans t = cleanup_expired broken now t

-- The request of a write as it is read, the operation that its proof is for, and the key under which
-- the time of its issue is claimed.
abbrev pub body_of : Write → Result Refusal SignedBody
body_of (publishes body) = read_body body lease_publish_keys
body_of (publishes_prekey body) = read_body body prekey_publish_keys
body_of (removes path body) = read_body body remove_keys
body_of (removes_prekey path body) = read_body body remove_keys

abbrev pub operation_of : Write → Text
operation_of (publishes body) = codes "presence.publish"
operation_of (publishes_prekey body) = codes "prekeys.publish"
operation_of (removes path body) = codes "presence.remove"
operation_of (removes_prekey path body) = codes "prekeys.remove"

abbrev pub sequence_of : Write → Text → Text
sequence_of (publishes body) = presence_seq
sequence_of (publishes_prekey body) = prekey_seq
sequence_of (removes path body) = presence_seq
sequence_of (removes_prekey path body) = prekey_seq

-- What calls, at any time and with any sockets broken, and restarts make of an object. A restart makes
-- a new object, which loads what the storage lists.
pub data Becomes (platform : Platform) (t : Tracker) : Tracker → Type 0 where
  unchanged : Becomes platform t t
  called :
      {u : Tracker} (broken : ℕ → Bool) (now : ℕ) (c : Call)
      → Becomes platform t u
      → Becomes platform t (run_call platform broken now c u)
  restarted :
      {u : Tracker} (listing : List (Text × Stored))
      → Lists listing u.storage
      → Becomes platform t u
      → Becomes platform t (ensure_loaded listing (fresh_tracker u.storage))

-- The first object, on an empty storage.
abbrev pub first_tracker : Tracker
first_tracker = fresh_tracker []
