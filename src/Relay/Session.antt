-- ===== src/Relay/Session.antt =====
-- workers/relay/src/index.ts: the handlers of `RelaySession`.
pub mod Invariant
pub mod Steps
pub mod Admission
pub mod Reachable
pub mod Proofs
use nexnet.Common.Hex.{is_id_hex}
use nexnet.Common.{
  ℕ, Bool, true, false, not, ◌&&◌, ◌||◌, Option, none, some, List, [], ◌∷◌, leb, ◌==◌,
  if◌then◌else◌, Bytes, Text, codes, same, length, map, all_by, to_hex,
}
use nexnet.Common.Map
use nexnet.Common.Map.{Map, text_key, object_key}
use nexnet.Crypto.{Crypto, string}
use nexnet.Protocol.IdentityAuth.{VerifiedIdentity, verify_identity_auth_json}
use nexnet.Relay.State.{
  Relay, ConnectionEntry, PendingAuth, Signal, RelayMessage, signaling, dm, delivery_receipt,
  room_subscribe, room_unsubscribe, room_event, auth, invalid, unknown, Status, online, offline,
  Frame, error, auth_challenge, authenticated, presence_snapshot, presence_update, dm_from,
  receipt_from, signal_from, event_in, closed, Members, send_ws,
}
use nexnet.Relay.Rooms.{add_subscriber, drop_subscriber, drop_from_all}

-- Each connection, in order, is sent the frame.
unfoldable pub notify_all : List (Text × ConnectionEntry) → Frame → Relay → Relay
unfolding send_ws
notify_all [] frame s = s
notify_all (entry ∷ more) frame s = notify_all more frame (send_ws entry.1.ws frame s)

unfoldable pub notify_presence : Text → Status → Relay → Relay
unfolding notify_all
notify_presence identity status s = notify_all s.connections (presence_update identity status) s

unfoldable pub remove_connection : Text → Relay → Relay
unfolding drop_from_all notify_presence
remove_connection identity s = elim (Map.get s.connections identity) [
  | none ↦ s
  | some entry ↦ notify_presence identity offline (record s {
    room_subscriptions = drop_from_all identity (map (λ m. m.0) entry.rooms) s.room_subscriptions;
    connections = Map.delete s.connections identity;
  })
]

unfoldable pub reject_auth : ℕ → Text → Relay → Relay
unfolding send_ws
reject_auth ws message s =
    send_ws ws (closed 4401 message)
      (send_ws ws (error message) (record s { pending = Map.delete s.pending ws }))

-- The older connection of the identity goes.
unfoldable pub replace_connection : Text → Relay → Relay
unfolding remove_connection send_ws
replace_connection identity s = elim (Map.get s.connections identity) [
  | none ↦ s
  | some existing ↦
      let told =
        remove_connection identity
          (send_ws existing.ws (error (codes "Replaced by new connection")) s) in
      send_ws existing.ws (closed 4000 (codes "replaced"))
        (record told { socket_identity = Map.delete told.socket_identity existing.ws })
]

-- The socket becomes the connection of the identity that it claimed, and is told so.
unfoldable pub connect : ℕ → PendingAuth → Relay → Relay
unfolding send_ws
connect ws p s =
    let held = record s {
      connections =
          Map.set s.connections p.identity
            (record { ws = ws; identity = p.identity; device = p.device; rooms = [] });
      socket_identity = Map.set s.socket_identity ws p.identity;
    } in
    send_ws ws (presence_snapshot (map (λ e. e.0) held.connections))
      (send_ws ws (authenticated p.identity) held)

unfoldable pub stop_waiting : ℕ → Relay → Relay
stop_waiting ws s = record s { pending = Map.delete s.pending ws }

-- The rest of `handleAuth`, for a proof that was accepted.
unfoldable pub admit : ℕ → PendingAuth → Relay → Relay
unfolding replace_connection connect notify_presence stop_waiting
admit ws p s =
    notify_presence p.identity online
      (connect ws p (replace_connection p.identity (stop_waiting ws s)))

-- A certificate, if there is one, is of the device that the socket claims.
unfoldable pub accepted : Option VerifiedIdentity → Text → Bool
accepted none device = false
accepted (some verified) device = elim verified.device_id [
  | none ↦ true
  | some device_id ↦ same (to_hex device_id) device
]

module _ (crypto : Crypto) (now : ℕ) where
  unfoldable pub verified_as : PendingAuth → RelayMessage → Option VerifiedIdentity
  verified_as p (auth proof) =
      verify_identity_auth_json crypto now
        ((codes "audience", string p.audience)
          ∷ (codes "nonce", string p.nonce)
          ∷ (codes "deviceId", string p.device)
          ∷ [])
        proof (codes "relay.connect") p.identity
  verified_as p _ = none

  unfoldable pub handle_auth : ℕ → PendingAuth → RelayMessage → Relay → Relay
  unfolding accepted
  handle_auth ws p msg s =
      if accepted (verified_as p msg) p.device
      then admit ws p s
      else reject_auth ws (codes "authentication failed") s

-- A frame for the identity, if it is connected.
unfoldable pub forward : Text → Frame → Relay → Relay
unfolding send_ws
forward to frame s = elim (Map.get s.connections to) [
  | none ↦ s
  | some target ↦ send_ws target.ws frame s
]

unfoldable pub subscribe_room : Text → Text → Relay → Relay
unfolding add_subscriber
subscribe_room identity room s = elim (Map.get s.connections identity) [
  | none ↦ s
  | some entry ↦ record s {
    connections =
        Map.set s.connections identity (record entry { rooms = Map.set entry.rooms room tt });
    room_subscriptions = add_subscriber identity room s.room_subscriptions;
  }
]

unfoldable pub unsubscribe_room : Text → Text → Relay → Relay
unfolding drop_subscriber
unsubscribe_room identity room s =
    let left = drop_subscriber identity room s.room_subscriptions in
    elim (Map.get s.connections identity) [
      | none ↦ record s { room_subscriptions = left }
      | some entry ↦ record s {
        connections =
            Map.set s.connections identity (record entry { rooms = Map.delete entry.rooms room });
        room_subscriptions = left;
      }
    ]

-- The subscribers but the sender are sent the event.
unfoldable pub broadcast_to : List (Text × Unit {0}) → Text → Frame → Relay → Relay
broadcast_to [] sender frame s = s
broadcast_to (m ∷ more) sender frame s =
    broadcast_to more sender frame (if same m.0 sender then s else forward m.0 frame s)

unfoldable pub broadcast_room_event : Text → Text → Text → Relay → Relay
unfolding broadcast_to
broadcast_room_event sender room event s = elim (Map.get s.room_subscriptions room) [
  | none ↦ s
  | some subs ↦ broadcast_to subs sender (event_in room event) s
]

-- The `switch` of `webSocketMessage`, for an authenticated sender.
unfoldable pub dispatch : ℕ → Text → RelayMessage → Relay → Relay
dispatch ws sender invalid s = send_ws ws (error (codes "invalid JSON")) s
dispatch ws sender (signaling signal) s = forward signal.to (signal_from sender signal) s
dispatch ws sender (dm to envelope) s = forward to (dm_from sender envelope) s
dispatch ws sender (delivery_receipt to receipt) s = forward to (receipt_from sender receipt) s
dispatch ws sender (room_subscribe room) s = subscribe_room sender room s
dispatch ws sender (room_unsubscribe room) s = unsubscribe_room sender room s
dispatch ws sender (room_event room event) s = broadcast_room_event sender room event s
dispatch ws sender (auth proof) s = s
dispatch ws sender unknown s = s

-- The identity that the socket speaks for: it is authenticated and its connection is current.
unfoldable pub sender_of : ℕ → Relay → Option Text
sender_of ws s = elim (Map.get s.socket_identity ws) [
  | none ↦ none
  | some identity ↦ elim (Map.get s.connections identity) [
    | none ↦ none
    | some entry ↦ if entry.ws == ws then some identity else none
  ]
]

unfoldable pub web_socket_message : Crypto → ℕ → ℕ → RelayMessage → Relay → Relay
unfolding handle_auth sender_of
web_socket_message crypto now ws msg s = elim (Map.get s.pending ws) [
  | some p ↦ handle_auth crypto now ws p msg s
  | none ↦ elim (sender_of ws s) [
    | none ↦ reject_auth ws (codes "not authenticated") s
    | some sender ↦ dispatch ws sender msg s
  ]
]

-- `handleWebSocketUpgrade`, with the new socket and the random nonce; false is the answer 400.
unfoldable pub handle_upgrade : ℕ → Text → Text → Text → Text → Relay → Relay × Bool
unfolding is_id_hex
handle_upgrade ws identity device audience nonce s =
    if not (is_id_hex identity) || not (is_id_hex device) then (s, false) else (
      send_ws ws (auth_challenge nonce) (record s {
        pending =
            Map.set s.pending ws
              (record { identity = identity; device = device; audience = audience; nonce = nonce });
      }),
      true,
    )

-- The timer of a socket, which runs until its proof is taken or the socket goes.
unfoldable pub auth_timeout : ℕ → Relay → Relay
auth_timeout ws s = elim (Map.get s.pending ws) [
  | none ↦ s
  | some p ↦ reject_auth ws (codes "authentication timeout") s
]

unfoldable pub forget : ℕ → Relay → Relay
forget ws s = record s {
  pending = Map.delete s.pending ws;
  socket_identity = Map.delete s.socket_identity ws;
}

-- `webSocketClose` and `webSocketError`. The connection is looked up when the socket's own entry has
-- gone.
unfoldable pub drop_socket : ℕ → Relay → Relay
unfolding forget
drop_socket ws s = elim (sender_of ws s) [
  | none ↦ forget ws s
  | some identity ↦ remove_connection identity (forget ws s)
]
