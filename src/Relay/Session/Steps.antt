-- ===== src/Relay/Session/Steps.antt =====
-- workers/relay/src/index.ts: the handlers of messages and of lost sockets keep the tables in step.
use nexnet.Common.{
  ℕ, ◌≡◌, subst, arith, none, some, List, [], ◌∷◌, Text, same, map, Option-cases, Bool-cases, inl,
  inr,
}
use nexnet.Common.Map
use nexnet.Common.Map.{Map, text_key, object_key, get-set, get-delete}
use nexnet.Relay.State.{
  Relay, ConnectionEntry, RelayMessage, signaling, dm, delivery_receipt, room_subscribe,
  room_unsubscribe, room_event, auth, invalid, unknown, Frame, Status, offline, send_ws,
}
use nexnet.Relay.Rooms.{drop_from_all}
use nexnet.Relay.Session.{
  forget, notify_all, notify_presence, remove_connection, reject_auth, forward, subscribe_room,
  unsubscribe_room, broadcast_to, broadcast_room_event, dispatch, sender_of, drop_socket,
}
use nexnet.Relay.Session.Invariant.{
  Agree, IsConsistent, Agree-disconnect, Agree-stop, Agree-subscribe, Agree-unsubscribe, Agree-drop,
  Agree-forget,
}

notify_all-keeps :
    (entries : List (Text × ConnectionEntry)) (frame : Frame) (s : Relay)
    → IsConsistent s
    → IsConsistent (notify_all entries frame s)
unfolding notify_all send_ws
notify_all-keeps [] frame s v = v
notify_all-keeps (e ∷ entries) frame s v = notify_all-keeps entries frame (send_ws e.1.ws frame s) v

pub notify_presence-keeps :
    (id : Text) (status : Status) (s : Relay)
    → IsConsistent s
    → IsConsistent (notify_presence id status s)
unfolding notify_presence
notify_presence-keeps id status s v = notify_all-keeps s.connections _ s v

forward-keeps :
    (to : Text) (frame : Frame) (s : Relay) → IsConsistent s → IsConsistent (forward to frame s)
unfolding forward send_ws
forward-keeps to frame s v = elim (Option-cases (Map.get s.connections to)) [
  | inl e ↦ rw (forward, e) v
  | inr (target, e) ↦ rw (forward, e) v
]

broadcast_to-keeps :
    (to : List (Text × Unit {0})) (sender : Text) (frame : Frame) (s : Relay)
    → IsConsistent s
    → IsConsistent (broadcast_to to sender frame s)
unfolding broadcast_to
broadcast_to-keeps [] sender frame s v = v
broadcast_to-keeps (m ∷ to) sender frame s v = elim (Bool-cases (same m.0 sender)) [
  | inl e ↦ rw (broadcast_to, e) (broadcast_to-keeps to sender frame s v)
  | inr e ↦
      rw (broadcast_to, e)
        (broadcast_to-keeps to sender frame (forward m.0 frame s) (forward-keeps m.0 frame s v))
]

subscribe_room-keeps :
    (id room : Text) (s : Relay) → IsConsistent s → IsConsistent (subscribe_room id room s)
unfolding subscribe_room
subscribe_room-keeps id room s v = elim (Option-cases (Map.get s.connections id)) [
  | inl e ↦ rw (subscribe_room, e) v
  | inr (entry, e) ↦ rw (subscribe_room, e) (Agree-subscribe _ _ _ _ v id room entry e)
]

unsubscribe_room-keeps :
    (id room : Text) (s : Relay) → IsConsistent s → IsConsistent (unsubscribe_room id room s)
unfolding unsubscribe_room
unsubscribe_room-keeps id room s v = elim (Option-cases (Map.get s.connections id)) [
  | inl e ↦ rw (unsubscribe_room, e) (Agree-drop _ _ _ _ v id room)
  | inr (entry, e) ↦ rw (unsubscribe_room, e) (Agree-unsubscribe _ _ _ _ v id room entry e)
]

broadcast_room_event-keeps :
    (sender room event : Text) (s : Relay)
    → IsConsistent s
    → IsConsistent (broadcast_room_event sender room event s)
unfolding broadcast_room_event
broadcast_room_event-keeps sender room event s v =
    elim (Option-cases (Map.get s.room_subscriptions room)) [
      | inl e ↦ rw (broadcast_room_event, e) v
      | inr (subs, e) ↦ rw (broadcast_room_event, e) (broadcast_to-keeps subs sender _ s v)
    ]

pub dispatch-keeps :
    (ws : ℕ) (sender : Text) (msg : RelayMessage) (s : Relay)
    → IsConsistent s
    → IsConsistent (dispatch ws sender msg s)
unfolding dispatch send_ws
dispatch-keeps ws sender (signaling signal) s v = forward-keeps signal.to _ s v
dispatch-keeps ws sender (dm to envelope) s v = forward-keeps to _ s v
dispatch-keeps ws sender (delivery_receipt to receipt) s v = forward-keeps to _ s v
dispatch-keeps ws sender (room_subscribe room) s v = subscribe_room-keeps sender room s v
dispatch-keeps ws sender (room_unsubscribe room) s v = unsubscribe_room-keeps sender room s v
dispatch-keeps ws sender (room_event room event) s v =
    broadcast_room_event-keeps sender room event s v
dispatch-keeps ws sender (auth proof) s v = v
dispatch-keeps ws sender invalid s v = v
dispatch-keeps ws sender unknown s v = v

pub reject_auth-keeps :
    (ws : ℕ) (message : Text) (s : Relay) → IsConsistent s → IsConsistent (reject_auth ws message s)
unfolding reject_auth send_ws
reject_auth-keeps ws message s v = Agree-stop _ _ _ _ v ws

pub sender_of-entry :
    (ws : ℕ) (s : Relay) (id : Text)
    → sender_of ws s ≡ some id
    → (entry : ConnectionEntry) × (Map.get s.connections id ≡ some entry) × (entry.ws ≡ ws)
unfolding sender_of
sender_of-entry ws s id e = elim (Option-cases (Map.get s.connections id)) [
  | inl n ↦ absurd (ground (arith, e, n))
  | inr (entry, at) ↦ (entry, at, ground (arith, e, at))
]

-- A socket that speaks for nobody is no authenticated socket.
sender_of-none :
    (ws : ℕ) (s : Relay)
    → IsConsistent s
    → sender_of ws s ≡ none
    → Map.get s.socket_identity ws ≡ none
unfolding sender_of
sender_of-none ws s v e = elim (Option-cases (Map.get s.socket_identity ws)) [
  | inl n ↦ n
  | inr (id, at) ↦
      let (entry, found, its) = v.owned ws id at in absurd (ground (arith, e, at, found, its))
]

remove_connection-keeps :
    (id : Text) (entry : ConnectionEntry) (s : Relay)
    → Map.get s.connections id ≡ some entry
    → Agree
        (Map.delete s.connections id)
        (drop_from_all id (map (λ m. m.0) entry.rooms) s.room_subscriptions)
        s.pending
        s.socket_identity
    → IsConsistent (remove_connection id s)
unfolding remove_connection notify_presence
remove_connection-keeps id entry s at v =
    rw (remove_connection, at)
      (notify_presence-keeps id offline
        (record s {
          room_subscriptions = drop_from_all id (map (λ m. m.0) entry.rooms) s.room_subscriptions;
          connections = Map.delete s.connections id;
        })
        v)

pub drop_socket-keeps : (ws : ℕ) (s : Relay) → IsConsistent s → IsConsistent (drop_socket ws s)
unfolding drop_socket
drop_socket-keeps ws s v = elim (Option-cases (sender_of ws s)) [
  | inl e ↦
      rw (drop_socket, e)
        (Agree-forget _ _ _ _ (Agree-stop _ _ _ _ v ws) ws (sender_of-none ws s v e))
  | inr (id, e) ↦
      let (entry, at, its) = sender_of-entry ws s id e in
      rw (drop_socket, e)
        (remove_connection-keeps id entry (forget ws s) at (
          Agree-stop _ _ _ _
            (subst
              (λ w.
                Agree (Map.delete s.connections id)
                  (drop_from_all id (map (λ m. m.0) entry.rooms) s.room_subscriptions) s.pending
                  (Map.delete s.socket_identity w))
              its (Agree-disconnect _ _ _ _ v id entry at))
            ws))
]
