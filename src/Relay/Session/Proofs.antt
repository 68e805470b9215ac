-- ===== src/Relay/Session/Proofs.antt =====
-- workers/relay/src/index.ts: who a socket is taken for, and what is left of one that goes.
use nexnet.Common.{
  ℕ, ◌≡◌, refl, arith, true, false, none, some, List, [], ◌∷◌, Text, Option-cases, Bool-cases, inl,
  inr,
}
use nexnet.Common.Map
use nexnet.Common.Map.{Map, text_key, object_key, get-set, get-delete}
use nexnet.Crypto.{Crypto}
use nexnet.Relay.State.{
  Relay, PendingAuth, RelayMessage, signaling, dm, delivery_receipt, room_subscribe,
  room_unsubscribe, room_event, auth, invalid, unknown, Frame, event_in, send_ws,
}
use nexnet.Relay.Rooms.{subscribed}
use nexnet.Relay.Session.{
  forget, accepted, reject_auth, handle_auth, verified_as, forward, subscribe_room,
  unsubscribe_room, broadcast_to, broadcast_room_event, dispatch, sender_of, web_socket_message,
  drop_socket,
}
use nexnet.Relay.Session.Steps.{sender_of-entry}
use nexnet.Relay.Session.Admission.{admit-authenticates, remove_connection-Cut}
use nexnet.Relay.Session.Reachable.{Reachable, dropped, next, tables_agree}

forward-sockets :
    (to : Text) (frame : Frame) (s : Relay)
    → (forward to frame s).socket_identity ≡ s.socket_identity
unfolding forward send_ws
forward-sockets to frame s = ground arith

broadcast_to-sockets :
    (to : List (Text × Unit {0})) (sender : Text) (frame : Frame) (s : Relay)
    → (broadcast_to to sender frame s).socket_identity ≡ s.socket_identity
unfolding broadcast_to
broadcast_to-sockets [] sender frame s = refl
broadcast_to-sockets (m ∷ to) sender frame s = ground (
  arith,
  broadcast_to-sockets to sender frame s,
  broadcast_to-sockets to sender frame (forward m.0 frame s),
  forward-sockets m.0 frame s,
)

-- A message of an authenticated socket changes nobody's authentication.
dispatch-sockets :
    (ws : ℕ) (sender : Text) (msg : RelayMessage) (s : Relay)
    → (dispatch ws sender msg s).socket_identity ≡ s.socket_identity
unfolding dispatch send_ws subscribe_room unsubscribe_room broadcast_room_event
dispatch-sockets ws sender (signaling signal) s = forward-sockets signal.to _ s
dispatch-sockets ws sender (dm to envelope) s = forward-sockets to _ s
dispatch-sockets ws sender (delivery_receipt to receipt) s = forward-sockets to _ s
dispatch-sockets ws sender (room_subscribe room) s = ground arith
dispatch-sockets ws sender (room_unsubscribe room) s = ground arith
dispatch-sockets ws sender (room_event room event) s =
    elim (Option-cases (Map.get s.room_subscriptions room)) [
      | inl e ↦ ground (arith, e)
      | inr (subs, e) ↦ ground (arith, e, broadcast_to-sockets subs sender (event_in room event) s)
    ]
dispatch-sockets ws sender (auth proof) s = refl
dispatch-sockets ws sender invalid s = refl
dispatch-sockets ws sender unknown s = refl

-- A message makes a socket authenticated only if the socket itself sent it while it waited for its
-- proof, the identity is the one that the socket claimed, and the message carries a proof that is
-- accepted for that identity, that device and the nonce of that socket's challenge.
pub authentication_needs_proof :
    (crypto : Crypto) (now ws : ℕ) (msg : RelayMessage) (s : Relay) (w : ℕ) (id : Text)
    → Reachable crypto s
    → Map.get s.socket_identity w ≡ none
    → Map.get (web_socket_message crypto now ws msg s).socket_identity w ≡ some id
    → (w ≡ ws)
      × (p : PendingAuth) × (Map.get s.pending ws ≡ some p)
      × (p.identity ≡ id)
      × (accepted (verified_as crypto now p msg) p.device ≡ true)
unfolding web_socket_message handle_auth reject_auth send_ws
authentication_needs_proof crypto now ws msg s w id reached before after =
    elim (Option-cases (Map.get s.pending ws)) [
      | inl e ↦ elim (Option-cases (sender_of ws s)) [
        | inl n ↦ absurd (ground (arith, e, n, before, after))
        | inr (sender, at) ↦
            absurd (ground (arith, e, at, before, after, dispatch-sockets ws sender msg s))
      ]
      | inr (p, e) ↦ elim (Bool-cases (accepted (verified_as crypto now p msg) p.device)) [
        | inr n ↦ absurd (ground (arith, e, n, before, after))
        | inl y ↦
            let (same_socket, same_id) =
              admit-authenticates ws p s w id (tables_agree crypto s reached) before
                (ground (arith, e, y, after)) in
            (same_socket, p, e, same_id, y)
      ]
    ]

-- When the socket of an identity goes, the identity is not connected any more and no room lists it.
pub gone_from_every_room :
    (crypto : Crypto) (ws : ℕ) (s : Relay) (id room : Text)
    → Reachable crypto s
    → sender_of ws s ≡ some id
    → (Map.get (drop_socket ws s).connections id ≡ none)
      × (subscribed (drop_socket ws s).room_subscriptions room id ≡ false)
unfolding drop_socket
gone_from_every_room crypto ws s id room reached e =
    let v = tables_agree crypto _ (next s (drop_socket ws s) reached (dropped ws)) in
    let (entry, at, its) = sender_of-entry ws s id e in
    let out : Map.get (drop_socket ws s).connections id ≡ none = ground (
      arith,
      e,
      (remove_connection-Cut id entry (forget ws s) at).connections,
      get-delete s.connections id id,
    ) in
    (out, ground (arith, out, v.listed room id))
