-- ===== src/Relay/Session/Reachable.antt =====
-- workers/relay/src/index.ts: the states that a `RelaySession` can come to.
use nexnet.Common.Hex.{is_id_hex}
use nexnet.Common.{
  ℕ, ◌≡◌, refl, arith, none, some, Text, Option-cases, Bool-cases, not, ◌||◌, inl, inr,
}
use nexnet.Common.Map
use nexnet.Common.Map.{Map, text_key, object_key, get-set, get-delete}
use nexnet.Crypto.{Crypto}
use nexnet.Relay.State.{Relay, PendingAuth, RelayMessage, send_ws, empty_relay}
use nexnet.Relay.Rooms.{members_has, subscribed}
use nexnet.Relay.Session.{
  accepted, handle_auth, verified_as, sender_of, web_socket_message, handle_upgrade, auth_timeout,
  drop_socket,
}
use nexnet.Relay.Session.Invariant.{IsConsistent, Agree-wait}
use nexnet.Relay.Session.Steps.{dispatch-keeps, reject_auth-keeps, drop_socket-keeps}
use nexnet.Relay.Session.Admission.{admit-keeps}

module _ (crypto : Crypto) where
  -- A step of the relay. The socket of an upgrade is a new object.
  pub data Step (s : Relay) : Relay → Type 0 where
    upgraded :
        (ws : ℕ) (identity device audience nonce : Text)
        → Map.get s.socket_identity ws ≡ none
        → Step s (handle_upgrade ws identity device audience nonce s).0
    said : (now ws : ℕ) (msg : RelayMessage) → Step s (web_socket_message crypto now ws msg s)
    timed_out : (ws : ℕ) → Step s (auth_timeout ws s)
    dropped : (ws : ℕ) → Step s (drop_socket ws s)

  pub data Reachable : Relay → Type 0 where
    start : Reachable empty_relay
    next : (s t : Relay) → Reachable s → Step s t → Reachable t

handle_auth-keeps :
    (crypto : Crypto) (now ws : ℕ) (p : PendingAuth) (msg : RelayMessage) (s : Relay)
    → IsConsistent s
    → Map.get s.pending ws ≡ some p
    → IsConsistent (handle_auth crypto now ws p msg s)
unfolding handle_auth
handle_auth-keeps crypto now ws p msg s v e =
    elim (Bool-cases (accepted (verified_as crypto now p msg) p.device)) [
      | inl yes_it ↦ rw (handle_auth, yes_it) (admit-keeps ws p s v e)
      | inr no_it ↦ rw (handle_auth, no_it) (reject_auth-keeps ws _ s v)
    ]

web_socket_message-keeps :
    (crypto : Crypto) (now ws : ℕ) (msg : RelayMessage) (s : Relay)
    → IsConsistent s
    → IsConsistent (web_socket_message crypto now ws msg s)
unfolding web_socket_message
web_socket_message-keeps crypto now ws msg s v = elim (Option-cases (Map.get s.pending ws)) [
  | inr (p, e) ↦ rw (web_socket_message, e) (handle_auth-keeps crypto now ws p msg s v e)
  | inl e ↦ elim (Option-cases (sender_of ws s)) [
    | inl n ↦ rw (web_socket_message, e, n) (reject_auth-keeps ws _ s v)
    | inr (sender, at) ↦ rw (web_socket_message, e, at) (dispatch-keeps ws sender msg s v)
  ]
]

handle_upgrade-keeps :
    (ws : ℕ) (identity device audience nonce : Text) (s : Relay)
    → IsConsistent s
    → Map.get s.socket_identity ws ≡ none
    → IsConsistent (handle_upgrade ws identity device audience nonce s).0
unfolding handle_upgrade send_ws
handle_upgrade-keeps ws identity device audience nonce s v free =
    elim (Bool-cases (not (is_id_hex identity) || not (is_id_hex device))) [
      | inl e ↦ rw (handle_upgrade, e) v
      | inr e ↦ rw (handle_upgrade, e) (Agree-wait _ _ _ _ v ws _ free)
    ]

auth_timeout-keeps : (ws : ℕ) (s : Relay) → IsConsistent s → IsConsistent (auth_timeout ws s)
unfolding auth_timeout
auth_timeout-keeps ws s v = elim (Option-cases (Map.get s.pending ws)) [
  | inl e ↦ rw (auth_timeout, e) v
  | inr (p, e) ↦ rw (auth_timeout, e) (reject_auth-keeps ws _ s v)
]

Step-keeps : (crypto : Crypto) (s t : Relay) → Step crypto s t → IsConsistent s → IsConsistent t
Step-keeps crypto s _ (upgraded ws identity device audience nonce free) v =
    handle_upgrade-keeps ws identity device audience nonce s v free
Step-keeps crypto s _ (said now ws msg) v = web_socket_message-keeps crypto now ws msg s v
Step-keeps crypto s _ (timed_out ws) v = auth_timeout-keeps ws s v
Step-keeps crypto s _ (dropped ws) v = drop_socket-keeps ws s v

-- Whatever the sockets do, in any order, the four tables agree: each authenticated socket is the
-- socket of its identity's one connection and each connection's socket is authenticated as its
-- identity, no such socket still waits for its proof, and who is subscribed to a room is connected
-- and has the room in its own set. The socket of an upgrade is a new one.
pub tables_agree : (crypto : Crypto) (s : Relay) → Reachable crypto s → IsConsistent s
unfolding Map.get subscribed members_has
tables_agree crypto _ start = record {
  owned = λ ws id h. absurd (ground (arith, h));
  held = λ id entry h. absurd (ground (arith, h));
  apart = λ ws id h. refl;
  listed = λ room id h. absurd (ground (arith, h));
}
tables_agree crypto t (next s t' before step) =
    Step-keeps crypto s t step (tables_agree crypto s before)
