-- ===== src/Relay/Session/Admission.antt =====
-- workers/relay/src/index.ts: a proof that is accepted takes the place of an older connection.
use nexnet.Common.{
  ℕ, ◌≡◌, refl, arith, none, some, List, [], ◌∷◌, Text, map, Option-cases, inl, inr, codes,
}
use nexnet.Common.Map
use nexnet.Common.Map.{Map, text_key, object_key, get-set, get-delete}
use nexnet.Relay.State.{
  Relay, ConnectionEntry, PendingAuth, Frame, error, online, offline, presence_update, send_ws,
}
use nexnet.Relay.Rooms.{drop_from_all}
use nexnet.Relay.Session.{
  connect, stop_waiting, notify_all, notify_presence, remove_connection, replace_connection, admit,
}
use nexnet.Relay.Session.Invariant.{IsConsistent, Agree-disconnect, Agree-connect, Agree-stop}
use nexnet.Relay.Session.Steps.{notify_presence-keeps}

-- The older connection is gone, with its socket's entry.
record Replaced (id : Text) (s t : Relay) : Type 0 where
  agrees : IsConsistent t
  gone : Map.get t.connections id ≡ none
  pending_kept : t.pending ≡ s.pending
  no_new_socket :
      (ws : ℕ) → Map.get s.socket_identity ws ≡ none → Map.get t.socket_identity ws ≡ none

-- The tables of `t` are those of `s`.
record SameTables (s t : Relay) : Type 0 where
  connections : t.connections ≡ s.connections
  room_subscriptions : t.room_subscriptions ≡ s.room_subscriptions
  pub pending : t.pending ≡ s.pending
  socket_identity : t.socket_identity ≡ s.socket_identity

notify_all-SameTables :
    (entries : List (Text × ConnectionEntry)) (frame : Frame) (s : Relay)
    → SameTables s (notify_all entries frame s)
unfolding notify_all send_ws
notify_all-SameTables [] frame s = record {
  connections = refl;
  room_subscriptions = refl;
  pending = refl;
  socket_identity = refl;
}
notify_all-SameTables (e ∷ entries) frame s =
    let rest = notify_all-SameTables entries frame (send_ws e.1.ws frame s) in
    record {
      connections = rest.connections;
      room_subscriptions = rest.room_subscriptions;
      pending = rest.pending;
      socket_identity = rest.socket_identity;
    }

-- `t` is what `removeConnection` makes of the tables.
pub record Cut (id : Text) (entry : ConnectionEntry) (s t : Relay) : Type 0 where
  pub connections : t.connections ≡ Map.delete s.connections id
  pub room_subscriptions :
      t.room_subscriptions ≡ drop_from_all id (map (λ m. m.0) entry.rooms) s.room_subscriptions
  pub pending : t.pending ≡ s.pending
  pub socket_identity : t.socket_identity ≡ s.socket_identity

pub remove_connection-Cut :
    (id : Text) (entry : ConnectionEntry) (s : Relay)
    → Map.get s.connections id ≡ some entry
    → Cut id entry s (remove_connection id s)
unfolding remove_connection notify_presence
remove_connection-Cut id entry s at =
    let same =
      notify_all-SameTables (Map.delete s.connections id) (presence_update id offline) (record s {
        room_subscriptions = drop_from_all id (map (λ m. m.0) entry.rooms) s.room_subscriptions;
        connections = Map.delete s.connections id;
      }) in
    rw (remove_connection, at)
      (record {
        connections = same.connections;
        room_subscriptions = same.room_subscriptions;
        pending = same.pending;
        socket_identity = same.socket_identity;
      })

-- After the cut the older socket's own entry goes too.
Cut-Replaced :
    (id : Text) (existing : ConnectionEntry) (s told : Relay) (sent : List (ℕ × Frame))
    → IsConsistent s
    → Map.get s.connections id ≡ some existing
    → Cut id existing s told
    → Replaced id s
        (record told { socket_identity = Map.delete told.socket_identity existing.ws; sent = sent })
Cut-Replaced id existing s told sent v e cut = record {
  agrees =
      rw (cut.connections, cut.room_subscriptions, cut.pending, cut.socket_identity)
        (Agree-disconnect _ _ _ _ v id existing e);
  gone = ground (arith, cut.connections, get-delete s.connections id id);
  pending_kept = cut.pending;
  no_new_socket =
      λ ws h. ground (arith, h, cut.socket_identity, get-delete s.socket_identity existing.ws ws);
}

replace_connection-Replaced :
    (id : Text) (s : Relay) → IsConsistent s → Replaced id s (replace_connection id s)
unfolding replace_connection send_ws
replace_connection-Replaced id s v = elim (Option-cases (Map.get s.connections id)) [
  | inl e ↦
      rw (replace_connection, e)
        (record { agrees = v; gone = e; pending_kept = refl; no_new_socket = λ ws h. h })
  | inr (existing, e) ↦
      let told = send_ws existing.ws (error (codes "Replaced by new connection")) s in
      let cut = remove_connection-Cut id existing told e in
      rw (replace_connection, e)
        (Cut-Replaced id existing s (remove_connection id told) _ v e (record {
          connections = cut.connections;
          room_subscriptions = cut.room_subscriptions;
          pending = cut.pending;
          socket_identity = cut.socket_identity;
        }))
]

-- A socket that waits for its proof is no authenticated socket.
waiting-free :
    (ws : ℕ) (p : PendingAuth) (s : Relay)
    → IsConsistent s
    → Map.get s.pending ws ≡ some p
    → Map.get s.socket_identity ws ≡ none
waiting-free ws p s v e = elim (Option-cases (Map.get s.socket_identity ws)) [
  | inl n ↦ n
  | inr (id, at) ↦ absurd (ground (arith, e, v.apart ws id at))
]

pub admit-keeps :
    (ws : ℕ) (p : PendingAuth) (s : Relay)
    → IsConsistent s
    → Map.get s.pending ws ≡ some p
    → IsConsistent (admit ws p s)
unfolding admit connect stop_waiting send_ws
admit-keeps ws p s v e =
    let free =
      replace_connection-Replaced p.identity (stop_waiting ws s) (Agree-stop _ _ _ _ v ws) in
    notify_presence-keeps p.identity online
      (connect ws p (replace_connection p.identity (stop_waiting ws s)))
      (Agree-connect _ _ _ _ free.agrees ws p.identity p.device free.gone
        (free.no_new_socket ws (waiting-free ws p s v e))
        (ground (arith, free.pending_kept, get-delete s.pending ws ws)))

-- A socket that was not authenticated before is so after `admit` only if it is the one admitted.
pub admit-authenticates :
    (ws : ℕ) (p : PendingAuth) (s : Relay) (w : ℕ) (id : Text)
    → IsConsistent s
    → Map.get s.socket_identity w ≡ none
    → Map.get (admit ws p s).socket_identity w ≡ some id
    → (w ≡ ws) × (p.identity ≡ id)
unfolding admit notify_presence connect stop_waiting send_ws
admit-authenticates ws p s w id v before after =
    let free =
      replace_connection-Replaced p.identity (stop_waiting ws s) (Agree-stop _ _ _ _ v ws) in
    let held = connect ws p (replace_connection p.identity (stop_waiting ws s)) in
    let same = notify_all-SameTables held.connections (presence_update p.identity online) held in
    ground (
      arith,
      before,
      after,
      same.socket_identity,
      free.no_new_socket w before,
      get-set (replace_connection p.identity (stop_waiting ws s)).socket_identity ws w p.identity,
    )
