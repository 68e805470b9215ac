-- ===== src/Relay/Session/Invariant.antt =====
-- workers/relay/src/index.ts: the four tables of a `RelaySession` agree.
use nexnet.Common.{
  ℕ, ◌≡◌, refl, arith, Bool, true, false, ◌&&◌, Option, none, some, List, [], ◌∷◌, Text, ℕ_discrete,
  same, map, any_by, text_discrete, if◌then◌else◌,
}
use nexnet.Common.Map
use nexnet.Common.Map.{Map, text_key, object_key, get-set, get-delete}
use nexnet.Relay.State.{Relay, ConnectionEntry, PendingAuth, Members}
use nexnet.Relay.Rooms.{
  subscribed, drop_from_all, drop_subscriber, add_subscriber, subscribed-drop_subscriber,
  subscribed-add_subscriber,
}

-- The connection has the room in its own set.
abbrev has_room : Option ConnectionEntry → Text → Bool
has_room none room = false
has_room (some entry) room = Map.has entry.rooms room

-- Each authenticated socket is the socket of its identity's connection, and the other way round; none
-- of them waits for its proof; and who is subscribed to a room has a connection that knows of it.
pub record Agree (c : Map Text ConnectionEntry) (r : Map Text Members) (p : Map ℕ PendingAuth)
    (i : Map ℕ Text) : Type 0 where
  pub owned :
      (ws : ℕ) (id : Text)
      → Map.get i ws ≡ some id
      → (entry : ConnectionEntry) × (Map.get c id ≡ some entry) × (entry.ws ≡ ws)
  pub held :
      (id : Text) (entry : ConnectionEntry)
      → Map.get c id ≡ some entry
      → Map.get i entry.ws ≡ some id
  pub apart : (ws : ℕ) (id : Text) → Map.get i ws ≡ some id → Map.get p ws ≡ none
  pub listed : (room id : Text) → subscribed r room id ≡ true → has_room (Map.get c id) room ≡ true

abbrev pub IsConsistent : Relay → Type 0
IsConsistent s = Agree s.connections s.room_subscriptions s.pending s.socket_identity

any_by-keys :
    (rooms : Members) (room : Text) → any_by (same room) (map (λ m. m.0) rooms) ≡ Map.has rooms room
unfolding Map.has Map.get
any_by-keys [] room = refl
any_by-keys ((q, t) ∷ rooms) room = ground (arith, any_by-keys rooms room)

subscribed-drop_from_all :
    (id : Text) (gone : List Text) (rooms : Map Text Members) (q j : Text)
    → subscribed (drop_from_all id gone rooms) q j
      ≡ (if any_by (same q) gone && same id j then false else subscribed rooms q j)
unfolding drop_from_all
subscribed-drop_from_all id [] rooms q j = refl
subscribed-drop_from_all id (room ∷ gone) rooms q j = ground (
  arith,
  subscribed-drop_from_all id gone (drop_subscriber id room rooms) q j,
  subscribed-drop_subscriber id room rooms q j,
)

module _ (c : Map Text ConnectionEntry) (r : Map Text Members) (p : Map ℕ PendingAuth)
    (i : Map ℕ Text) (v : Agree c r p i) where
  pub Agree-disconnect :
      (id : Text) (entry : ConnectionEntry)
      → Map.get c id ≡ some entry
      → Agree
          (Map.delete c id)
          (drop_from_all id (map (λ m. m.0) entry.rooms) r)
          p
          (Map.delete i entry.ws)
  Agree-disconnect id entry e = record {
    owned = λ ws j h.
        let (other, at, its) = v.owned ws j (ground (arith, h, get-delete i entry.ws ws)) in
        (other, ground (arith, at, its, e, h, get-delete c id j, get-delete i entry.ws ws), its);
    held = λ j other h. ground (
      arith,
      h,
      get-delete c id j,
      get-delete i entry.ws other.ws,
      v.held j other,
      v.held id entry e,
    );
    apart = λ ws j h. v.apart ws j (ground (arith, h, get-delete i entry.ws ws));
    listed = λ room j h. ground (
      arith,
      h,
      e,
      subscribed-drop_from_all id (map (λ m. m.0) entry.rooms) r room j,
      any_by-keys entry.rooms room,
      v.listed room j,
      v.listed room id,
      get-delete c id j,
    );
  }

  pub Agree-connect :
      (ws : ℕ) (id device : Text)
      → Map.get c id ≡ none
      → Map.get i ws ≡ none
      → Map.get p ws ≡ none
      → Agree
          (Map.set c id (record { ws = ws; identity = id; device = device; rooms = [] }))
          r
          p
          (Map.set i ws id)
  Agree-connect ws id device e free proven =
      let entry : ConnectionEntry = record {
        ws = ws;
        identity = id;
        device = device;
        rooms = [];
      } in
      record {
        owned = λ w j h. elim (ℕ_discrete ws w) [
          | yes same_ws ↦
              (entry, ground (arith, same_ws, h, get-set i ws w id, get-set c id j entry), same_ws)
          | no other_ws ↦
              let (other, at, its) = v.owned w j (ground (arith, other_ws, h, get-set i ws w id)) in
              (other, ground (arith, at, e, get-set c id j entry), its)
        ];
        held = λ j other h.
            ground (arith, h, get-set c id j entry, get-set i ws other.ws id, v.held j other);
        apart = λ w j h. ground (arith, h, get-set i ws w id, proven, v.apart w j);
        listed = λ room j h. ground (arith, h, e, get-set c id j entry, v.listed room j);
      }

  -- Deleting what is not there.
  pub Agree-forget : (ws : ℕ) → Map.get i ws ≡ none → Agree c r p (Map.delete i ws)
  Agree-forget ws free = record {
    owned = λ w j h. v.owned w j (ground (arith, h, get-delete i ws w));
    held = λ j other h. ground (arith, free, get-delete i ws other.ws, v.held j other h);
    apart = λ w j h. v.apart w j (ground (arith, h, get-delete i ws w));
    listed = v.listed;
  }

  pub Agree-wait : (ws : ℕ) (a : PendingAuth) → Map.get i ws ≡ none → Agree c r (Map.set p ws a) i
  Agree-wait ws a free = record {
    owned = v.owned;
    held = v.held;
    apart = λ w j h. ground (arith, h, free, get-set p ws w a, v.apart w j h);
    listed = v.listed;
  }

  pub Agree-stop : (ws : ℕ) → Agree c r (Map.delete p ws) i
  Agree-stop ws = record {
    owned = v.owned;
    held = v.held;
    apart = λ w j h. ground (arith, h, get-delete p ws w, v.apart w j h);
    listed = v.listed;
  }

  -- The connection's own set of rooms and the room's set of identities change together.
  module _ (id room : Text) (entry : ConnectionEntry) (e : Map.get c id ≡ some entry)
      (rooms : Members) where
    abbrev moved : ConnectionEntry
    moved = record entry { rooms = rooms }

    move-owned :
        (ws : ℕ) (j : Text)
        → Map.get i ws ≡ some j
        → (other : ConnectionEntry) × (Map.get (Map.set c id moved) j ≡ some other)
          × (other.ws ≡ ws)
    move-owned ws j h =
        let (other, at, its) = v.owned ws j h in
        elim (text_discrete id j) [
          | yes same_id ↦ (
            moved,
            ground (arith, same_id, get-set c id j moved),
            ground (arith, same_id, at, e, its),
          )
          | no other_id ↦ (other, ground (arith, other_id, at, get-set c id j moved), its)
        ]

    move-held :
        (j : Text) (other : ConnectionEntry)
        → Map.get (Map.set c id moved) j ≡ some other
        → Map.get i other.ws ≡ some j
    move-held j other h = ground (arith, h, get-set c id j moved, v.held j other, v.held id entry e)

  pub Agree-subscribe :
      (id room : Text) (entry : ConnectionEntry)
      → Map.get c id ≡ some entry
      → Agree
          (Map.set c id (record entry { rooms = Map.set entry.rooms room tt }))
          (add_subscriber id room r)
          p
          i
  unfolding Map.has
  Agree-subscribe id room entry e = record {
    owned = move-owned id room entry e (Map.set entry.rooms room tt);
    held = move-held id room entry e (Map.set entry.rooms room tt);
    apart = v.apart;
    listed = λ q j h. ground (
      arith,
      h,
      e,
      subscribed-add_subscriber id room r q j,
      get-set c id j (record entry { rooms = Map.set entry.rooms room tt }),
      get-set entry.rooms room q tt,
      v.listed q j,
    );
  }

  pub Agree-unsubscribe :
      (id room : Text) (entry : ConnectionEntry)
      → Map.get c id ≡ some entry
      → Agree
          (Map.set c id (record entry { rooms = Map.delete entry.rooms room }))
          (drop_subscriber id room r)
          p
          i
  unfolding Map.has
  Agree-unsubscribe id room entry e = record {
    owned = move-owned id room entry e (Map.delete entry.rooms room);
    held = move-held id room entry e (Map.delete entry.rooms room);
    apart = v.apart;
    listed = λ q j h. ground (
      arith,
      h,
      e,
      subscribed-drop_subscriber id room r q j,
      get-set c id j (record entry { rooms = Map.delete entry.rooms room }),
      get-delete entry.rooms room q,
      v.listed q j,
    );
  }

  pub Agree-drop : (id room : Text) → Agree c (drop_subscriber id room r) p i
  Agree-drop id room = record {
    owned = v.owned;
    held = v.held;
    apart = v.apart;
    listed = λ q j h. ground (arith, h, subscribed-drop_subscriber id room r q j, v.listed q j);
  }
