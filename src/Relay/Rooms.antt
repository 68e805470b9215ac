-- ===== src/Relay/Rooms.antt =====
-- workers/relay/src/index.ts: the room subscriptions, a set of identities per room with no empty set.
use nexnet.Common.{
  ◌≡◌, refl, arith, Bool, true, false, ◌&&◌, Option, none, some, List, [], ◌∷◌, ◌==◌, if◌then◌else◌,
  Text, length, same, Option-cases, inl, inr,
}
use nexnet.Common.Map
use nexnet.Common.Map.{Map, text_key, get-set, get-delete}
use nexnet.Relay.State.{Members}

-- `subs.delete(identity)`, and the room goes with its last subscriber.
unfoldable pub drop_subscriber : Text → Text → Map Text Members → Map Text Members
drop_subscriber identity room rooms = elim (Map.get rooms room) [
  | none ↦ rooms
  | some subs ↦
      let left = Map.delete subs identity in
      if length left == 0 then Map.delete rooms room else Map.set rooms room left
]

-- The loop of `removeConnection` over the rooms of a connection.
unfoldable pub drop_from_all : Text → List Text → Map Text Members → Map Text Members
drop_from_all identity [] rooms = rooms
drop_from_all identity (room ∷ more) rooms =
    drop_from_all identity more (drop_subscriber identity room rooms)

abbrev nobody : Members
nobody = []

-- The room's set, or a new one, with the identity.
unfoldable pub add_subscriber : Text → Text → Map Text Members → Map Text Members
add_subscriber identity room rooms = elim (Map.get rooms room) [
  | none ↦ Map.set rooms room (Map.set nobody identity tt)
  | some subs ↦ Map.set rooms room (Map.set subs identity tt)
]

unfoldable pub members_has : Option Members → Text → Bool
members_has none identity = false
members_has (some subs) identity = Map.has subs identity

-- The identity is subscribed to the room.
unfoldable pub subscribed : Map Text Members → Text → Text → Bool
unfolding members_has
subscribed rooms room identity = members_has (Map.get rooms room) identity

get_of_none : (subs : Members) (j : Text) → length subs ≡ 0 → Map.get subs j ≡ none
unfolding Map.get
get_of_none [] j h = refl
get_of_none (x ∷ xs) j h = absurd (omega (arith, h))

pub subscribed-drop_subscriber :
    (identity room : Text) (rooms : Map Text Members) (q j : Text)
    → subscribed (drop_subscriber identity room rooms) q j
      ≡ (if same room q && same identity j then false else subscribed rooms q j)
unfolding drop_subscriber subscribed members_has Map.has
subscribed-drop_subscriber identity room rooms q j = elim (Option-cases (Map.get rooms room)) [
  | inl e ↦ ground (arith, e)
  | inr (subs, e) ↦ ground (
    arith,
    e,
    get-delete rooms room q,
    get-set rooms room q (Map.delete subs identity),
    get-delete subs identity j,
    get_of_none (Map.delete subs identity) j,
  )
]

pub subscribed-add_subscriber :
    (identity room : Text) (rooms : Map Text Members) (q j : Text)
    → subscribed (add_subscriber identity room rooms) q j
      ≡ (if same room q && same identity j then true else subscribed rooms q j)
unfolding add_subscriber subscribed members_has Map.has Map.get
subscribed-add_subscriber identity room rooms q j = elim (Option-cases (Map.get rooms room)) [
  | inl e ↦
      ground
        (arith, e, get-set rooms room q (Map.set nobody identity tt), get-set nobody identity j tt)
  | inr (subs, e) ↦
      ground (arith, e, get-set rooms room q (Map.set subs identity tt), get-set subs identity j tt)
]
