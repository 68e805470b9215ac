-- ===== src/Rooms/Bans.antt =====
-- packages/client/src/rooms.ts: how long a ban holds, against everything that happens in the room.
use nexnet.Common.{
  ℕ, ◌+◌, ◌≤◌, ◌<◌, ◌≡◌, arith, Bool, true, false, Option, none, some, List, [], ◌∷◌, leb, Text,
  same, length, Option-cases, Bool-cases, inl, inr,
}
use nexnet.Common.Map
use nexnet.Common.Map.{Map, text_key, IsMap, get-set, get-delete, set-IsMap}
use nexnet.Rooms.State.{
  Rooms, RoomModeration, Votekick, get_mod, is_banned, ban_holds, room_bans, spam_ban_ms,
}
use nexnet.Rooms.Messages.{
  room_ban, lift_ban, prune, check_cooldown, record_message, automod_check, moderate,
  send_room_message,
}
use nexnet.Rooms.Votekick.{start_votekick, vote_kick, count_vote, kicked, active}

pub data RoomCall : Type 0 where
  sends : Text → Text → Text → RoomCall
  starts : Text → Text → Text → RoomCall
  votes : Text → Text → Text → RoomCall

-- One call at its time: room and user and text, room and target and initiator, or room and target and
-- voter.
unfoldable pub room_step : ℕ → RoomCall → Rooms → Rooms
room_step now (sends room user text) rooms = (send_room_message now room user text rooms).0
room_step now (starts room target initiator) rooms =
    (start_votekick now room target initiator rooms).0
room_step now (votes room target voter) rooms = (vote_kick now room target voter rooms).0

unfoldable pub room_run : List (ℕ × RoomCall) → Rooms → Rooms
unfolding room_step
room_run [] rooms = rooms
room_run ((now, call) ∷ calls) rooms = room_run calls (room_step now call rooms)

-- The times are from `first` on and before `end`.
abbrev Between : ℕ → ℕ → List (ℕ × RoomCall) → Type 0
Between first end [] = Unit
Between first end ((now, call) ∷ calls) = (first ≤ now) × (now < end) × Between first end calls

-- A ban to `end` or later.
abbrev lasts : ℕ → Option ℕ → Bool
lasts end none = false
lasts end (some until) = leb end until

-- What the state after each of the two checks has, the state after `moderate` has.
moderate-keeps :
    (P : Map Text ℕ → Type 0) (now : ℕ) (user text : Text) (m : RoomModeration)
    → P (check_cooldown now user m).0.bans
    → P (automod_check now user text (check_cooldown now user m).0).0.bans
    → P (moderate now user text m).0.bans
unfolding moderate record_message
moderate-keeps P now user text m cooled checked =
    elim (Option-cases (check_cooldown now user m).1) [
      | inr (reason, e) ↦ rw (moderate, e) cooled
      | inl e ↦ elim (Option-cases (automod_check now user text (check_cooldown now user m).0).1) [
        | inr (reason, f) ↦ rw (moderate, e, f) checked
        | inl f ↦ rw (moderate, e, f) checked
      ]
    ]

module _ (first end now : ℕ) (from : first ≤ now) (before : now < end)
    (short : end ≤ first + spam_ban_ms) where
  check_cooldown-lasts :
      (user banned : Text) (m : RoomModeration)
      → lasts end (Map.get m.bans banned) ≡ true
      → lasts end (Map.get (check_cooldown now user m).0.bans banned) ≡ true
  unfolding check_cooldown lift_ban prune
  check_cooldown-lasts user banned m h = ground (arith, h, get-delete m.bans user banned)

  automod_check-lasts :
      (user text banned : Text) (m : RoomModeration)
      → lasts end (Map.get m.bans banned) ≡ true
      → lasts end (Map.get (automod_check now user text m).0.bans banned) ≡ true
  unfolding automod_check
  automod_check-lasts user text banned m h =
      ground (arith, h, get-set m.bans user banned (now + spam_ban_ms))

  moderate-lasts :
      (user text banned : Text) (m : RoomModeration)
      → lasts end (Map.get m.bans banned) ≡ true
      → lasts end (Map.get (moderate now user text m).0.bans banned) ≡ true
  moderate-lasts user text banned m h =
      moderate-keeps (λ bans. lasts end (Map.get bans banned) ≡ true) now user text m
        (check_cooldown-lasts user banned m h)
        (automod_check-lasts user text banned (check_cooldown now user m).0
          (check_cooldown-lasts user banned m h))

  -- The user is banned from the room to `end` or later.
  abbrev Held : Text → Text → Rooms → Type 0
  Held room banned rooms = lasts end (room_bans (Map.get rooms room) banned) ≡ true

  -- A write of a room's state that keeps its bans to `end`.
  set-Held :
      (room banned at : Text) (after : RoomModeration) (rooms : Rooms)
      → Held room banned rooms
      → (lasts end (Map.get (get_mod rooms at).bans banned) ≡ true
          → lasts end (Map.get after.bans banned) ≡ true)
      → Held room banned (Map.set rooms at after)
  unfolding room_bans get_mod
  set-Held room banned at after rooms h keeps =
      ground (arith, h, keeps, get-set rooms at room after)

  send-Held :
      (room banned at user text : Text) (rooms : Rooms)
      → Held room banned rooms
      → Held room banned (send_room_message now at user text rooms).0
  unfolding send_room_message
  send-Held room banned at user text rooms h = elim (Bool-cases (is_banned now at user rooms)) [
    | inl e ↦ rw (send_room_message, e) h
    | inr e ↦
        rw (send_room_message, e)
          (set-Held room banned at (moderate now user text (get_mod rooms at)).0 rooms h
            (moderate-lasts user text banned (get_mod rooms at)))
  ]

  start-Held :
      (room banned at target initiator : Text) (rooms : Rooms)
      → Held room banned rooms
      → Held room banned (start_votekick now at target initiator rooms).0
  unfolding start_votekick
  start-Held room banned at target initiator rooms h =
      let m = get_mod rooms at in
      elim (Bool-cases (same target initiator)) [
        | inl e ↦ rw (start_votekick, e) (set-Held room banned at m rooms h (λ k. k))
        | inr e ↦ elim (Bool-cases (active now (Map.get m.votekicks target))) [
          | inl a ↦ rw (start_votekick, e, a) (set-Held room banned at m rooms h (λ k. k))
          | inr a ↦ rw (start_votekick, e, a) (set-Held room banned at _ rooms h (λ k. k))
        ]
      ]

  count_vote-lasts :
      (target banned : Text) (v : Votekick) (m : RoomModeration)
      → lasts end (Map.get m.bans banned) ≡ true
      → lasts end (Map.get (count_vote now target v m).0.bans banned) ≡ true
  unfolding count_vote
  count_vote-lasts target banned v m h =
      ground (arith, h, get-set m.bans target banned (now + spam_ban_ms))

  vote-Held :
      (room banned at target voter : Text) (rooms : Rooms)
      → Held room banned rooms
      → Held room banned (vote_kick now at target voter rooms).0
  unfolding vote_kick
  vote-Held room banned at target voter rooms h =
      let m = get_mod rooms at in
      elim (Option-cases (Map.get m.votekicks target)) [
        | inl e ↦ rw (vote_kick, e) (set-Held room banned at m rooms h (λ k. k))
        | inr (v, e) ↦ elim (Bool-cases (active now (some v))) [
          | inr a ↦ rw (vote_kick, e, a) (set-Held room banned at m rooms h (λ k. k))
          | inl a ↦
              rw (vote_kick, e, a)
                (set-Held room banned at _ rooms h (
                  count_vote-lasts target banned (record v { votes = Map.set v.votes voter tt }) m))
        ]
      ]

  step-Held :
      (room banned : Text) (call : RoomCall) (rooms : Rooms)
      → Held room banned rooms
      → Held room banned (room_step now call rooms)
  unfolding room_step
  step-Held room banned (sends at user text) rooms h = send-Held room banned at user text rooms h
  step-Held room banned (starts at target initiator) rooms h =
      start-Held room banned at target initiator rooms h
  step-Held room banned (votes at target voter) rooms h =
      vote-Held room banned at target voter rooms h

run-Held :
    (first end : ℕ) (room banned : Text) (calls : List (ℕ × RoomCall)) (rooms : Rooms)
    → end ≤ first + spam_ban_ms
    → Between first end calls
    → lasts end (room_bans (Map.get rooms room) banned) ≡ true
    → lasts end (room_bans (Map.get (room_run calls rooms) room) banned) ≡ true
unfolding room_run
run-Held first end room banned [] rooms short o h = h
run-Held first end room banned ((now, call) ∷ calls) rooms short (from, before, rest) h =
    run-Held first end room banned calls (room_step now call rooms) short rest
      (step-Held first end now from before short room banned call rooms h)

count_vote-ban :
    (now : ℕ) (target : Text) (count : ℕ) (v : Votekick) (m : RoomModeration)
    → (count_vote now target v m).1 ≡ kicked count
    → (Map.get (count_vote now target v m).0.bans target ≡ some (now + spam_ban_ms))
      × (3 ≤ count)
      × (length v.votes ≡ count)
unfolding count_vote
count_vote-ban now target count v m e =
    ground (arith, e, get-set m.bans target target (now + spam_ban_ms))

-- A kick counted the votes of a votekick in progress, the voter's with them, and banned the target.
pub record Kicked (now : ℕ) (room target voter : Text) (count : ℕ) (rooms : Rooms) : Type 0 where
  pub votekick : Votekick
  pub found : Map.get (get_mod rooms room).votekicks target ≡ some votekick
  pub enough : 3 ≤ count
  pub counted : length (Map.set votekick.votes voter tt) ≡ count
  banned :
      room_bans (Map.get (vote_kick now room target voter rooms).0 room) target
      ≡ some (now + spam_ban_ms)

pub vote_kick-Kicked :
    (now : ℕ) (room target voter : Text) (count : ℕ) (rooms : Rooms)
    → (vote_kick now room target voter rooms).1 ≡ kicked count
    → Kicked now room target voter count rooms
unfolding vote_kick room_bans
vote_kick-Kicked now room target voter count rooms e =
    let m = get_mod rooms room in
    elim (Option-cases (Map.get m.votekicks target)) [
      | inl n ↦ absurd (ground (arith, e, n))
      | inr (v, at) ↦ elim (Bool-cases (active now (some v))) [
        | inr stale ↦ absurd (ground (arith, e, at, stale))
        | inl live ↦
            let voted = record v { votes = Map.set v.votes voter tt } in
            let won : (count_vote now target voted m).1 ≡ kicked count =
              ground (arith, e, at, live) in
            let (ban, enough, counted) = count_vote-ban now target count voted m won in
            record {
              votekick = v;
              found = at;
              enough = enough;
              counted = counted;
              banned =
                  ground (
                    arith,
                    at,
                    live,
                    ban,
                    get-set rooms room room (count_vote now target voted m).0,
                  );
            }
      ]
    ]

-- A user who is kicked by vote can send nothing to the room for 18,030,000 milliseconds, five hours and
-- half a minute, whatever anyone sends or votes in any room in that time.
pub kick_lasts_five_hours :
    (now later : ℕ) (room target voter text : Text) (count : ℕ) (rooms : Rooms)
    (calls : List (ℕ × RoomCall))
    → (vote_kick now room target voter rooms).1 ≡ kicked count
    → now ≤ later
    → later < now + 18030000
    → Between now (now + 18030000) calls
    → send_room_message later room target text
        (room_run calls (vote_kick now room target voter rooms).0)
      ≡ (room_run calls (vote_kick now room target voter rooms).0, some room_ban)
unfolding send_room_message is_banned ban_holds
kick_lasts_five_hours now later room target voter text count rooms calls e from before order =
    let ban = (vote_kick-Kicked now room target voter count rooms e).banned in
    ground (
      arith,
      before,
      ban,
      run-Held now (now + 18030000) room target calls (vote_kick now room target voter rooms).0
          (omega arith) order (ground (arith, ban)),
    )
