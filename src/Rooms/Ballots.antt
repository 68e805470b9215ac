-- ===== src/Rooms/Ballots.antt =====
-- packages/client/src/rooms.ts: the votes of a votekick are those of different people.
use nexnet.Common.{
  ℕ, ◌≤◌, ◌≡◌, subst, arith, some, List, [], ◌∷◌, leb, Text, same, text_discrete, length,
  Option-cases, Bool-cases, inl, inr,
}
use nexnet.Common.Map
use nexnet.Common.Map.{Map, text_key, IsMap, get-set, get-delete, set-IsMap}
use nexnet.Rooms.State.{Rooms, RoomModeration, Votekick, get_mod, is_banned}
use nexnet.Rooms.Messages.{
  lift_ban, prune, check_cooldown, record_message, automod_check, moderate, send_room_message,
}
use nexnet.Rooms.Votekick.{start_votekick, vote_kick, count_vote, kicked, active}
use nexnet.Rooms.Bans.{RoomCall, sends, starts, votes, room_step, room_run, vote_kick-Kicked}

-- Each votekick of the room has every voter once.
abbrev FairRoom : RoomModeration → Type 0
FairRoom m = (target : Text) (v : Votekick) → Map.get m.votekicks target ≡ some v → IsMap v.votes

abbrev Fair : Rooms → Type 0
Fair rooms = (room : Text) → FairRoom (get_mod rooms room)

set-Fair :
    (at : Text) (m : RoomModeration) (rooms : Rooms)
    → Fair rooms
    → FairRoom m
    → Fair (Map.set rooms at m)
unfolding get_mod
set-Fair at m rooms fair fine room target v h = elim (text_discrete at room) [
  | yes e ↦ fine target v (ground (arith, e, h, get-set rooms at room m))
  | no n ↦ fair room target v (ground (arith, n, h, get-set rooms at room m))
]

-- One more votekick, fair itself.
set-votes :
    (kicks : Map Text Votekick) (target : Text) (new : Votekick)
    → IsMap new.votes
    → ((other : Text) (w : Votekick) → Map.get kicks other ≡ some w → IsMap w.votes)
    → (other : Text) (w : Votekick) → Map.get (Map.set kicks target new) other ≡ some w
    → IsMap w.votes
set-votes kicks target new distinct fair other w h = elim (text_discrete target other) [
  | yes e ↦
      let same_kick : new ≡ w = ground (arith, e, h, get-set kicks target other new) in
      subst (λ x. IsMap x.votes) same_kick distinct
  | no n ↦ fair other w (ground (arith, n, h, get-set kicks target other new))
]

delete-votes :
    (kicks : Map Text Votekick) (target : Text)
    → ((other : Text) (w : Votekick) → Map.get kicks other ≡ some w → IsMap w.votes)
    → (other : Text) (w : Votekick) → Map.get (Map.delete kicks target) other ≡ some w
    → IsMap w.votes
delete-votes kicks target fair other w h =
    fair other w (ground (arith, h, get-delete kicks target other))

check_cooldown-votekicks :
    (now : ℕ) (user : Text) (m : RoomModeration)
    → (check_cooldown now user m).0.votekicks ≡ m.votekicks
unfolding check_cooldown lift_ban prune
check_cooldown-votekicks now user m = ground arith

automod_check-votekicks :
    (now : ℕ) (user text : Text) (m : RoomModeration)
    → (automod_check now user text m).0.votekicks ≡ m.votekicks
unfolding automod_check
automod_check-votekicks now user text m = ground arith

moderate-votekicks :
    (now : ℕ) (user text : Text) (m : RoomModeration)
    → (moderate now user text m).0.votekicks ≡ m.votekicks
unfolding moderate record_message
moderate-votekicks now user text m = ground (
  arith,
  check_cooldown-votekicks now user m,
  automod_check-votekicks now user text (check_cooldown now user m).0,
)

send-Fair :
    (now : ℕ) (at user text : Text) (rooms : Rooms)
    → Fair rooms
    → Fair (send_room_message now at user text rooms).0
unfolding send_room_message
send-Fair now at user text rooms fair = elim (Bool-cases (is_banned now at user rooms)) [
  | inl e ↦ rw (send_room_message, e) fair
  | inr e ↦
      rw (send_room_message, e)
        (set-Fair at (moderate now user text (get_mod rooms at)).0 rooms fair (λ target v h.
          fair at target v
            (ground (arith, h, moderate-votekicks now user text (get_mod rooms at)))))
]

start-Fair :
    (now : ℕ) (at target initiator : Text) (rooms : Rooms)
    → Fair rooms
    → Fair (start_votekick now at target initiator rooms).0
unfolding start_votekick
start-Fair now at target initiator rooms fair =
    let m = get_mod rooms at in
    elim (Bool-cases (same target initiator)) [
      | inl e ↦ rw (start_votekick, e) (set-Fair at m rooms fair (fair at))
      | inr e ↦ elim (Bool-cases (active now (Map.get m.votekicks target))) [
        | inl a ↦ rw (start_votekick, e, a) (set-Fair at m rooms fair (fair at))
        | inr a ↦
            rw (start_votekick, e, a)
              (set-Fair at _ rooms fair (set-votes m.votekicks target _ (tt, tt) (fair at)))
      ]
    ]

count_vote-Fair :
    (now : ℕ) (target : Text) (v : Votekick) (m : RoomModeration)
    → IsMap v.votes
    → FairRoom m
    → FairRoom (count_vote now target v m).0
unfolding count_vote
count_vote-Fair now target v m distinct fair = elim (Bool-cases (leb 3 (length v.votes))) [
  | inl e ↦ rw (count_vote, e) (delete-votes m.votekicks target fair)
  | inr e ↦ rw (count_vote, e) (set-votes m.votekicks target v distinct fair)
]

vote-Fair :
    (now : ℕ) (at target voter : Text) (rooms : Rooms)
    → Fair rooms
    → Fair (vote_kick now at target voter rooms).0
unfolding vote_kick
vote-Fair now at target voter rooms fair =
    let m = get_mod rooms at in
    elim (Option-cases (Map.get m.votekicks target)) [
      | inl e ↦ rw (vote_kick, e) (set-Fair at m rooms fair (fair at))
      | inr (v, e) ↦ elim (Bool-cases (active now (some v))) [
        | inr a ↦ rw (vote_kick, e, a) (set-Fair at m rooms fair (fair at))
        | inl a ↦
            rw (vote_kick, e, a)
              (set-Fair at _ rooms fair (
                count_vote-Fair now target (record v { votes = Map.set v.votes voter tt }) m
                  (set-IsMap v.votes voter tt (fair at target v e)) (fair at)))
      ]
    ]

step-Fair :
    (now : ℕ) (call : RoomCall) (rooms : Rooms) → Fair rooms → Fair (room_step now call rooms)
unfolding room_step
step-Fair now (sends at user text) rooms fair = send-Fair now at user text rooms fair
step-Fair now (starts at target initiator) rooms fair =
    start-Fair now at target initiator rooms fair
step-Fair now (votes at target voter) rooms fair = vote-Fair now at target voter rooms fair

run-Fair : (calls : List (ℕ × RoomCall)) (rooms : Rooms) → Fair rooms → Fair (room_run calls rooms)
unfolding room_run
run-Fair [] rooms fair = fair
run-Fair ((now, call) ∷ calls) rooms fair =
    run-Fair calls (room_step now call rooms) (step-Fair now call rooms fair)

empty-Fair : Fair []
unfolding get_mod Map.get
empty-Fair room target v h = absurd (ground (arith, h))

-- After any history of the rooms, a vote that kicks someone is one of at least three votes, its number
-- is the one that is reported, and no two of them are of the same person.
pub kick_needs_three_people :
    (calls : List (ℕ × RoomCall)) (now count : ℕ) (room target voter : Text)
    → (vote_kick now room target voter (room_run calls [])).1 ≡ kicked count
    → (v : Votekick) × (Map.get (get_mod (room_run calls []) room).votekicks target ≡ some v)
      × IsMap (Map.set v.votes voter tt)
      × (length (Map.set v.votes voter tt) ≡ count)
      × (3 ≤ count)
kick_needs_three_people calls now count room target voter e =
    let k = vote_kick-Kicked now room target voter count (room_run calls []) e in
    (
      k.votekick,
      k.found,
      set-IsMap k.votekick.votes voter tt
          (run-Fair calls [] empty-Fair room target k.votekick k.found),
      k.counted,
      k.enough,
    )
