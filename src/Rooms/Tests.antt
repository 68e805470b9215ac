-- ===== src/Rooms/Tests.antt =====
-- A room of packages/client/src/rooms.ts whose members vote one of them out.
use nexnet.Common.{
  ℕ, List, ◌≤◌, length, ◌≡◌, refl, arith, some, [], ◌∷◌, Text, codes, text_discrete,
}
use nexnet.Common.Map
use nexnet.Common.Map.{text_key, IsMap}
use nexnet.Rooms.State.{Votekick, Rooms, get_mod}
use nexnet.Rooms.Messages.{send_room_message, room_ban}
use nexnet.Rooms.Votekick.{start_votekick, vote_kick, count_vote, active}
use nexnet.Rooms.Ballots.{kick_needs_three_people}
use nexnet.Rooms.Bans.{RoomCall, room_step, starts, votes, sends, room_run, kick_lasts_five_hours}

abbrev lobby : Text
lobby = codes "lobby"

abbrev mallory : Text
mallory = codes "mallory"

-- Two votes are in.
accused : Rooms
accused =
    (vote_kick 20 lobby mallory (codes "bob")
      (start_votekick 10 lobby mallory (codes "alice") []).0).0

-- An hour later she is still out, and Bob has said something in between.
kick_lasts_five_hours_example :
    send_room_message 3600000 lobby mallory (codes "hi") (
      room_run
        ((40, sends lobby (codes "bob") (codes "bye")) ∷ [])
        (vote_kick 30 lobby mallory (codes "carol") accused).0)
    ≡ (
      room_run
          ((40, sends lobby (codes "bob") (codes "bye")) ∷ [])
          (vote_kick 30 lobby mallory (codes "carol") accused).0,
      some room_ban,
    )
unfolding accused start_votekick vote_kick count_vote active get_mod Map.get Map.set Map.delete
    text_discrete
kick_lasts_five_hours_example =
    kick_lasts_five_hours 30 3600000 lobby mallory (codes "carol") (codes "hi") 3 accused
      ((40, sends lobby (codes "bob") (codes "bye")) ∷ []) refl (omega arith) (omega arith)
      (omega arith, omega arith, tt)

abbrev accusations : List (ℕ × RoomCall)
accusations =
    (10, starts lobby mallory (codes "alice")) ∷ (20, votes lobby mallory (codes "bob")) ∷ []

kick_needs_three_people_example :
    (v : Votekick) × (Map.get (get_mod (room_run accusations []) lobby).votekicks mallory ≡ some v)
    × IsMap (Map.set v.votes (codes "carol") tt)
    × (length (Map.set v.votes (codes "carol") tt) ≡ 3)
    × (3 ≤ 3)
unfolding room_run room_step start_votekick vote_kick count_vote active get_mod Map.get Map.set
    text_discrete
kick_needs_three_people_example =
    kick_needs_three_people accusations 30 3 lobby mallory (codes "carol") refl
