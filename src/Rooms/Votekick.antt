-- ===== src/Rooms/Votekick.antt =====
-- packages/client/src/rooms.ts: `startVotekick` and `voteKick`.
use nexnet.Common.{
  ℕ, ◌+◌, Bool, false, not, Option, none, some, [], ◌∷◌, ltb, leb, if◌then◌else◌, Text, same,
  length,
}
use nexnet.Common.Map
use nexnet.Common.Map.{Map, text_key}
use nexnet.Rooms.State.{Rooms, RoomModeration, Votekick, get_mod, votekick_window_ms, spam_ban_ms}

pub data StartResult : Type 0 where
  started cannot_kick_yourself already_in_progress : StartResult

pub data VoteResult : Type 0 where
  no_active_votekick : VoteResult
  recorded kicked : ℕ → VoteResult

-- `votekick && Date.now() - votekick.startedAt < VOTEKICK_WINDOW_MS`
unfoldable pub active : ℕ → Option Votekick → Bool
active now none = false
active now (some v) = ltb now (v.started_at + votekick_window_ms)

unfoldable pub start_votekick : ℕ → Text → Text → Text → Rooms → Rooms × StartResult
unfolding active get_mod
start_votekick now room target initiator rooms =
    let mod_ = get_mod rooms room in
    if same target initiator
    then (Map.set rooms room mod_, cannot_kick_yourself)
    else if active now (Map.get mod_.votekicks target)
    then (Map.set rooms room mod_, already_in_progress)
    else (
      Map.set rooms room (record mod_ {
        votekicks = Map.set mod_.votekicks target (record {
          target = target;
          votes = (initiator, tt) ∷ [];
          started_at = now;
          started_by = initiator;
        });
      }),
      started,
    )

-- A vote that is counted, on the votes with it.
unfoldable pub count_vote : ℕ → Text → Votekick → RoomModeration → RoomModeration × VoteResult
count_vote now target votekick mod_ =
    if leb 3 (length votekick.votes)
    then (
      record mod_ {
        bans = Map.set mod_.bans target (now + spam_ban_ms);
        votekicks = Map.delete mod_.votekicks target;
      },
      kicked (length votekick.votes),
    )
    else (
      record mod_ { votekicks = Map.set mod_.votekicks target votekick },
      recorded (length votekick.votes),
    )

unfoldable pub vote_kick : ℕ → Text → Text → Text → Rooms → Rooms × VoteResult
unfolding active get_mod count_vote
vote_kick now room target voter rooms =
    let mod_ = get_mod rooms room in
    elim (Map.get mod_.votekicks target) [
      | none ↦ (Map.set rooms room mod_, no_active_votekick)
      | some votekick ↦
          if not (active now (some votekick))
          then (Map.set rooms room mod_, no_active_votekick)
          else (let (after, result) =
                count_vote now target (record votekick { votes = Map.set votekick.votes voter tt })
                  mod_ in
              (Map.set rooms room after, result))
    ]
