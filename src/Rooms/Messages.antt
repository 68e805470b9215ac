-- ===== src/Rooms/Messages.antt =====
-- packages/client/src/rooms.ts: the cooldown, the spam filter and the sending of a message. One call
-- reads the clock several times; here it is one time.
use nexnet.Common.{
  ℕ, ◌+◌, ◌-◌, ◌*◌, ◌/◌, Bool, ◌&&◌, Option, none, some, List, [], ◌∷◌, ◌++◌, ltb, leb, ◌==◌,
  if◌then◌else◌, Text, same, length, drop, filter_by,
}
use nexnet.Common.Map
use nexnet.Common.Map.{Map, text_key}
use nexnet.Rooms.State.{
  Rooms, RoomModeration, UserRateState, get_mod, is_banned, rate_window_ms, spam_ban_ms,
  spam_duplicate_threshold,
}

-- Why a message is not sent, with the seconds that the text names.
pub data Reason : Type 0 where
  room_ban : Reason
  banned_for : ℕ → Reason
  cooldown : ℕ → Reason
  duplicate_spam excessive_caps too_long : Reason

abbrev no_messages : UserRateState
no_messages = record { timestamps = []; recent_texts = [] }

unfoldable state_of : RoomModeration → Text → UserRateState
state_of mod_ user = elim (Map.get mod_.user_states user) [ none ↦ no_messages | some s ↦ s ]

-- `Math.ceil(ms / 1000)`
seconds : ℕ → ℕ
seconds ms = (ms + 999) / 1000

abbrev first_or_zero : List ℕ → ℕ
first_or_zero [] = 0
first_or_zero (t ∷ ts) = t

-- `t > now - RATE_WINDOW_MS`
unfoldable within_minute : ℕ → ℕ → Bool
within_minute now t = ltb now (t + rate_window_ms)

-- The ban of a user that has ended is removed; zero is no time to JavaScript.
unfoldable pub lift_ban : Text → Option ℕ → RoomModeration → RoomModeration
lift_ban user none mod_ = mod_
lift_ban user (some until) mod_ =
    if until == 0 then mod_ else record mod_ { bans = Map.delete mod_.bans user }

-- The pruned times are written to the user's state, which is the one in the map if it is there.
unfoldable pub prune : ℕ → Text → RoomModeration → RoomModeration
unfolding within_minute
prune now user mod_ = elim (Map.get mod_.user_states user) [
  | none ↦ mod_
  | some s ↦ record mod_ {
    user_states =
        Map.set mod_.user_states user
          (record s { timestamps = filter_by (within_minute now) s.timestamps });
  }
]

unfoldable rate_verdict : ℕ → Text → RoomModeration → Option Reason
unfolding state_of within_minute seconds
rate_verdict now user mod_ =
    let times = filter_by (within_minute now) (state_of mod_ user).timestamps in
    if leb mod_.rate_limit (length times)
    then some (cooldown (seconds (first_or_zero times + rate_window_ms - now)))
    else none

-- `checkCooldown`; no reason is `allowed: true`.
unfoldable pub check_cooldown : ℕ → Text → RoomModeration → RoomModeration × Option Reason
unfolding lift_ban prune rate_verdict seconds
check_cooldown now user mod_ =
    let lifted = lift_ban user (Map.get mod_.bans user) mod_ in
    let free : RoomModeration × Option Reason =
      (prune now user lifted, rate_verdict now user lifted) in
    elim (Map.get mod_.bans user) [
      | none ↦ free
      | some until ↦
          if ltb now until then (mod_, some (banned_for (seconds (until - now)))) else free
    ]

unfoldable pub record_message : ℕ → Text → Text → RoomModeration → RoomModeration
unfolding state_of
record_message now user text mod_ =
    let state = state_of mod_ user in
    let texts = state.recent_texts ++ (text ∷ []) in
    record mod_ {
      user_states = Map.set mod_.user_states user (record {
        timestamps = state.timestamps ++ (now ∷ []);
        recent_texts = drop (length texts - 10) texts;
      });
    }

abbrev is_capital : ℕ → Bool
is_capital c = leb b'A' c && leb c b'Z'

-- The checks of a text that do not look at the earlier ones: `capsCount / text.length > 0.8`, and the
-- length.
unfoldable text_verdict : Text → Option Reason
text_verdict text =
    if ltb 20 (length text) && ltb (4 * length text) (5 * length (filter_by is_capital text))
    then some excessive_caps
    else if ltb 4000 (length text)
    then some too_long
    else none

-- `automodCheck`; no reason is `blocked: false`.
unfoldable pub automod_check : ℕ → Text → Text → RoomModeration → RoomModeration × Option Reason
unfolding text_verdict
automod_check now user text mod_ = elim (Map.get mod_.user_states user) [
  | none ↦ (mod_, none)
  | some state ↦
      if leb spam_duplicate_threshold (length (filter_by (λ t. same t text) state.recent_texts))
      then (record mod_ { bans = Map.set mod_.bans user (now + spam_ban_ms) }, some duplicate_spam)
      else (mod_, text_verdict text)
]

-- The checks of `sendRoomMessage` after that of the ban, and the record of the message.
unfoldable pub moderate : ℕ → Text → Text → RoomModeration → RoomModeration × Option Reason
unfolding check_cooldown automod_check record_message
moderate now user text mod_ =
    let (cooled, wait) = check_cooldown now user mod_ in
    let (checked, spam) = automod_check now user text cooled in
    elim wait [
      | some reason ↦ (cooled, some reason)
      | none ↦ elim spam [
        | some reason ↦ (checked, some reason)
        | none ↦ (record_message now user text checked, none)
      ]
    ]

-- `sendRoomMessage`: no reason is `sent: true`, and then the signed event goes to the relay.
unfoldable pub send_room_message : ℕ → Text → Text → Text → Rooms → Rooms × Option Reason
unfolding moderate
send_room_message now room user text rooms =
    if is_banned now room user rooms
    then (rooms, some room_ban)
    else (let (after, reason) = moderate now user text (get_mod rooms room) in
        (Map.set rooms room after, reason))
