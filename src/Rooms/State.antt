-- ===== src/Rooms/State.antt =====
-- packages/client/src/rooms.ts: the constants, the moderation state of each room and its bans.
use nexnet.Common.{ℕ, ◌*◌, Bool, false, Option, none, some, List, [], ltb, Text}
use nexnet.Common.Map
use nexnet.Common.Map.{Map, text_key}

abbrev default_rate_limit : ℕ
default_rate_limit = 5

abbrev pub rate_window_ms : ℕ
rate_window_ms = 60000

abbrev pub votekick_window_ms : ℕ
votekick_window_ms = 5 * 60000

-- The source writes `30 * 60_1000`.
abbrev pub spam_ban_ms : ℕ
spam_ban_ms = 30 * 601000

abbrev pub spam_duplicate_threshold : ℕ
spam_duplicate_threshold = 3

pub record UserRateState : Type 0 where
  pub timestamps : List ℕ
  pub recent_texts : List Text

-- `votes` is a set: its members, in order.
pub record Votekick : Type 0 where
  pub target : Text
  pub votes : Map Text (Unit {0})
  pub started_at : ℕ
  pub started_by : Text

pub record RoomModeration : Type 0 where
  pub rate_limit : ℕ
  pub user_states : Map Text UserRateState
  pub bans : Map Text ℕ
  pub votekicks : Map Text Votekick

-- `modState`, by room.
abbrev pub Rooms : Type 0
Rooms = Map Text RoomModeration

abbrev new_moderation : RoomModeration
new_moderation = record {
  rate_limit = default_rate_limit;
  user_states = [];
  bans = [];
  votekicks = [];
}

-- `getMod`: the room's state, made on the first use. Each caller writes it back.
unfoldable pub get_mod : Rooms → Text → RoomModeration
get_mod rooms room = elim (Map.get rooms room) [ none ↦ new_moderation | some mod_ ↦ mod_ ]

-- A ban that has not ended.
unfoldable pub ban_holds : ℕ → Option ℕ → Bool
ban_holds now none = false
ban_holds now (some until) = ltb now until

unfoldable pub room_bans : Option RoomModeration → Text → Option ℕ
room_bans none user = none
room_bans (some mod_) user = Map.get mod_.bans user

unfoldable pub is_banned : ℕ → Text → Text → Rooms → Bool
unfolding ban_holds room_bans
is_banned now room user rooms = ban_holds now (room_bans (Map.get rooms room) user)
