-- ===== src/Gateway/Bodies.antt =====
-- packages/gateway/src/policy.ts: the channels, and `validateBody`.
use nexnet.Common.{
  ℕ, suc, ◌+◌, ◌*◌, ◌-◌, Bool, true, false, not, ◌||◌, ◌&&◌, List, [], ◌∷◌, leb, ltb, ◌==◌,
  if◌then◌else◌, Text, codes, trim, length, any_by,
}

pub data ChannelId : Type 0 where
  updates public_room : ChannelId

abbrev pub channel_text : ChannelId → Text
channel_text updates = codes "updates"
channel_text public_room = codes "public"

abbrev pub owner_writes : ChannelId → Bool
owner_writes updates = true
owner_writes public_room = false

abbrev pub post_limit : ChannelId → ℕ
post_limit updates = 30
post_limit public_room = 5

abbrev pub retains : ChannelId → Bool
retains updates = true
retains public_room = false

abbrev pub max_body_bytes : ℕ
max_body_bytes = 2000

abbrev pub rate_window_ms : ℕ
rate_window_ms = 60000

abbrev pub spam_duplicate_threshold : ℕ
spam_duplicate_threshold = 3

-- The code points of a text, as a regular expression with the flag `u` reads it: a high and a low
-- surrogate are one, another surrogate is one by itself.
abbrev is_high : ℕ → Bool
is_high c = leb 0xd800 c && leb c 0xdbff

abbrev is_low : ℕ → Bool
is_low c = leb 0xdc00 c && leb c 0xdfff

unfoldable pub code_points : Text → List ℕ
code_points [] = []
code_points (c ∷ []) = c ∷ []
code_points (c ∷ d ∷ s) =
    let pair = ((c - 0xd800) * 0x400 + (d - 0xdc00) + 0x10000) ∷ code_points s in
    let single = c ∷ code_points (d ∷ s) in if is_high c && is_low d then pair else single

-- A lone surrogate is written as the replacement character, which has three bytes too.
abbrev utf8_width : ℕ → ℕ
utf8_width c = if ltb c 0x80 then 1 else if ltb c 0x800 then 2 else if ltb c 0x10000 then 3 else 4

unfoldable pub utf8_length : List ℕ → ℕ
utf8_length [] = 0
utf8_length (c ∷ s) = utf8_width c + utf8_length s

-- The properties of code points that the Unicode tables of the runtime give.
pub record Unicode : Type 0 where
  -- Cc, Cs, Zl or Zp
  pub is_control : ℕ → Bool
  pub is_bidi_control : ℕ → Bool
  -- Cf, and no join control
  pub is_invisible_format : ℕ → Bool
  -- M
  pub is_mark : ℕ → Bool

-- `/\p{M}{9,}/u`: `run` marks stand before the text.
unfoldable pub has_mark_run : (ℕ → Bool) → ℕ → List ℕ → Bool
has_mark_run is_mark run [] = leb 9 run
has_mark_run is_mark run (c ∷ s) =
    let after = has_mark_run is_mark (if is_mark c then suc run else 0) s in leb 9 run || after

-- `validateBody` answers null.
unfoldable pub is_valid_body : Unicode → Text → Bool
unfolding code_points utf8_length has_mark_run
is_valid_body u body =
    let points = code_points body in
    not (
      (length (trim body) == 0)
      || ltb max_body_bytes (utf8_length points)
      || any_by u.is_control points
      || any_by u.is_bidi_control points
      || any_by u.is_invisible_format points
      || has_mark_run u.is_mark 0 points)
