-- ===== src/Discovery/Requests.antt =====
-- workers/discovery/src/index.ts: the fields of profiles and requests.
use nexnet.Common.{
  ℕ, Bool, ◌&&◌, Option, none, some, List, [], ◌∷◌, ◌++◌, Text, codes, leb, ltb, length, trim,
  all_by, take, if◌then◌else◌,
}
use nexnet.Common.Map
use nexnet.Common.Map.{Map, text_key}
use nexnet.Crypto.{string, integer, strings}
use nexnet.Protocol.IdentityAuth.{Fields}
use nexnet.Protocol.Requests.{string_at, optional_string_at}
use nexnet.Discovery.State.{StoredProfile}

unfoldable pub is_short_string : Text → Bool
unfolding trim
is_short_string t = ltb 0 (length (trim t)) && leb (length t) 32

unfoldable pub is_string_list : List Text → Bool
unfolding is_short_string
is_string_list list = leb (length list) 16 && all_by is_short_string list

-- `isStringList(body[key])`: the list.
unfoldable pub string_list_at : Text → Fields → Option (List Text)
unfolding is_string_list
string_list_at key fields = elim (Map.get fields key) [
  | none ↦ none
  | some value ↦ elim value [
    | strings list ↦ if is_string_list list then some list else none
    | _ ↦ none
  ]
]

-- `body[key] === undefined || isStringList(body[key])`: the list, or `[]`.
unfoldable pub optional_string_list_at : Text → Fields → Option (List Text)
unfolding string_list_at
optional_string_list_at key fields = elim (Map.get fields key) [
  | none ↦ some []
  | some value ↦ string_list_at key fields
]

-- The fields of a profile, if `validProfileFields` accepts them.
pub record ProfileFields : Type 0 where
  pub username : Text
  pub bio : Option Text
  pub interests : List Text
  pub languages : List Text

infixl 5 ◌>>=◌
abbrev ◌>>=◌ : {A B : Type 0} → Option A → (A → Option B) → Option B
none >>= f = none
some a >>= f = f a

unfoldable pub short_string_at : Text → Fields → Option Text
unfolding string_at is_short_string
short_string_at key fields = do t ← string_at key fields; if is_short_string t then some t else none

unfoldable pub valid_profile_fields : Fields → Option ProfileFields
unfolding short_string_at optional_string_at optional_string_list_at
valid_profile_fields fields = do
  username ← short_string_at (codes "username") fields
  bio ← optional_string_at (codes "bio") fields
  interests ← optional_string_list_at (codes "interests") fields
  languages ← optional_string_list_at (codes "languages") fields
  some (record { username = username; bio = bio; interests = interests; languages = languages })

abbrev slice_bio : Option Text → Option Text
slice_bio none = none
slice_bio (some bio) = some (take 160 bio)

-- A profile with its texts cut and a time at which it was first seen.
abbrev pub profile_from : Text → ProfileFields → ℕ → StoredProfile
profile_from identity p first_seen_at = record {
  identity = identity;
  username = p.username;
  bio = slice_bio p.bio;
  interests = p.interests;
  languages = p.languages;
  first_seen_at = first_seen_at;
}

abbrev bio_field : Option Text → Fields
bio_field none = []
bio_field (some bio) = (codes "bio", string bio) ∷ []

-- The object that `storage.put` is given.
abbrev pub profile_fields : StoredProfile → Fields
profile_fields p =
    (codes "identityId", string p.identity)
      ∷ (codes "username", string p.username)
      ∷ bio_field p.bio
    ++ (codes "interests", strings p.interests)
      ∷ (codes "languages", strings p.languages)
      ∷ (codes "firstSeenAt", integer p.first_seen_at)
      ∷ []

-- `firstSeenAt`, if it is a time up to now, and now otherwise.
unfoldable pub first_seen_of : Fields → ℕ → ℕ
first_seen_of fields now = elim (Map.get fields (codes "firstSeenAt")) [
  | none ↦ now
  | some value ↦ elim value [ integer n ↦ if leb n now then n else now | _ ↦ now ]
]
