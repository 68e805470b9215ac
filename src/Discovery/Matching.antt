-- ===== src/Discovery/Matching.antt =====
-- workers/discovery/src/index.ts: `handleRandomMatch`.
pub mod Ranking
pub mod Gates
pub mod Fair
use nexnet.Common.{
  ℕ, suc, ◌+◌, ◌-◌, ◌*◌, ◌/◌, Bool, true, false, not, ◌||◌, ◌&&◌, Option, none, some, List, [], ◌∷◌,
  ◌++◌, leb, ltb, length, ◌==◌, if◌then◌else◌, Result, ok, err, Text, codes, same, any_by,
  filter_by, map, get_elem?,
}
use nexnet.Common.Map
use nexnet.Common.Map.{Map, text_key}
use nexnet.Crypto.{Crypto, strings}
use nexnet.Protocol.IdentityAuth.{Fields}
use nexnet.Protocol.Requests.{Body}
use nexnet.Discovery.State.{
  StoredProfile, Stored, request_times, match_requests_key, TextSet, Index, Refusal, lists_required,
  rate_limited, set_of,
}
use nexnet.Discovery.Requests.{string_list_at}
use nexnet.Discovery.Handlers.{AuthorizedBody, authorize, Answer, has_blocked}

-- Double precision numbers, with the operations that the score uses.
pub record Doubles : Type 1 where
  pub F : Type 0
  -- the double of a natural number, and of m / 10 ^ e
  pub of_number : ℕ → F
  pub decimal : ℕ → ℕ → F
  pub add : F → F → F
  pub sub : F → F → F
  pub mul : F → F → F
  pub div : F → F → F
  pub lt : F → F → Bool

abbrev match_rate_limit : ℕ
match_rate_limit = 5

abbrev match_rate_window_ms : ℕ
match_rate_window_ms = 60000

abbrev reputation_age_cap_ms : ℕ
reputation_age_cap_ms = 30 * 24 * 60 * 60 * 1000

-- What a request asks for: lists of the right form, and the identities to leave out.
pub record Wish : Type 0 where
  pub interests : List Text
  pub languages : List Text
  pub exclude : List Text

-- `exclude` is absent, or an array of texts.
abbrev exclude_of : Fields → Option (List Text)
exclude_of fields = elim (Map.get fields (codes "exclude")) [
  | none ↦ some []
  | some value ↦ elim value [ strings list ↦ some list | _ ↦ none ]
]

unfoldable pub wish_of : Fields → Option Wish
unfolding string_list_at
wish_of fields = elim (string_list_at (codes "interests") fields) [
  | none ↦ none
  | some interests ↦ elim (string_list_at (codes "languages") fields) [
    | none ↦ none
    | some languages ↦ elim (exclude_of fields) [
      | none ↦ none
      | some exclude ↦
          some (record { interests = interests; languages = languages; exclude = exclude })
    ]
  ]
]

abbrev times_of : Option (List ℕ) → List ℕ
times_of none = []
times_of (some times) = times

abbrev first_or : List ℕ → ℕ → ℕ
first_or [] d = d
first_or (x ∷ xs) d = x

-- The requests of the last minute.
unfoldable pub recent_requests : Text → ℕ → Index → List ℕ
recent_requests identity now s =
    filter_by (λ at. ltb now (at + match_rate_window_ms))
      (times_of (Map.get s.match_requests identity))

-- This request is counted with them, or there are too many, and the time to wait is told.
unfoldable pub count_request : Text → ℕ → Index → Result Refusal Index
count_request identity now s =
    let requests = recent_requests identity now s in
    if leb match_rate_limit (length requests)
    then err (rate_limited (first_or requests now + match_rate_window_ms - now))
    else ok (record s {
      match_requests = Map.set s.match_requests identity (requests ++ (now ∷ []));
      storage =
          Map.set s.storage (match_requests_key identity) (request_times (requests ++ (now ∷ [])));
    })

-- One of the tags is one of those that are wished for, whose case does not count.
unfoldable pub overlaps : (Text → Text) → List Text → List Text → Bool
overlaps lower tags wished = any_by (λ t. Map.has (set_of (map lower wished)) (lower t)) tags

abbrev is_true : Option Bool → Bool
is_true none = false
is_true (some b) = b

-- The gates of the loop: none of its `continue`s is taken.
unfoldable pub passes :
    (Text → Text) → (Text → Option Bool) → Index → Text → Wish → StoredProfile → Bool
unfolding overlaps has_blocked
passes lower relay_online s identity wish p =
    is_true (relay_online p.identity)
    && not (Map.has (Map.set (set_of wish.exclude) identity tt) p.identity)
    && not (has_blocked s identity p.identity)
    && not (has_blocked s p.identity identity)
    && (overlaps lower p.interests wish.interests || overlaps lower p.languages wish.languages)

unfoldable pub blocks_received : Text → Index → ℕ
blocks_received identity s =
    length (filter_by (λ blocked. Map.has blocked identity) (Map.values s.blocks))

module _ (d : Doubles) where
  open d use {F, of_number, decimal, add, sub, mul, div, lt}

  unfoldable pub score_of : ℕ → Index → StoredProfile → F
  unfolding blocks_received
  score_of now s p =
      let capped = div (of_number (now - p.first_seen_at)) (of_number reputation_age_cap_ms) in
      let age = if lt capped (of_number 1) then capped else of_number 1 in
      let inverse =
        div (of_number 1) (add (of_number 1) (of_number (blocks_received p.identity s))) in
      sub (mul (decimal 35 2) age) (mul (decimal 15 2) (sub (of_number 1) inverse))

  pub record Candidate : Type 0 where
    pub profile : StoredProfile
    pub score : F

  unfoldable pub candidates_among :
      (StoredProfile → Bool) → (StoredProfile → F) → List StoredProfile → List Candidate
  candidates_among gate score [] = []
  candidates_among gate score (p ∷ ps) =
      let rest = candidates_among gate score ps in
      if gate p then record { profile = p; score = score p } ∷ rest else rest

  -- The stable sort of `Array.prototype.sort` by `b.score - a.score`.
  unfoldable pub insert_scored : Candidate → List Candidate → List Candidate
  insert_scored c [] = c ∷ []
  insert_scored c (x ∷ xs) = if lt c.score x.score then x ∷ insert_scored c xs else c ∷ x ∷ xs

  unfoldable pub by_score : List Candidate → List Candidate
  unfolding insert_scored
  by_score [] = []
  by_score (c ∷ cs) = insert_scored c (by_score cs)

  -- `Math.max(1, Math.ceil(n / 2))`
  unfoldable pub top_count : ℕ → ℕ
  top_count n = if leb ((n + 1) / 2) 1 then 1 else (n + 1) / 2

  -- The candidates from the best down to the score of the last of the better half. `draw n` is
  -- `Math.floor(Math.random() * n)`.
  unfoldable pub choose : (ℕ → ℕ) → List Candidate → Option Candidate
  unfolding by_score top_count
  choose draw candidates =
      let sorted = by_score candidates in
      elim (get_elem? sorted (top_count (length candidates) - 1)) [
        | none ↦ none
        | some last ↦
            let top = filter_by (λ c. not (lt c.score last.score)) sorted in
            get_elem? top (draw (length top))
      ]

  -- The match, or none where there are no candidates.
  unfoldable pub match_for :
      (Text → Text)
      → (Text → Option Bool)
      → (ℕ → ℕ)
      → ℕ
      → Text
      → Wish
      → Index
      → Option StoredProfile
  unfolding passes score_of candidates_among choose
  match_for lower relay_online draw now identity wish s =
      elim (choose draw (
        candidates_among (passes lower relay_online s identity wish) (score_of now s)
          (Map.values s.profiles))) [ none ↦ none | some c ↦ some c.profile ]

  unfoldable pub handle_random_match :
      (Text → Text)
      → (Text → Option Bool)
      → (ℕ → ℕ)
      → Crypto
      → ℕ
      → Body
      → Index
      → Answer (Option StoredProfile)
  unfolding authorize wish_of count_request match_for
  handle_random_match lower relay_online draw crypto now request s =
      elim (authorize crypto now (codes "discovery.random-match") request s) [
        | err refusal ↦ (s, err refusal)
        | ok (t, body) ↦ elim (wish_of body.fields) [
          | none ↦ (t, err lists_required)
          | some wish ↦ elim (count_request body.identity now t) [
            | err refusal ↦ (t, err refusal)
            | ok counted ↦
                (counted, ok (match_for lower relay_online draw now body.identity wish counted))
          ]
        ]
      ]
