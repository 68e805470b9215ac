-- ===== src/Discovery/Handlers.antt =====
-- workers/discovery/src/index.ts: loading, the proof of a request, profiles, searches and blocks.
use nexnet.Common.{
  ℕ, Bool, true, false, not, ◌||◌, Option, none, some, List, [], ◌∷◌, leb, length, ◌==◌,
  if◌then◌else◌, Result, ok, err, Text, codes, same, starts_with, drop, any_by, all_by, filter_by,
}
use nexnet.Common.Map
use nexnet.Common.Map.{Map, text_key}
use nexnet.Crypto.{Crypto}
use nexnet.Protocol.IdentityAuth.{Fields, is_fresh_issued_at, verify_identity_auth_json}
use nexnet.Protocol.Requests.{
  Auth, missing, Body, invalid_json, not_an_object, object_of, proof_of, string_at, id_at,
  safe_integer_at,
}
use nexnet.Discovery.State.{
  StoredProfile, StoredGroup, Stored, profile_json, group, block_list, request_times, accepted_at,
  profile_key, blocks_key, auth_issued_at_key, TextSet, Index, Refusal, object_required,
  identity_required, issued_at_required, invalid_profile, distinct_identities_required,
  tag_required, proof_required, invalid_proof, not_found, stale, replayed, set_of, members,
}
use nexnet.Discovery.Requests.{
  ProfileFields, valid_profile_fields, profile_from, profile_fields, first_seen_of,
}

-- A stored profile is taken over, and written back, if its key and its fields are right.
unfoldable pub load_profile : ℕ → Text → Fields → Index → Index
unfolding id_at valid_profile_fields first_seen_of
load_profile now key fields s = elim (id_at (codes "identityId") fields) [
  | none ↦ s
  | some identity ↦ elim (valid_profile_fields fields) [
    | none ↦ s
    | some p ↦
        let profile = profile_from identity p (first_seen_of fields now) in
        if same key (profile_key identity)
        then record s {
          storage = Map.set s.storage key (profile_json (profile_fields profile));
          profiles = Map.set s.profiles identity profile;
        }
        else s
  ]
]

abbrev after_prefix : Text → Text → Text
after_prefix prefix key = drop (length prefix) key

-- One entry of the listing. A value of a kind that its key does not have is passed over.
unfoldable pub load_entry : ℕ → Text → Stored → Index → Index
load_entry now key value s =
    if starts_with key (codes "profile:")
    then elim value [ profile_json fields ↦ load_profile now key fields s | _ ↦ s ]
    else if starts_with key (codes "group:")
    then elim value [ group g ↦ record s { groups = Map.set s.groups g.group_id g } | _ ↦ s ]
    else if starts_with key (codes "blocks:")
    then elim value [
      | block_list ids ↦ record s {
        blocks = Map.set s.blocks (after_prefix (codes "blocks:") key) (set_of ids);
      }
      | _ ↦ s
    ]
    else if starts_with key (codes "match-requests:")
    then elim value [
      | request_times times ↦ record s {
        match_requests =
            Map.set s.match_requests (after_prefix (codes "match-requests:") key) times;
      }
      | _ ↦ s
    ]
    else if starts_with key (codes "auth-issued-at:")
    then elim value [
      | accepted_at at ↦ record s {
        last_issued_at = Map.set s.last_issued_at (after_prefix (codes "auth-issued-at:") key) at;
      }
      | _ ↦ s
    ]
    else s

-- On a new object: `loaded` is false.
unfoldable pub ensure_loaded : ℕ → List (Text × Stored) → Index → Index
unfolding load_entry
ensure_loaded now [] s = s
ensure_loaded now ((key, value) ∷ more) s = ensure_loaded now more (load_entry now key value s)

pub record AuthorizedBody : Type 0 where
  pub identity : Text
  pub issued_at : ℕ
  pub fields : Fields

-- `issuedAt <= (this.lastIssuedAt.get(identityId) ?? -Infinity)`
abbrev already_accepted : Option ℕ → ℕ → Bool
already_accepted none issued_at = false
already_accepted (some last) issued_at = leb issued_at last

abbrev is_missing : Auth → Bool
is_missing missing = true
is_missing _ = false

module _ (crypto : Crypto) (now : ℕ) where
  -- The checks of `authorize`, up to the comparison with the newest accepted request.
  unfoldable pub check_request : Text → Body → Result Refusal AuthorizedBody
  unfolding id_at safe_integer_at is_fresh_issued_at verify_identity_auth_json
  check_request operation invalid_json = err Refusal.invalid_json
  check_request operation not_an_object = err object_required
  check_request operation (object_of fields auth) = elim (id_at (codes "identityId") fields) [
    | none ↦ err identity_required
    | some identity ↦ elim (safe_integer_at (codes "issuedAt") fields) [
      | none ↦ err issued_at_required
      | some issued_at ↦
          if is_missing auth
          then err proof_required
          else elim (verify_identity_auth_json crypto now fields (proof_of auth) operation
              identity) [
                | none ↦ err invalid_proof
                | some verified ↦
                    if not (is_fresh_issued_at issued_at now)
                    then err stale
                    else ok (record { identity = identity; issued_at = issued_at; fields = fields })
              ]
    ]
  ]

  -- The newest accepted request of the identity is noted. A refusal changes nothing.
  unfoldable pub authorize : Text → Body → Index → Result Refusal (Index × AuthorizedBody)
  authorize operation request s = elim (check_request operation request) [
    | err refusal ↦ err refusal
    | ok body ↦
        if already_accepted (Map.get s.last_issued_at body.identity) body.issued_at
        then err replayed
        else ok (
          record s {
            last_issued_at = Map.set s.last_issued_at body.identity body.issued_at;
            storage =
                Map.set s.storage (auth_issued_at_key body.identity) (accepted_at body.issued_at);
          },
          body,
        )
  ]

-- What a handler answers and the object after it.
abbrev pub Answer : Type 0 → Type 0
Answer A = Index × Result Refusal A

abbrev upsert_keys : List Text
upsert_keys =
    codes "identityId"
    ∷ codes "issuedAt"
    ∷ codes "auth"
    ∷ codes "username"
    ∷ codes "bio"
    ∷ codes "interests"
    ∷ codes "languages"
    ∷ []

-- The fields of a body with no other keys than those of a profile.
unfoldable pub upsert_fields : Fields → Option ProfileFields
unfolding valid_profile_fields
upsert_fields fields =
    if all_by (λ f. any_by (same f.0) upsert_keys) fields then valid_profile_fields fields else none

abbrev pub seen_since : Option StoredProfile → ℕ → ℕ
seen_since none now = now
seen_since (some p) now = p.first_seen_at

unfoldable pub put_profile : StoredProfile → Index → Index
put_profile p s = record s {
  storage = Map.set s.storage (profile_key p.identity) (profile_json (profile_fields p));
  profiles = Map.set s.profiles p.identity p;
}

unfoldable pub handle_profile_upsert : Crypto → ℕ → Body → Index → Answer StoredProfile
unfolding authorize upsert_fields put_profile
handle_profile_upsert crypto now request s =
    elim (authorize crypto now (codes "discovery.profile.upsert") request s) [
      | err refusal ↦ (s, err refusal)
      | ok (t, body) ↦ elim (upsert_fields body.fields) [
        | none ↦ (t, err invalid_profile)
        | some p ↦
            let profile =
              profile_from body.identity p (seen_since (Map.get t.profiles body.identity) now) in
            (put_profile profile t, ok profile)
      ]
    ]

-- The profile with what the relay answers of the identity: online, offline or nothing.
unfoldable pub handle_profile_get :
    (Text → Option Bool) → Text → Index → Result Refusal (StoredProfile × Option Bool)
handle_profile_get relay_online identity s = elim (Map.get s.profiles identity) [
  | none ↦ err not_found
  | some profile ↦ ok (profile, relay_online identity)
]

unfoldable pub remove_profile : Text → Index → Index × Bool
remove_profile identity s = elim (Map.get s.profiles identity) [
  | none ↦ (s, false)
  | some profile ↦ (
    record s {
      profiles = Map.delete s.profiles identity;
      storage = Map.delete s.storage (profile_key identity);
    },
    true,
  )
]

unfoldable pub handle_profile_delete : Crypto → ℕ → Body → Index → Answer Bool
unfolding authorize remove_profile
handle_profile_delete crypto now request s =
    elim (authorize crypto now (codes "discovery.profile.delete") request s) [
      | err refusal ↦ (s, err refusal)
      | ok (t, body) ↦ let (after, removed) = remove_profile body.identity t in (after, ok removed)
    ]

-- The profiles with the tag, whose case does not count; a search for an empty tag is refused.
module _ (lower : Text → Text) where
  unfoldable search_by :
      (StoredProfile → List Text) → Text → Index → Result Refusal (List StoredProfile)
  search_by tags tag s =
      if length tag == 0
      then err tag_required
      else ok (
          filter_by (λ p. any_by (λ i. same (lower i) (lower tag)) (tags p))
            (Map.values s.profiles))

  unfoldable handle_search_interest : Text → Index → Result Refusal (List StoredProfile)
  unfolding search_by
  handle_search_interest = search_by (λ p. p.interests)

  unfoldable handle_search_language : Text → Index → Result Refusal (List StoredProfile)
  unfolding search_by
  handle_search_language = search_by (λ p. p.languages)

abbrev pub blocked_by : Option TextSet → TextSet
blocked_by none = []
blocked_by (some set) = set

-- `this.blocks.get(a)?.has(b)`
unfoldable pub has_blocked : Index → Text → Text → Bool
has_blocked s a b = Map.has (blocked_by (Map.get s.blocks a)) b

unfoldable pub add_block : Text → Text → Index → Index
add_block identity other s =
    let blocked = Map.set (blocked_by (Map.get s.blocks identity)) other tt in
    record s {
      blocks = Map.set s.blocks identity blocked;
      storage = Map.set s.storage (blocks_key identity) (block_list (members blocked));
    }

-- The other identity that a body names, if it is not empty and not the sender's own.
unfoldable pub blocked_identity : AuthorizedBody → Option Text
unfolding string_at
blocked_identity body = elim (string_at (codes "blockedIdentityId") body.fields) [
  | none ↦ none
  | some other ↦ if (length other == 0) || same body.identity other then none else some other
]

unfoldable pub handle_block : Crypto → ℕ → Body → Index → Answer (Unit {0})
unfolding authorize blocked_identity add_block
handle_block crypto now request s =
    elim (authorize crypto now (codes "discovery.block") request s) [
      | err refusal ↦ (s, err refusal)
      | ok (t, body) ↦ elim (blocked_identity body) [
        | none ↦ (t, err distinct_identities_required)
        | some other ↦ (add_block body.identity other t, ok tt)
      ]
    ]

unfoldable handle_groups_list : Index → List StoredGroup
handle_groups_list s = filter_by (λ g. g.discoverable) (Map.values s.groups)
