-- ===== src/Discovery/State.antt =====
-- workers/discovery/src/index.ts: the data of `DiscoveryIndex` and its durable storage.
use nexnet.Common.{ℕ, Bool, Option, List, [], ◌∷◌, ◌++◌, Text, codes, map}
use nexnet.Common.Map
use nexnet.Common.Map.{Map, text_key}
use nexnet.Protocol.IdentityAuth.{Fields}

pub record StoredProfile : Type 0 where
  pub identity : Text
  pub username : Text
  pub bio : Option Text
  pub interests : List Text
  pub languages : List Text
  pub first_seen_at : ℕ

pub record StoredGroup : Type 0 where
  pub group_id : Text
  pub name : Text
  pub creator : Text
  pub discoverable : Bool
  pub created_at : ℕ

-- What the durable storage holds: a profile is a JSON object, which an earlier version may have written.
pub data Stored : Type 0 where
  profile_json : Fields → Stored
  group : StoredGroup → Stored
  block_list : List Text → Stored
  request_times : List ℕ → Stored
  accepted_at : ℕ → Stored

abbrev pub profile_key : Text → Text
profile_key identity = codes "profile:" ++ identity

abbrev pub blocks_key : Text → Text
blocks_key identity = codes "blocks:" ++ identity

abbrev pub match_requests_key : Text → Text
match_requests_key identity = codes "match-requests:" ++ identity

abbrev pub auth_issued_at_key : Text → Text
auth_issued_at_key identity = codes "auth-issued-at:" ++ identity

-- A `Set` of texts.
abbrev pub TextSet : Type 0
TextSet = Map Text (Unit {0})

pub record Index : Type 0 where
  pub profiles : Map Text StoredProfile
  pub groups : Map Text StoredGroup
  pub blocks : Map Text TextSet
  pub match_requests : Map Text (List ℕ)
  pub last_issued_at : Map Text ℕ
  pub storage : Map Text Stored

-- A new object of an isolate, before `ensureLoaded`.
abbrev pub fresh_index : Map Text Stored → Index
fresh_index storage = record {
  profiles = [];
  groups = [];
  blocks = [];
  match_requests = [];
  last_issued_at = [];
  storage = storage;
}

-- The answers that refuse a request, with their status codes.
pub data Refusal : Type 0 where
  -- 400
  invalid_json object_required identity_required issued_at_required invalid_profile : Refusal
  distinct_identities_required lists_required tag_required : Refusal
  -- 401
  proof_required invalid_proof : Refusal
  -- 404
  not_found : Refusal
  -- 409
  stale replayed : Refusal
  -- 429, with the time to wait
  rate_limited : ℕ → Refusal

unfoldable pub add_all : List Text → TextSet → TextSet
add_all [] s = s
add_all (t ∷ more) s = add_all more (Map.set s t tt)

-- `new Set(list)`
abbrev pub set_of : List Text → TextSet
set_of list = add_all list []

-- `[...set]`
abbrev pub members : TextSet → List Text
members = map (λ e. e.0)
