-- ===== src/Discovery/Tests.antt =====
-- An index of workers/discovery/src/index.ts with two identities, whose root keys sign their requests.
use nexnet.Common.Hex.{is_id_hex}
use nexnet.Common.{
  Bool-cases, ℕ, suc, ◌+◌, ◌-◌, ◌*◌, ◌/◌, ◌≤◌, ◌⊎◌, inl, inr, arith, ◌≡◌, refl, Bool, true, none,
  some, Option, [], ◌∷◌, Bytes, Text, codes, same, repeat, to_hex, text_discrete, trim, ok, ltb,
}
use nexnet.Common.Map
use nexnet.Common.Map.{Map, text_key}
use nexnet.Crypto.{Crypto, string, integer, strings}
use nexnet.Protocol.IdentityAuth.{
  Fields, verify_identity_auth_json, verify_identity_auth, signed_by, is_fresh_issued_at,
}
use nexnet.Protocol.Wire.{from_hex}
use nexnet.Protocol.Credentials.{identity_id_from_wallet}
use nexnet.Protocol.Requests.{Body, object_of, proof, string_at, id_at, safe_integer_at}
use nexnet.Discovery.State.{StoredProfile, Index, fresh_index, add_all}
use nexnet.Discovery.Requests.{string_list_at}
use nexnet.Discovery.Handlers.{
  AuthorizedBody, check_request, authorize, handle_block, blocked_identity, add_block, has_blocked,
}
use nexnet.Discovery.Matching.{
  Doubles, Wish, wish_of, recent_requests, count_request, passes, score_of, candidates_among,
  choose, match_for, handle_random_match,
}
use nexnet.Discovery.Matching.Ranking.{IsOrder}
use nexnet.Discovery.Matching.Fair.{FairOutcome, random_match_is_fair}
use nexnet.Discovery.Calls.{Platform, Becomes}
use nexnet.Discovery.Calls.NeverMatched.{blocked_are_never_matched}

-- An identity is its root key, and a signature is the key.
abbrev crypto : Crypto
crypto = record {
  verify = λ key message signature. same key signature;
  derive_id = λ domain key. key;
  sha256 = λ bytes. bytes;
  cde_encode = λ fields. [];
}

-- Numbers that stand in for doubles.
abbrev naturals : Doubles
naturals = record {
  F = ℕ;
  of_number = λ n. n;
  decimal = λ m e. m;
  add = λ a b. a + b;
  sub = λ a b. a - b;
  mul = λ a b. a * b;
  div = λ a b. a / b;
  lt = ltb;
}

naturals-IsOrder : IsOrder naturals
naturals-IsOrder = record {
  asymmetric = λ a b h. ground (arith, h);
  splits =
      λ a b c h. elim (Bool-cases (ltb a b)) [ inl e ↦ inl e | inr e ↦ inr (ground (arith, h, e)) ];
}

abbrev platform : Platform
platform = record { crypto = crypto; doubles = naturals; lower = λ t. t }

abbrev all_online : Text → Option Bool
all_online identity = some true

-- The first is drawn.
abbrev first : ℕ → ℕ
first n = 0

first_below : (n : ℕ) → first (suc n) ≤ n
first_below n = omega arith

abbrev alice : Bytes
alice = repeat 32 171

abbrev bob : Bytes
bob = repeat 32 18

abbrev alice_hex : Text
unfolding to_hex
alice_hex = to_hex alice

abbrev bob_hex : Text
unfolding to_hex
bob_hex = to_hex bob

abbrev signed : Bytes → Fields → Body
signed key fields =
    object_of fields (proof (record { root_public_key = key; certificate = none; signature = key }))

abbrev match_fields : Fields
match_fields =
    (codes "identityId", string alice_hex)
    ∷ (codes "issuedAt", integer 20)
    ∷ (codes "interests", strings (codes "go" ∷ []))
    ∷ (codes "languages", strings [])
    ∷ []

abbrev bob_profile : StoredProfile
bob_profile = record {
  identity = bob_hex;
  username = codes "bob";
  bio = none;
  interests = codes "go" ∷ [];
  languages = [];
  first_seen_at = 1;
}

abbrev with_bob : Index
with_bob = record (fresh_index []) { profiles = (bob_hex, bob_profile) ∷ [] }

test_match :
    (handle_random_match naturals
      (λ t. t)
      all_online
      first
      crypto
      30
      (signed alice match_fields)
      with_bob).1
    ≡ ok (some bob_profile)
unfolding handle_random_match authorize check_request id_at safe_integer_at is_id_hex to_hex
    text_discrete Map.get Map.set Map.has verify_identity_auth_json verify_identity_auth signed_by
    identity_id_from_wallet from_hex is_fresh_issued_at wish_of string_list_at trim recent_requests
    count_request match_for passes score_of candidates_among choose add_all has_blocked
test_match = refl

random_match_is_fair_example :
    (body : AuthorizedBody) × (wish : Wish) × (t : Index) × (check_request crypto 30
        (codes "discovery.random-match")
        (signed alice match_fields)
      ≡ ok body)
    × (wish_of body.fields ≡ some wish)
    × (t.profiles ≡ with_bob.profiles)
    × (t.blocks ≡ with_bob.blocks)
    × FairOutcome naturals naturals-IsOrder
        (λ t. t)
        all_online
        first
        first_below
        30
        body.identity
        wish
        t
        (some bob_profile)
random_match_is_fair_example =
    random_match_is_fair naturals naturals-IsOrder (λ t. t) all_online first first_below 30 crypto
      (signed alice match_fields) with_bob (some bob_profile) test_match

-- Bob blocks alice, who is then matched with carol.
abbrev carol_profile : StoredProfile
carol_profile = record bob_profile { identity = repeat 64 b'c'; username = codes "carol" }

abbrev with_both : Index
with_both = record (fresh_index []) {
  profiles = (bob_hex, bob_profile) ∷ (repeat 64 b'c', carol_profile) ∷ [];
}

abbrev block_fields : Fields
block_fields =
    (codes "identityId", string bob_hex)
    ∷ (codes "issuedAt", integer 10)
    ∷ (codes "blockedIdentityId", string alice_hex)
    ∷ []

abbrev bob_body : AuthorizedBody
bob_body = record { identity = bob_hex; issued_at = 10; fields = block_fields }

abbrev alice_body : AuthorizedBody
alice_body = record { identity = alice_hex; issued_at = 20; fields = match_fields }

blocked_are_never_matched_example : ¬ (
    ((alice_body.identity ≡ bob_body.identity) × (carol_profile.identity ≡ alice_hex))
    ⊎ ((alice_body.identity ≡ alice_hex) × (carol_profile.identity ≡ bob_body.identity)))
unfolding handle_random_match authorize check_request id_at safe_integer_at is_id_hex to_hex
    text_discrete Map.get Map.set Map.has verify_identity_auth_json verify_identity_auth signed_by
    identity_id_from_wallet from_hex is_fresh_issued_at wish_of string_list_at trim recent_requests
    count_request match_for passes score_of candidates_among choose add_all has_blocked handle_block
    blocked_identity string_at add_block
blocked_are_never_matched_example =
    blocked_are_never_matched platform 10 30 (signed bob block_fields) (signed alice match_fields)
      with_both (handle_block crypto 10 (signed bob block_fields) with_both).0 bob_body alice_body
      alice_hex all_online first carol_profile refl refl refl Becomes.unchanged refl refl
