-- ===== src/Discovery/Calls/Blocks.antt =====
-- workers/discovery/src/index.ts: a block stays, over every call and every restart.
use nexnet.Common.{
  ℕ, ◌≡◌, ◌≢◌, refl, sym, ◌∙◌, ap, arith, true, false, ◌||◌, some, List, [], ◌∷◌, ◌++◌, Text, codes,
  same, starts_with, drop, any_by, text_discrete, Option-cases, inl, inr, subst,
}
use nexnet.Common.Prefix.{append-injective, not_prefixed, append-drop_prefix}
use nexnet.Common.Map
use nexnet.Common.Map.{Map, Lists, text_key, IsMap, Absent, get_of_Absent, get-set, get-delete}
use nexnet.Protocol.IdentityAuth.{Fields}
use nexnet.Protocol.Requests.{id_at}
use nexnet.Discovery.State.{
  Stored, profile_json, group, block_list, request_times, accepted_at, profile_key, blocks_key,
  match_requests_key, auth_issued_at_key, TextSet, Index, fresh_index, add_all, set_of, members,
}
use nexnet.Discovery.Requests.{valid_profile_fields, first_seen_of, profile_from, profile_fields}
use nexnet.Discovery.Handlers.{
  load_profile, load_entry, ensure_loaded, blocked_by, has_blocked, add_block,
}

has-set : (m : TextSet) (k j : Text) → Map.has (Map.set m k tt) j ≡ (same k j || Map.has m j)
unfolding Map.has
has-set m k j = ground (arith, get-set m k j tt)

-- A set that is made of a list has the members of the list.
has-add_all :
    (list : List Text) (s : TextSet) (b : Text)
    → Map.has (add_all list s) b ≡ (any_by (λ t. same t b) list || Map.has s b)
unfolding add_all
has-add_all [] s b = refl
has-add_all (t ∷ list) s b = ground (arith, has-add_all list (Map.set s t tt) b, has-set s t b)

any-members : (s : TextSet) (b : Text) → any_by (λ t. same t b) (members s) ≡ Map.has s b
unfolding Map.has Map.get
any-members [] b = refl
any-members ((k, u) ∷ s) b = ground (arith, any-members s b)

blocks_key-injective : (a c : Text) → blocks_key a ≡ blocks_key c → a ≡ c
blocks_key-injective a c = append-injective (codes "blocks:") a c

-- The keys of other kinds are no keys of block lists.
not_blocks : (key a : Text) → starts_with key (codes "blocks:") ≡ false → key ≢ blocks_key a
not_blocks key a = not_prefixed key (codes "blocks:") a

pub profile-apart : (id a : Text) → profile_key id ≢ blocks_key a
unfolding starts_with
profile-apart id a = not_blocks (profile_key id) a refl

pub match-apart : (id a : Text) → match_requests_key id ≢ blocks_key a
unfolding starts_with
match-apart id a = not_blocks (match_requests_key id) a refl

pub auth-apart : (id a : Text) → auth_issued_at_key id ≢ blocks_key a
unfolding starts_with
auth-apart id a = not_blocks (auth_issued_at_key id) a refl

-- What follows "blocks:" in a key of that kind determines the key.
blocks_suffix :
    (key a : Text) → starts_with key (codes "blocks:") ≡ true → drop 7 key ≡ a → key ≡ blocks_key a
blocks_suffix key a h e =
    sym (append-drop_prefix (codes "blocks:") key h) ∙ ap (λ s. codes "blocks:" ++ s) e

-- The blocks of `a` and their list in the storage are the same.
pub record SameBlocks (a : Text) (s t : Index) : Type 0 where
  pub blocks : Map.get t.blocks a ≡ Map.get s.blocks a
  pub stored : Map.get t.storage (blocks_key a) ≡ Map.get s.storage (blocks_key a)

load_profile-SameBlocks :
    (a : Text) (now : ℕ) (key : Text) (fields : Fields) (s : Index)
    → SameBlocks a s (load_profile now key fields s)
unfolding load_profile
load_profile-SameBlocks a now key fields s =
    elim (Option-cases (id_at (codes "identityId") fields)) [
      | inl n ↦ record { blocks = ground (arith, n); stored = ground (arith, n) }
      | inr (id, e) ↦ elim (Option-cases (valid_profile_fields fields)) [
        | inl n ↦ record { blocks = ground (arith, e, n); stored = ground (arith, e, n) }
        | inr (p, f) ↦
            let profile = profile_from id p (first_seen_of fields now) in
            record {
              blocks = ground (arith, e, f);
              stored = ground (
                arith,
                e,
                f,
                profile-apart id a,
                get-set s.storage key (blocks_key a) (profile_json (profile_fields profile)),
              );
            }
      ]
    ]

-- An entry under another key leaves the blocks of `a` as they are.
load_entry-SameBlocks :
    (a : Text) (now : ℕ) (key : Text) (v : Stored) (s : Index)
    → key ≢ blocks_key a
    → SameBlocks a s (load_entry now key v s)
unfolding load_entry
load_entry-SameBlocks a now key (profile_json fields) s n =
    ground (arith, load_profile-SameBlocks a now key fields s)
load_entry-SameBlocks a now key (group g) s n = ground arith
load_entry-SameBlocks a now key (block_list ids) s n = record {
  blocks = ground (arith, n, blocks_suffix key a, get-set s.blocks (drop 7 key) a (set_of ids));
  stored = ground arith;
}
load_entry-SameBlocks a now key (request_times times) s n = ground arith
load_entry-SameBlocks a now key (accepted_at at) s n = ground arith

-- The entry of `a` brings its blocks.
load_entry-blocks :
    (a : Text) (now : ℕ) (ids : List Text) (s : Index)
    → (Map.get (load_entry now (blocks_key a) (block_list ids) s).blocks a ≡ some (set_of ids))
      × ((load_entry now (blocks_key a) (block_list ids) s).storage ≡ s.storage)
unfolding load_entry starts_with
load_entry-blocks a now ids s = (ground (arith, get-set s.blocks a a (set_of ids)), refl)

load_others :
    (a : Text) (now : ℕ) (es : List (Text × Stored)) (s : Index)
    → Absent (blocks_key a) es
    → SameBlocks a s (ensure_loaded now es s)
unfolding ensure_loaded
load_others a now [] s h = record { blocks = refl; stored = refl }
load_others a now ((k, v) ∷ es) s h =
    let first = load_entry-SameBlocks a now k v s h.0 in
    let rest = load_others a now es (load_entry now k v s) h.1 in
    record { blocks = rest.blocks ∙ first.blocks; stored = rest.stored ∙ first.stored }

-- The blocks of `a` that the storage lists are there after loading, and are still stored.
load_blocks :
    (a : Text) (now : ℕ) (ids : List Text) (es : List (Text × Stored)) (s : Index)
    → IsMap es
    → Map.get es (blocks_key a) ≡ some (block_list ids)
    → Map.get s.storage (blocks_key a) ≡ some (block_list ids)
    → (Map.get (ensure_loaded now es s).blocks a ≡ some (set_of ids))
      × (Map.get (ensure_loaded now es s).storage (blocks_key a) ≡ some (block_list ids))
unfolding ensure_loaded Map.get
load_blocks a now ids [] s m e h = cc
load_blocks a now ids ((k, v) ∷ es) s m e h = elim (text_discrete k (blocks_key a)) [
  | yes p ↦
      let is_list : v ≡ block_list ids = ground (arith, e, p) in
      let first = load_entry-blocks a now ids s in
      let absent = subst (λ key. Absent key es) p m.0 in
      let rest = load_others a now es (load_entry now (blocks_key a) (block_list ids) s) absent in
      rw (p, is_list)
        (rest.blocks ∙ first.0, rest.stored ∙ ap (λ st. Map.get st (blocks_key a)) first.1 ∙ h)
  | no n ↦
      let first = load_entry-SameBlocks a now k v s n in
      load_blocks a now ids es (load_entry now k v s) m.1 (ground (arith, e, n)) (first.stored ∙ h)
]

-- `a` has blocked `b`, in memory and in the storage.
pub record HasBlocked (a b : Text) (s : Index) : Type 0 where
  pub in_memory : has_blocked s a b ≡ true
  pub ids : List Text
  pub stored : Map.get s.storage (blocks_key a) ≡ some (block_list ids)
  pub among : any_by (λ t. same t b) ids ≡ true

pub SameBlocks-HasBlocked :
    (a b : Text) (s t : Index) → SameBlocks a s t → HasBlocked a b s → HasBlocked a b t
unfolding has_blocked
SameBlocks-HasBlocked a b s t e v = record {
  in_memory = ground (arith, e.blocks, v.in_memory);
  ids = v.ids;
  stored = e.stored ∙ v.stored;
  among = v.among;
}

pub reload-HasBlocked :
    (a b : Text) (now : ℕ) (listing : List (Text × Stored)) (s : Index)
    → Lists listing s.storage
    → HasBlocked a b s
    → HasBlocked a b (ensure_loaded now listing (fresh_index s.storage))
unfolding has_blocked
reload-HasBlocked a b now listing s l v =
    let loaded =
      load_blocks a now v.ids listing (fresh_index s.storage) l.0 (l.1 (blocks_key a) ∙ v.stored)
        v.stored in
    record {
      in_memory = ground (arith, loaded.0, has-add_all v.ids [] b, v.among);
      ids = v.ids;
      stored = loaded.1;
      among = v.among;
    }

-- A block that is added holds, and takes away no other.
pub add_block-HasBlocked : (a b : Text) (s : Index) → HasBlocked a b (add_block a b s)
unfolding add_block has_blocked
add_block-HasBlocked a b s =
    let set = Map.set (blocked_by (Map.get s.blocks a)) b tt in
    let holds : Map.has set b ≡ true =
      ground (arith, has-set (blocked_by (Map.get s.blocks a)) b b) in
    record {
      in_memory = ground (arith, get-set s.blocks a a set, holds);
      ids = members set;
      stored =
          ground
            (arith, get-set s.storage (blocks_key a) (blocks_key a) (block_list (members set)));
      among = any-members set b ∙ holds;
    }

pub add_block-keeps :
    (a b c e : Text) (s : Index) → HasBlocked a b s → HasBlocked a b (add_block c e s)
unfolding add_block has_blocked
add_block-keeps a b c e s v =
    let set = Map.set (blocked_by (Map.get s.blocks c)) e tt in
    elim (text_discrete c a) [
      | yes p ↦
          let holds : Map.has set b ≡ true =
            ground (arith, p, v.in_memory, has-set (blocked_by (Map.get s.blocks c)) e b) in
          record {
            in_memory = ground (arith, p, get-set s.blocks c a set, holds);
            ids = members set;
            stored = ground (
              arith,
              p,
              get-set s.storage (blocks_key c) (blocks_key a) (block_list (members set)),
            );
            among = any-members set b ∙ holds;
          }
      | no n ↦ record {
        in_memory = ground (arith, n, get-set s.blocks c a set, v.in_memory);
        ids = v.ids;
        stored = ground (
          arith,
          n,
          blocks_key-injective c a,
          get-set s.storage (blocks_key c) (blocks_key a) (block_list (members set)),
          v.stored,
        );
        among = v.among;
      }
    ]
