-- ===== src/Discovery/Calls/NeverMatched.antt =====
-- workers/discovery/src/index.ts: identities of which one has blocked the other are never matched.
use nexnet.Common.{
  ℕ, ◌≡◌, ◌⊎◌, refl, ◌∙◌, ap, arith, Bool, Option, some, [], ◌∷◌, ◌++◌, Text, codes, ok,
  Result-cases, Option-cases, inl, inr, subst,
}
use nexnet.Common.Map.{text_key, get-set, get-delete}
use nexnet.Crypto.{Crypto}
use nexnet.Protocol.Requests.{Body}
use nexnet.Discovery.State.{
  StoredProfile, profile_json, request_times, accepted_at, profile_key, blocks_key,
  match_requests_key, auth_issued_at_key, Index,
}
use nexnet.Discovery.Requests.{profile_fields}
use nexnet.Discovery.Handlers.{
  AuthorizedBody, check_request, authorize, put_profile, remove_profile, has_blocked, add_block,
  upsert_fields, blocked_identity, handle_profile_upsert, handle_profile_delete, handle_block,
}
use nexnet.Discovery.Matching.{wish_of, recent_requests, count_request, handle_random_match}
use nexnet.Discovery.Matching.Gates.{
  match_for-MayMatch, authorize-checked, handle_random_match-Answered,
}
use nexnet.Discovery.Calls.{
  Platform, Call, upserts, deletes, blocks, matches, run_call, Becomes, unchanged, called,
  restarted,
}
use nexnet.Discovery.Calls.Blocks.{
  SameBlocks-HasBlocked, HasBlocked, reload-HasBlocked, add_block-HasBlocked, add_block-keeps,
  profile-apart, match-apart, auth-apart,
}

module _ (a b : Text) where
  authorize-keeps :
      (crypto : Crypto) (now : ℕ) (operation : Text) (request : Body) (s t : Index)
      (body : AuthorizedBody)
      → authorize crypto now operation request s ≡ ok (t, body)
      → HasBlocked a b s
      → HasBlocked a b t
  unfolding authorize
  authorize-keeps crypto now operation request s t body e =
      elim (Result-cases (check_request crypto now operation request)) [
        | inr (r, refused) ↦ absurd (ground (arith, e, refused))
        | inl (c, checked) ↦ SameBlocks-HasBlocked a b s t (record {
          blocks = ground (arith, e, checked);
          stored = ground (
            arith,
            e,
            checked,
            auth-apart c.identity a,
            get-set s.storage (auth_issued_at_key c.identity) (blocks_key a)
                (accepted_at c.issued_at),
          );
        })
      ]

  put_profile-keeps :
      (p : StoredProfile) (s : Index) → HasBlocked a b s → HasBlocked a b (put_profile p s)
  unfolding put_profile
  put_profile-keeps p s = SameBlocks-HasBlocked a b s (put_profile p s) (record {
    blocks = refl;
    stored = ground (
      arith,
      profile-apart p.identity a,
      get-set s.storage (profile_key p.identity) (blocks_key a) (profile_json (profile_fields p)),
    );
  })

  remove_profile-keeps :
      (id : Text) (s : Index) → HasBlocked a b s → HasBlocked a b (remove_profile id s).0
  unfolding remove_profile
  remove_profile-keeps id s = SameBlocks-HasBlocked a b s (remove_profile id s).0 (record {
    blocks = ground arith;
    stored =
        ground (arith, profile-apart id a, get-delete s.storage (profile_key id) (blocks_key a));
  })

  count-keeps :
      (id : Text) (now : ℕ) (s t : Index)
      → count_request id now s ≡ ok t
      → HasBlocked a b s
      → HasBlocked a b t
  unfolding count_request
  count-keeps id now s t e = SameBlocks-HasBlocked a b s t (record {
    blocks = ground (arith, e);
    stored = ground (
      arith,
      e,
      match-apart id a,
      get-set s.storage (match_requests_key id) (blocks_key a)
          (request_times (recent_requests id now s ++ (now ∷ []))),
    );
  })

  module _ (platform : Platform) (now : ℕ) (request : Body) (s : Index) (v : HasBlocked a b s) where
    open platform use {crypto, doubles, lower}

    upsert-keeps : HasBlocked a b (handle_profile_upsert crypto now request s).0
    unfolding handle_profile_upsert
    upsert-keeps =
        elim (Result-cases (authorize crypto now (codes "discovery.profile.upsert") request s)) [
          | inr (r, refused) ↦ rw (handle_profile_upsert, refused) v
          | inl ((t, body), authorized) ↦
              let w = authorize-keeps crypto now _ request s t body authorized v in
              elim (Option-cases (upsert_fields body.fields)) [
                | inl n ↦ rw (handle_profile_upsert, authorized, n) w
                | inr (p, e) ↦ rw (handle_profile_upsert, authorized, e) (put_profile-keeps _ t w)
              ]
        ]

    delete-keeps : HasBlocked a b (handle_profile_delete crypto now request s).0
    unfolding handle_profile_delete
    delete-keeps =
        elim (Result-cases (authorize crypto now (codes "discovery.profile.delete") request s)) [
          | inr (r, refused) ↦ rw (handle_profile_delete, refused) v
          | inl ((t, body), authorized) ↦
              rw (handle_profile_delete, authorized)
                (remove_profile-keeps body.identity t
                  (authorize-keeps crypto now _ request s t body authorized v))
        ]

    block-keeps : HasBlocked a b (handle_block crypto now request s).0
    unfolding handle_block
    block-keeps = elim (Result-cases (authorize crypto now (codes "discovery.block") request s)) [
      | inr (r, refused) ↦ rw (handle_block, refused) v
      | inl ((t, body), authorized) ↦
          let w = authorize-keeps crypto now _ request s t body authorized v in
          elim (Option-cases (blocked_identity body)) [
            | inl n ↦ rw (handle_block, authorized, n) w
            | inr (other, e) ↦
                rw (handle_block, authorized, e) (add_block-keeps a b body.identity other t w)
          ]
    ]

    match-keeps :
        (relay_online : Text → Option Bool) (draw : ℕ → ℕ)
        → HasBlocked a b
            (handle_random_match doubles lower relay_online draw crypto now request s).0
    unfolding handle_random_match
    match-keeps relay_online draw =
        elim (Result-cases (authorize crypto now (codes "discovery.random-match") request s)) [
          | inr (r, refused) ↦ rw (handle_random_match, refused) v
          | inl ((t, body), authorized) ↦
              let w = authorize-keeps crypto now _ request s t body authorized v in
              elim (Option-cases (wish_of body.fields)) [
                | inl n ↦ rw (handle_random_match, authorized, n) w
                | inr (wish, e) ↦ elim (Result-cases (count_request body.identity now t)) [
                  | inr (r, refused) ↦ rw (handle_random_match, authorized, e, refused) w
                  | inl (counted, within) ↦
                      rw (handle_random_match, authorized, e, within)
                        (count-keeps body.identity now t counted within w)
                ]
              ]
        ]

  call-keeps :
      (platform : Platform) (now : ℕ) (c : Call) (s : Index)
      → HasBlocked a b s
      → HasBlocked a b (run_call platform now c s)
  unfolding run_call
  call-keeps platform now (upserts request) s v = upsert-keeps platform now request s v
  call-keeps platform now (deletes request) s v = delete-keeps platform now request s v
  call-keeps platform now (blocks request) s v = block-keeps platform now request s v
  call-keeps platform now (matches relay_online draw request) s v =
      match-keeps platform now request s v relay_online draw

  Becomes-HasBlocked :
      {platform : Platform} {s t : Index}
      → Becomes platform s t
      → HasBlocked a b s
      → HasBlocked a b t
  Becomes-HasBlocked unchanged v = v
  Becomes-HasBlocked {platform} (called {t} now c before) v =
      call-keeps platform now c t (Becomes-HasBlocked before v)
  Becomes-HasBlocked (restarted {t} now listing l before) v =
      reload-HasBlocked a b now listing t l (Becomes-HasBlocked before v)

accepted_block :
    (crypto : Crypto) (now : ℕ) (request : Body) (s : Index) (body : AuthorizedBody) (other : Text)
    → check_request crypto now (codes "discovery.block") request ≡ ok body
    → blocked_identity body ≡ some other
    → (handle_block crypto now request s).1 ≡ ok tt
    → HasBlocked body.identity other (handle_block crypto now request s).0
unfolding handle_block
accepted_block crypto now request s body other checked named e =
    elim (Result-cases (authorize crypto now (codes "discovery.block") request s)) [
      | inr (r, refused) ↦ absurd (ground (arith, e, refused))
      | inl ((t, b), authorized) ↦
          let read = authorize-checked crypto now _ request s t b authorized in
          let same_body : b ≡ body = ground (arith, read, checked) in
          let named' : blocked_identity b ≡ some other = ap blocked_identity same_body ∙ named in
          rw (handle_block, authorized, named')
            (subst (λ c. HasBlocked c.identity other (add_block b.identity other t)) same_body
              (add_block-HasBlocked b.identity other t))
    ]

-- Once a block was accepted, no random match gives the blocked identity to the one that blocked it, or
-- the other way round, whatever calls and restarts lie between, at any time, whatever the relay
-- answers and whatever is drawn.
pub blocked_are_never_matched :
    (platform : Platform) (now now' : ℕ) (request request' : Body) (s u : Index)
    (body body' : AuthorizedBody) (other : Text) (relay_online : Text → Option Bool) (draw : ℕ → ℕ)
    (p : StoredProfile)
    → check_request platform.crypto now (codes "discovery.block") request ≡ ok body
    → blocked_identity body ≡ some other
    → (handle_block platform.crypto now request s).1 ≡ ok tt
    → Becomes platform (handle_block platform.crypto now request s).0 u
    → check_request platform.crypto now' (codes "discovery.random-match") request' ≡ ok body'
    → (handle_random_match platform.doubles platform.lower relay_online draw platform.crypto now'
        request' u).1
      ≡ ok (some p)
    → ¬ (
        ((body'.identity ≡ body.identity) × (p.identity ≡ other))
        ⊎ ((body'.identity ≡ other) × (p.identity ≡ body.identity)))
unfolding has_blocked
blocked_are_never_matched platform now now' request request' s u body body' other relay_online draw
      p checked named accepted becomes checked' matched =
    let v =
      Becomes-HasBlocked body.identity other becomes
        (accepted_block platform.crypto now request s body other checked named accepted) in
    let a =
      handle_random_match-Answered platform.doubles platform.lower relay_online draw now'
        platform.crypto request' u (some p) matched in
    let m =
      match_for-MayMatch platform.doubles platform.lower relay_online draw now' a.body.identity
        a.wish a.counted p a.chosen in
    let same_body : a.body ≡ body' = ground (arith, a.checked, checked') in
    λ both. elim both [
      | inl (me, them) ↦ ground (arith, v.in_memory, m.not_blocked, a.blocks, same_body, me, them)
      | inr (me, them) ↦ ground (arith, v.in_memory, m.not_blocking, a.blocks, same_body, me, them)
    ]
