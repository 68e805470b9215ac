-- ===== src/Presence/Calls/Accepted.antt =====
-- workers/presence/src/index.ts: what an accepted write has proved, and what it claims.
use nexnet.Common.{
  ite, text_discrete, ◌≢◌, ◌⊎◌, ◌+◌, min, ℕ, ◌≡◌, arith, Bool, none, some, Text, codes, ok, err,
  Result-cases, Option-cases, inl, inr,
}
use nexnet.Protocol.Requests.{Body}
use nexnet.Presence.State.{PrekeyBundleData, Refusal, stale, Tracker}
use nexnet.Presence.Calls.{
  Platform, Write, publishes, publishes_prekey, removes, removes_prekey, run_write, body_of,
  operation_of, sequence_of,
}
use nexnet.Presence.Calls.Kept.{Keeps, remove_checked-others, keep_lease-others}
use nexnet.Presence.Calls.Walks.{keep_lease-kept, remove_checked-kept}
use nexnet.Presence.Tracker.{
  presence_seq, prekey_seq, claim_issued_at, handle_publish, handle_prekey_publish, handle_remove,
  handle_prekey_remove, drop_prekey, presence_lease_ttl_ms,
}
use nexnet.Common.Map
use nexnet.Common.Map.{Map, text_key, get-set, get-delete}
use nexnet.Presence.Requests.{SignedBody, check_publish, check_prekey_publish, check_remove}
use nexnet.Presence.Calls.Proved.{
  Proved, check_publish-Proved, check_prekey_publish-Proved, check_remove-Proved,
}

-- An accepted write: its proof, the claim of its time, and what the rest of the handler keeps.
pub record Accepted (platform : Platform) (broken : ℕ → Bool) (now : ℕ) (w : Write) (t : Tracker)
    : Type 1 where
  pub body : SignedBody
  pub proof : Proved platform.crypto now (operation_of w) (body_of w) body
  pub middle : Tracker
  pub claimed : claim_issued_at (sequence_of w body.identity) body.issued_at now t ≡ some middle
  pub kept : (P : Tracker → Type 0) → Keeps P → P middle → P (run_write platform broken now w t).0
  pub others :
      (j : Text)
      → j ≢ body.identity
      → (Map.get (run_write platform broken now w t).0.leases j ≡ Map.get t.leases j)
        × (Map.get (run_write platform broken now w t).0.prekeys j ≡ Map.get t.prekeys j)

claim-tables :
    (key : Text) (n now : ℕ) (t u : Tracker)
    → claim_issued_at key n now t ≡ some u
    → (u.leases ≡ t.leases) × (u.prekeys ≡ t.prekeys)
unfolding claim_issued_at
claim-tables key n now t u e = ground (arith, e)

drop_prekey-others :
    (id : Text) (t : Tracker) (j : Text)
    → (Map.get (drop_prekey id t).0.prekeys j ≡ ite (text_discrete id j) none (Map.get t.prekeys j))
      × ((drop_prekey id t).0.leases ≡ t.leases)
unfolding drop_prekey
drop_prekey-others id t j = ground (arith, get-delete t.prekeys id j)

-- Refused, with nothing changed, or accepted.
abbrev pub Outcome : Platform → (ℕ → Bool) → ℕ → Write → Tracker → Type 1
Outcome platform broken now w t =
    ((e : Refusal) × (run_write platform broken now w t ≡ (t, err e)))
    ⊎ (Accepted platform broken now w t × ((run_write platform broken now w t).1 ≡ ok tt))

module _ (platform : Platform) (broken : ℕ → Bool) (now : ℕ) (t : Tracker) where
  open platform use {crypto, verify_hex}

  publish-Outcome : (request : Body) → Outcome platform broken now (publishes request) t
  unfolding run_write handle_publish
  publish-Outcome request = elim (Result-cases (check_publish crypto now request)) [
    | inr (e, refused) ↦ inl (e, ground (arith, refused))
    | inl ((body, l), checked) ↦
        let p = check_publish-Proved crypto now request body l checked in
        let until = record l { expires_at = min l.expires_at (now + presence_lease_ttl_ms) } in
        elim (Option-cases (claim_issued_at (presence_seq body.identity) body.issued_at now t)) [
          | inl no_claim ↦ inl (stale, ground (arith, checked, no_claim))
          | inr (u, claim) ↦ inr (
            record {
              body = body;
              proof = p.0;
              middle = u;
              claimed = claim;
              kept = λ P k v.
                  rw (run_write, handle_publish, checked, claim)
                    (keep_lease-kept k broken until u v);
              others = λ j n. ground (
                arith,
                checked,
                claim,
                n,
                p.1,
                keep_lease-others broken until u j,
                claim-tables (presence_seq body.identity) body.issued_at now t u claim,
              );
            },
            ground (arith, checked, claim),
          )
        ]
  ]

  publish_prekey-Outcome :
      (request : Body) → Outcome platform broken now (publishes_prekey request) t
  unfolding run_write handle_prekey_publish
  publish_prekey-Outcome request =
      elim (Result-cases (check_prekey_publish crypto now verify_hex request)) [
        | inr (e, refused) ↦ inl (e, ground (arith, refused))
        | inl (body, checked) ↦
            let b : PrekeyBundleData = record {
              identity = body.identity;
              fields = body.fields;
              auth = body.auth;
              updated_at = now;
            } in
            elim (Option-cases (claim_issued_at (prekey_seq body.identity) body.issued_at now t)) [
              | inl no_claim ↦ inl (stale, ground (arith, checked, no_claim))
              | inr (u, claim) ↦ inr (
                record {
                  body = body;
                  proof = check_prekey_publish-Proved crypto now verify_hex request body checked;
                  middle = u;
                  claimed = claim;
                  kept = λ P k v.
                      rw (run_write, handle_prekey_publish, checked, claim) (k.puts_bundle u v b);
                  others = λ j n. ground (
                    arith,
                    checked,
                    claim,
                    n,
                    get-set u.prekeys body.identity j b,
                    claim-tables (prekey_seq body.identity) body.issued_at now t u claim,
                  );
                },
                ground (arith, checked, claim),
              )
            ]
      ]

  remove-Outcome :
      (path : Text) (request : Body) → Outcome platform broken now (removes path request) t
  unfolding run_write handle_remove
  remove-Outcome path request =
      elim (Result-cases (check_remove crypto now (codes "presence.remove") request path)) [
        | inr (e, refused) ↦ inl (e, ground (arith, refused))
        | inl (body, checked) ↦
            elim (Option-cases
              (claim_issued_at (presence_seq body.identity) body.issued_at now t)) [
                | inl no_claim ↦ inl (stale, ground (arith, checked, no_claim))
                | inr (u, claim) ↦ inr (
                  record {
                    body = body;
                    proof = check_remove-Proved crypto now _ request path body checked;
                    middle = u;
                    claimed = claim;
                    kept = λ P k v.
                        rw (run_write, handle_remove, checked, claim)
                          (remove_checked-kept k broken body.identity u v);
                    others = λ j n. ground (
                      arith,
                      checked,
                      claim,
                      n,
                      remove_checked-others broken body.identity u j,
                      claim-tables (presence_seq body.identity) body.issued_at now t u claim,
                    );
                  },
                  ground (arith, checked, claim),
                )
              ]
      ]

  remove_prekey-Outcome :
      (path : Text) (request : Body) → Outcome platform broken now (removes_prekey path request) t
  unfolding run_write handle_prekey_remove
  remove_prekey-Outcome path request =
      elim (Result-cases (check_remove crypto now (codes "prekeys.remove") request path)) [
        | inr (e, refused) ↦ inl (e, ground (arith, refused))
        | inl (body, checked) ↦
            elim (Option-cases (claim_issued_at (prekey_seq body.identity) body.issued_at now t)) [
              | inl no_claim ↦ inl (stale, ground (arith, checked, no_claim))
              | inr (u, claim) ↦ inr (
                record {
                  body = body;
                  proof = check_remove-Proved crypto now _ request path body checked;
                  middle = u;
                  claimed = claim;
                  kept = λ P k v.
                      rw (run_write, handle_prekey_remove, checked, claim)
                        (k.drops_prekey u v body.identity);
                  others = λ j n. ground (
                    arith,
                    checked,
                    claim,
                    n,
                    drop_prekey-others body.identity u j,
                    claim-tables (prekey_seq body.identity) body.issued_at now t u claim,
                  );
                },
                ground (arith, checked, claim),
              )
            ]
      ]

  pub run_write-Outcome : (w : Write) → Outcome platform broken now w t
  run_write-Outcome (publishes request) = publish-Outcome request
  run_write-Outcome (publishes_prekey request) = publish_prekey-Outcome request
  run_write-Outcome (removes path request) = remove-Outcome path request
  run_write-Outcome (removes_prekey path request) = remove_prekey-Outcome path request
