-- ===== src/Presence/Calls/Owners.antt =====
-- workers/presence/src/index.ts: who can change the lease and the prekey bundle of an identity.
use nexnet.Common.{ℕ, ◌≡◌, ◌⊎◌, arith, Bool, true, some, Text, ok, err, inl, inr, text_discrete}
use nexnet.Common.Map
use nexnet.Common.Map.{Map, text_key}
use nexnet.Protocol.IdentityAuth.{VerifiedIdentity, is_fresh_issued_at}
use nexnet.Presence.State.{Tracker, Refusal}
use nexnet.Presence.Requests.{SignedBody, verified_for}
use nexnet.Presence.Tracker.{claim_issued_at}
use nexnet.Presence.Calls.{Platform, Write, run_write, body_of, operation_of}
use nexnet.Presence.Calls.Accepted.{run_write-Outcome}

claim-fresh :
    (key : Text) (n now : ℕ) (t u : Tracker)
    → claim_issued_at key n now t ≡ some u
    → is_fresh_issued_at n now ≡ true
unfolding claim_issued_at
claim-fresh key n now t u e = ground (arith, e)

-- A write that is refused changes nothing. One that is accepted carries a proof, for its operation
-- and the identity of its body, over all fields of the body, was issued within five minutes of the
-- clock, and leaves the lease and the prekey bundle of every other identity as they were.
pub only_the_identity_writes :
    (platform : Platform) (broken : ℕ → Bool) (now : ℕ) (w : Write) (t : Tracker) (j : Text)
    → ((e : Refusal) × (run_write platform broken now w t ≡ (t, err e)))
      ⊎ ((body : SignedBody) × (v : VerifiedIdentity) × ((run_write platform broken now w t).1
            ≡ ok tt)
          × (body_of w ≡ ok body)
          × (verified_for platform.crypto now (operation_of w) body ≡ some v)
          × (is_fresh_issued_at body.issued_at now ≡ true)
          × ((j ≡ body.identity)
              ⊎ ((Map.get (run_write platform broken now w t).0.leases j ≡ Map.get t.leases j)
                  × (Map.get (run_write platform broken now w t).0.prekeys j
                      ≡ Map.get t.prekeys j))))
only_the_identity_writes platform broken now w t j =
    elim (run_write-Outcome platform broken now t w) [
      | inl refused ↦ inl refused
      | inr (a, accepted) ↦ inr (
        a.body,
        a.proof.verified,
        accepted,
        a.proof.was_read,
        a.proof.proved,
        claim-fresh _ a.body.issued_at now t a.middle a.claimed,
        elim (text_discrete j a.body.identity) [ yes p ↦ inl p | no n ↦ inr (a.others j n) ],
      )
    ]
