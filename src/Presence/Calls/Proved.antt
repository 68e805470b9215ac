-- ===== src/Presence/Calls/Proved.antt =====
-- workers/presence/src/index.ts: what a body that passed its checks has proved.
use nexnet.Common.{
  ℕ, ◌≡◌, arith, Bool, Option, some, Text, codes, Result, ok, Result-cases, Option-cases, inl, inr,
}
use nexnet.Crypto.{Crypto}
use nexnet.Protocol.IdentityAuth.{VerifiedIdentity}
use nexnet.Protocol.Requests.{Body}
use nexnet.Presence.State.{PresenceLeaseData, Refusal}
use nexnet.Common.Map.{text_key}
use nexnet.Presence.Requests.{
  SignedBody, read_body, lease_of, prekey_of, verified_for, check_publish, check_prekey_publish,
  check_remove, lease_publish_keys, prekey_publish_keys, remove_keys,
}

-- The body that was read, and its proof for the operation.
pub record Proved (crypto : Crypto) (now : ℕ) (operation : Text) (read : Result Refusal SignedBody)
    (body : SignedBody) : Type 0 where
  pub was_read : read ≡ ok body
  pub verified : VerifiedIdentity
  pub proved : verified_for crypto now operation body ≡ some verified

lease_of-identity :
    (body : SignedBody) (l : PresenceLeaseData) → lease_of body ≡ ok l → l.identity ≡ body.identity
unfolding lease_of
lease_of-identity body l e = ground (arith, e)

module _ (crypto : Crypto) (now : ℕ) where
  pub check_publish-Proved :
      (request : Body) (body : SignedBody) (l : PresenceLeaseData)
      → check_publish crypto now request ≡ ok (body, l)
      → Proved crypto now (codes "presence.publish") (read_body request lease_publish_keys) body
        × (l.identity ≡ body.identity)
  unfolding check_publish
  check_publish-Proved request body l e =
      elim (Result-cases (read_body request lease_publish_keys)) [
        | inr (r, refused) ↦ absurd (ground (arith, e, refused))
        | inl (b, read) ↦ elim (Result-cases (lease_of b)) [
          | inr (r, refused) ↦ absurd (ground (arith, e, read, refused))
          | inl (m, leased) ↦
              elim (Option-cases (verified_for crypto now (codes "presence.publish") b)) [
                | inl n ↦ absurd (ground (arith, e, read, leased, n))
                | inr (v, proved) ↦ (
                  record {
                    was_read = ground (arith, e, read, leased, proved);
                    verified = v;
                    proved = ground (arith, e, read, leased, proved);
                  },
                  ground (arith, e, read, leased, proved, lease_of-identity b m leased),
                )
              ]
        ]
      ]

  pub check_prekey_publish-Proved :
      (verify_hex : Text → Text → Text → Option Bool) (request : Body) (body : SignedBody)
      → check_prekey_publish crypto now verify_hex request ≡ ok body
      → Proved crypto now (codes "prekeys.publish") (read_body request prekey_publish_keys) body
  unfolding check_prekey_publish
  check_prekey_publish-Proved verify_hex request body e =
      elim (Result-cases (read_body request prekey_publish_keys)) [
        | inr (r, refused) ↦ absurd (ground (arith, e, refused))
        | inl (b, read) ↦ elim (Result-cases (prekey_of b)) [
          | inr (r, refused) ↦ absurd (ground (arith, e, read, refused))
          | inl (m, keyed) ↦
              elim (Option-cases (verified_for crypto now (codes "prekeys.publish") b)) [
                | inl n ↦ absurd (ground (arith, e, read, keyed, n))
                | inr (v, proved) ↦ record {
                  was_read = ground (arith, e, read, keyed, proved);
                  verified = v;
                  proved = ground (arith, e, read, keyed, proved);
                }
              ]
        ]
      ]

  pub check_remove-Proved :
      (operation : Text) (request : Body) (path : Text) (body : SignedBody)
      → check_remove crypto now operation request path ≡ ok body
      → Proved crypto now operation (read_body request remove_keys) body
  unfolding check_remove
  check_remove-Proved operation request path body e =
      elim (Result-cases (read_body request remove_keys)) [
        | inr (r, refused) ↦ absurd (ground (arith, e, refused))
        | inl (b, read) ↦ elim (Option-cases (verified_for crypto now operation b)) [
          | inl n ↦ absurd (ground (arith, e, read, n))
          | inr (v, proved) ↦ record {
            was_read = ground (arith, e, read, proved);
            verified = v;
            proved = ground (arith, e, read, proved);
          }
        ]
      ]
