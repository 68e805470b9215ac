-- ===== src/Presence/Calls/Replay.antt =====
-- workers/presence/src/index.ts: a signed write is accepted once.
use nexnet.Common.{
  ℕ, ◌≤◌, ◌≡◌, ◌≢◌, arith, Bool, some, Text, ok, inl, inr, text_discrete, subst, codes,
}
use nexnet.Common.Prefix.{not_prefixed}
use nexnet.Common.Map
use nexnet.Common.Map.{Map, text_key, get-set, get-delete}
use nexnet.Presence.State.{lease, bundle, sequence, lease_key, prekey_key, Tracker, fresh_tracker}
use nexnet.Presence.Requests.{SignedBody}
use nexnet.Presence.Tracker.{claim_issued_at, drop_lease, drop_prekey}
use nexnet.Presence.Storage.{PassedOver, presence_seq-PassedOver, prekey_seq-PassedOver}
use nexnet.Presence.Loading.{ensure_loaded-storage}
use nexnet.Presence.Calls.{
  Platform, Write, publishes, publishes_prekey, removes, removes_prekey, run_write, body_of,
  sequence_of, Becomes, unchanged, called, restarted,
}
use nexnet.Presence.Calls.Kept.{Keeps}
use nexnet.Presence.Calls.Walks.{run_call-kept}
use nexnet.Presence.Calls.Accepted.{run_write-Outcome}

-- A time from `n` on is claimed under the key.
abbrev Claimed : Text → ℕ → Tracker → Type 0
Claimed key n t = (m : ℕ) × (Map.get t.storage key ≡ some (sequence m)) × (n ≤ m)

claim-Claimed :
    (at : Text) (m now : ℕ) (t u : Tracker) → claim_issued_at at m now t ≡ some u → Claimed at m u
unfolding claim_issued_at
claim-Claimed at m now t u e =
    (m, ground (arith, e, get-set t.storage at at (sequence m)), omega arith)

-- What is claimed is not claimed again.
Claimed-refused :
    (key : Text) (n m now : ℕ) (t u : Tracker)
    → Claimed key n t
    → m ≤ n
    → claim_issued_at key m now t ≢ some u
unfolding claim_issued_at
Claimed-refused key n m now t u (last, found, above) h e = ground (arith, e, found, above, h)

module _ (key : Text) (n : ℕ) (passed : PassedOver key) where
  claim-keeps :
      (at : Text) (m now : ℕ) (t u : Tracker)
      → PassedOver at
      → claim_issued_at at m now t ≡ some u
      → Claimed key n t
      → Claimed key n u
  unfolding claim_issued_at
  claim-keeps at m now t u h e (last, found, above) = elim (text_discrete at key) [
    | yes p ↦ (
      m,
      ground (arith, e, p, get-set t.storage at key (sequence m)),
      ground (arith, e, p, found, above),
    )
    | no q ↦ (last, ground (arith, e, q, found, get-set t.storage at key (sequence m)), above)
  ]

  Claimed-Keeps : Keeps (Claimed key n)
  unfolding drop_lease drop_prekey
  Claimed-Keeps = record {
    same_tables = λ t u s v. (v.0, ground (arith, s.storage, v.1), v.2);
    claims = claim-keeps;
    puts_lease = λ t v l. (
      v.0,
      ground (
        arith,
        v.1,
        not_prefixed key (codes "lease:") l.identity passed.0,
        get-set t.storage (lease_key l.identity) key (lease l),
      ),
      v.2,
    );
    drops_lease = λ t v id. (
      v.0,
      ground (
        arith,
        v.1,
        not_prefixed key (codes "lease:") id passed.0,
        get-delete t.storage (lease_key id) key,
      ),
      v.2,
    );
    puts_bundle = λ t v b. (
      v.0,
      ground (
        arith,
        v.1,
        not_prefixed key (codes "prekey:") b.identity passed.1,
        get-set t.storage (prekey_key b.identity) key (bundle b),
      ),
      v.2,
    );
    drops_prekey = λ t v id. (
      v.0,
      ground (
        arith,
        v.1,
        not_prefixed key (codes "prekey:") id passed.1,
        get-delete t.storage (prekey_key id) key,
      ),
      v.2,
    );
  }

  Becomes-Claimed :
      {platform : Platform} {t u : Tracker}
      → Becomes platform t u
      → Claimed key n t
      → Claimed key n u
  Becomes-Claimed unchanged v = v
  Becomes-Claimed {platform} (called {u} broken now c before) v =
      run_call-kept Claimed-Keeps platform broken now c u (Becomes-Claimed before v)
  Becomes-Claimed (restarted {u} listing l before) v =
      let w = Becomes-Claimed before v in
      (w.0, ground (arith, w.1, ensure_loaded-storage listing (fresh_tracker u.storage)), w.2)

sequence_of-PassedOver : (w : Write) (id : Text) → PassedOver (sequence_of w id)
sequence_of-PassedOver (publishes request) id = presence_seq-PassedOver id
sequence_of-PassedOver (publishes_prekey request) id = prekey_seq-PassedOver id
sequence_of-PassedOver (removes path request) id = presence_seq-PassedOver id
sequence_of-PassedOver (removes_prekey path request) id = prekey_seq-PassedOver id

-- Once a signed write was accepted, no write of the same identity and the same family (leases, or
-- prekeys) that was issued at that time or before it is accepted any more, whatever calls and
-- restarts lie between, and whether either publishes or removes.
pub writes_are_accepted_once :
    (platform : Platform) (broken broken' : ℕ → Bool) (now now' : ℕ) (w w' : Write)
    (b b' : SignedBody) (t u : Tracker)
    → (run_write platform broken now w t).1 ≡ ok tt
    → body_of w ≡ ok b
    → body_of w' ≡ ok b'
    → sequence_of w b.identity ≡ sequence_of w' b'.identity
    → b'.issued_at ≤ b.issued_at
    → Becomes platform (run_write platform broken now w t).0 u
    → (run_write platform broken' now' w' u).1 ≢ ok tt
writes_are_accepted_once platform broken broken' now now' w w' b b' t u first read read' family
      older becomes again =
    elim (run_write-Outcome platform broken now t w) [
      | inl (e, refused) ↦ ground (arith, first, refused)
      | inr (a, accepted) ↦ elim (run_write-Outcome platform broken' now' u w') [
        | inl (e, refused) ↦ ground (arith, again, refused)
        | inr (a', accepted') ↦
            let key = sequence_of w a.body.identity in
            let passed = sequence_of-PassedOver w a.body.identity in
            let n = a.body.issued_at in
            let mine : a.body ≡ b = ground (arith, a.proof.was_read, read) in
            let theirs : a'.body ≡ b' = ground (arith, a'.proof.was_read, read') in
            let after =
              a.kept (Claimed key n) (Claimed-Keeps key n passed)
                (claim-Claimed key n now t a.middle a.claimed) in
            Claimed-refused key n a'.body.issued_at now' u a'.middle
              (Becomes-Claimed key n passed becomes after) (ground (arith, mine, theirs, older))
              (subst (λ k. claim_issued_at k a'.body.issued_at now' u ≡ some a'.middle)
                (cc (mine, theirs, family)) a'.claimed)
      ]
    ]
