-- ===== src/Presence/Calls/Walks.antt =====
-- workers/presence/src/index.ts: what every write of the handlers keeps, every call keeps.
use nexnet.Common.{
  ℕ, ◌+◌, refl, sym, arith, Bool, true, [], ◌∷◌, Text, codes, subst, leb, min, Option-cases,
  Result-cases, Bool-cases, inl, inr,
}
use nexnet.Common.Map
use nexnet.Common.Map.{Map, text_key, object_key, get-set, get-delete}
use nexnet.Protocol.Requests.{Body}
use nexnet.Presence.State.{PresenceLeaseData, lease, lease_key, Update, online, offline, Tracker}
use nexnet.Presence.Requests.{check_publish, check_prekey_publish, check_remove}
use nexnet.Presence.Tracker.{
  broadcast, keep_lease, drop_lease, claim_issued_at, presence_seq, prekey_seq,
  presence_lease_ttl_ms, handle_remove_checked, handle_publish, handle_remove,
  handle_prekey_publish, handle_prekey_remove, handle_query, handle_subscribe, web_socket_close,
  expire, expire_all, cleanup_expired,
}
use nexnet.Presence.Storage.{presence_seq-PassedOver, prekey_seq-PassedOver}
use nexnet.Presence.Calls.{
  Platform, Write, publishes, publishes_prekey, removes, removes_prekey, Call, writes, queries,
  subscribes, closes, cleans, run_write, run_call,
}
use nexnet.Presence.Calls.Kept.{broadcast_each-SameTables, answered-state, Keeps}

module _ {P : Tracker → Type 0} (keeps : Keeps P) where
  broadcast-kept :
      (broken : ℕ → Bool) (update : Update) (t : Tracker) → P t → P (broadcast broken update t)
  unfolding broadcast
  broadcast-kept broken update t v =
      keeps.same_tables t (broadcast broken update t)
        (broadcast_each-SameTables broken t.subscriptions update t) v

  pub keep_lease-kept :
      (broken : ℕ → Bool) (l : PresenceLeaseData) (t : Tracker) → P t → P (keep_lease broken l t)
  unfolding keep_lease
  keep_lease-kept broken l t v =
      let kept : Tracker = record t {
        leases = Map.set t.leases l.identity l;
        storage = Map.set t.storage (lease_key l.identity) (lease l);
        cleaning = true;
      } in
      broadcast-kept broken (online l.identity l.expires_at) kept (
        keeps.same_tables _ kept (record { leases = refl; prekeys = refl; storage = refl })
          (keeps.puts_lease t v l))

  pub remove_checked-kept :
      (broken : ℕ → Bool) (id : Text) (t : Tracker) → P t → P (handle_remove_checked broken id t).0
  unfolding handle_remove_checked
  remove_checked-kept broken id t v = elim (Option-cases (Map.get t.leases id)) [
    | inl e ↦ rw (handle_remove_checked, e) v
    | inr (l, e) ↦
        rw (handle_remove_checked, e)
          (broadcast-kept broken (offline id) (drop_lease id t) (keeps.drops_lease t v id))
  ]

  module _ (platform : Platform) (broken : ℕ → Bool) (now : ℕ) (t : Tracker) (v : P t) where
    open platform use {crypto, verify_hex}

    publish-kept : (request : Body) → P (handle_publish broken crypto now request t).0
    unfolding handle_publish
    publish-kept request = elim (Result-cases (check_publish crypto now request)) [
      | inr (e, refused) ↦ rw (handle_publish, refused) v
      | inl ((body, l), checked) ↦
          elim (Option-cases (claim_issued_at (presence_seq body.identity) body.issued_at now t)) [
            | inl stale ↦ rw (handle_publish, checked, stale) v
            | inr (u, claimed) ↦
                rw (handle_publish, checked, claimed)
                  (keep_lease-kept broken
                    (record l { expires_at = min l.expires_at (now + presence_lease_ttl_ms) }) u
                    (keeps.claims _ _ now t u (presence_seq-PassedOver body.identity) claimed v))
          ]
    ]

    publish_prekey-kept :
        (request : Body) → P (handle_prekey_publish verify_hex crypto now request t).0
    unfolding handle_prekey_publish
    publish_prekey-kept request =
        elim (Result-cases (check_prekey_publish crypto now verify_hex request)) [
          | inr (e, refused) ↦ rw (handle_prekey_publish, refused) v
          | inl (body, checked) ↦
              elim (Option-cases
                (claim_issued_at (prekey_seq body.identity) body.issued_at now t)) [
                  | inl stale ↦ rw (handle_prekey_publish, checked, stale) v
                  | inr (u, claimed) ↦
                      rw (handle_prekey_publish, checked, claimed)
                        (keeps.puts_bundle u
                          (keeps.claims _ _ now t u (prekey_seq-PassedOver body.identity) claimed v)
                          (record {
                            identity = body.identity;
                            fields = body.fields;
                            auth = body.auth;
                            updated_at = now;
                          }))
                ]
        ]

    remove-kept :
        (path : Text) (request : Body) → P (handle_remove broken crypto now path request t).0
    unfolding handle_remove
    remove-kept path request =
        elim (Result-cases (check_remove crypto now (codes "presence.remove") request path)) [
          | inr (e, refused) ↦ rw (handle_remove, refused) v
          | inl (body, checked) ↦
              elim (Option-cases
                (claim_issued_at (presence_seq body.identity) body.issued_at now t)) [
                  | inl stale ↦ rw (handle_remove, checked, stale) v
                  | inr (u, claimed) ↦
                      rw (handle_remove, checked, claimed)
                        (remove_checked-kept broken body.identity u (
                          keeps.claims _ _ now t u (presence_seq-PassedOver body.identity) claimed
                            v))
                ]
        ]

    remove_prekey-kept :
        (path : Text) (request : Body) → P (handle_prekey_remove crypto now path request t).0
    unfolding handle_prekey_remove
    remove_prekey-kept path request =
        elim (Result-cases (check_remove crypto now (codes "prekeys.remove") request path)) [
          | inr (e, refused) ↦ rw (handle_prekey_remove, refused) v
          | inl (body, checked) ↦
              elim (Option-cases
                (claim_issued_at (prekey_seq body.identity) body.issued_at now t)) [
                  | inl stale ↦ rw (handle_prekey_remove, checked, stale) v
                  | inr (u, claimed) ↦
                      rw (handle_prekey_remove, checked, claimed)
                        (keeps.drops_prekey u
                          (keeps.claims _ _ now t u (prekey_seq-PassedOver body.identity) claimed v)
                          body.identity)
                ]
        ]

  expire-kept :
      (broken : ℕ → Bool) (now : ℕ) (entry : Text × PresenceLeaseData) (t : Tracker)
      → P t
      → P (expire broken now entry t)
  unfolding expire
  expire-kept broken now entry t v = elim (Bool-cases (leb entry.1.expires_at now)) [
    | inr live ↦ rw (expire, live) v
    | inl over ↦
        rw (expire, over)
          (broadcast-kept broken (offline entry.0) (drop_lease entry.0 t)
            (keeps.drops_lease t v entry.0))
  ]

  expire_all-kept :
      (broken : ℕ → Bool) (now : ℕ) (entries : Map Text PresenceLeaseData) (t : Tracker)
      → P t
      → P (expire_all broken now entries t)
  unfolding expire_all
  expire_all-kept broken now [] t v = v
  expire_all-kept broken now (entry ∷ more) t v =
      expire_all-kept broken now more (expire broken now entry t) (expire-kept broken now entry t v)

  cleanup-kept :
      (broken : ℕ → Bool) (now : ℕ) (t : Tracker) → P t → P (cleanup_expired broken now t)
  unfolding cleanup_expired
  cleanup-kept broken now t v =
      keeps.same_tables (expire_all broken now t.leases t) (cleanup_expired broken now t)
        (record { leases = ground arith; prekeys = ground arith; storage = ground arith })
        (expire_all-kept broken now t.leases t v)

  query-kept : (now : ℕ) (id : Text) (t : Tracker) → P t → P (handle_query now id t).0
  unfolding handle_query
  query-kept now id t v = elim (Option-cases (Map.get t.leases id)) [
    | inl e ↦ rw (handle_query, e) v
    | inr (l, e) ↦ elim (Bool-cases (leb l.expires_at now)) [
      | inl over ↦ rw (handle_query, e, over) (keeps.drops_lease t v id)
      | inr live ↦ rw (handle_query, e, live) v
    ]
  ]

  subscribe-kept :
      (broken : ℕ → Bool) (now : ℕ) (upgrade : Bool) (ws : ℕ) (t : Tracker)
      → P t
      → P (handle_subscribe broken now upgrade ws t).0
  unfolding handle_subscribe
  subscribe-kept broken now upgrade ws t v =
      keeps.same_tables t (handle_subscribe broken now upgrade ws t).0
        (record { leases = ground arith; prekeys = ground arith; storage = ground arith }) v

  run_write-kept :
      (platform : Platform) (broken : ℕ → Bool) (now : ℕ) (w : Write) (t : Tracker)
      → P t
      → P (run_write platform broken now w t).0
  unfolding run_write
  run_write-kept platform broken now (publishes body) t v =
      subst P (sym (answered-state _)) (publish-kept platform broken now t v body)
  run_write-kept platform broken now (publishes_prekey body) t v =
      subst P (sym (answered-state _)) (publish_prekey-kept platform broken now t v body)
  run_write-kept platform broken now (removes path body) t v =
      subst P (sym (answered-state _)) (remove-kept platform broken now t v path body)
  run_write-kept platform broken now (removes_prekey path body) t v =
      subst P (sym (answered-state _)) (remove_prekey-kept platform broken now t v path body)

  pub run_call-kept :
      (platform : Platform) (broken : ℕ → Bool) (now : ℕ) (c : Call) (t : Tracker)
      → P t
      → P (run_call platform broken now c t)
  unfolding run_call web_socket_close
  run_call-kept platform broken now (writes w) t v = run_write-kept platform broken now w t v
  run_call-kept platform broken now (queries id) t v = query-kept now id t v
  run_call-kept platform broken now (subscribes upgrade ws) t v =
      subscribe-kept broken now upgrade ws t v
  run_call-kept platform broken now (closes ws) t v =
      keeps.same_tables t (web_socket_close ws t)
        (record { leases = refl; prekeys = refl; storage = refl }) v
  run_call-kept platform broken now cleans t v = cleanup-kept broken now t v
