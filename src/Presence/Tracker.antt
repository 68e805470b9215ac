-- ===== src/Presence/Tracker.antt =====
-- workers/presence/src/index.ts: the handlers of `PresenceTracker`.
use nexnet.Common.{
  ℕ, ◌+◌, ◌*◌, Bool, true, false, not, ◌||◌, ◌&&◌, Option, none, some, List, [], ◌∷◌, ◌++◌, leb,
  length, ◌==◌, if◌then◌else◌, Result, ok, err, Text, codes, starts_with, min,
}
use nexnet.Common.Map
use nexnet.Common.Map.{Map, text_key, object_key}
use nexnet.Crypto.{Crypto}
use nexnet.Protocol.IdentityAuth.{is_fresh_issued_at}
use nexnet.Protocol.Requests.{Body}
use nexnet.Presence.State.{
  PresenceLeaseData, PrekeyBundleData, Stored, lease, bundle, sequence, lease_key, prekey_key,
  Update, online, offline, snapshot, Tracker, Refusal, stale,
}
use nexnet.Presence.Requests.{check_publish, check_prekey_publish, check_remove}

abbrev pub presence_lease_ttl_ms : ℕ
presence_lease_ttl_ms = 90 * 1000

-- The entries that `storage.list()` gives are put into the two maps.
unfoldable pub load : List (Text × Stored) → Tracker → Tracker
load [] t = t
load ((key, value) ∷ more) t = load more (
    if starts_with key (codes "lease:")
    then elim value [ lease l ↦ record t { leases = Map.set t.leases l.identity l } | _ ↦ t ]
    else if starts_with key (codes "prekey:")
    then elim value [ bundle b ↦ record t { prekeys = Map.set t.prekeys b.identity b } | _ ↦ t ]
    else t)

abbrev start_timer_if : Bool → Tracker → Tracker
start_timer_if needed t = record t { cleaning = needed || t.cleaning }

-- On a new object: `loaded` is false.
unfoldable pub ensure_loaded : List (Text × Stored) → Tracker → Tracker
unfolding load
ensure_loaded listing t =
    let loaded = load listing t in start_timer_if (not (length loaded.leases == 0)) loaded

-- `claimIssuedAt`; none is its answer `false`, which changes nothing.
unfoldable pub claim_issued_at : Text → ℕ → ℕ → Tracker → Option Tracker
unfolding is_fresh_issued_at
claim_issued_at key issued_at now t =
    let put : Option Tracker =
      some (record t { storage = Map.set t.storage key (sequence issued_at) }) in
    if not (is_fresh_issued_at issued_at now) then none else elim (Map.get t.storage key) [
      | none ↦ put
      | some value ↦ elim value [
        | sequence last ↦ if leb issued_at last then none else put
        | _ ↦ put
      ]
    ]

abbrev pub presence_seq : Text → Text
presence_seq identity = codes "presence-seq:" ++ identity

abbrev pub prekey_seq : Text → Text
prekey_seq identity = codes "prekey-seq:" ++ identity

-- What a handler answers and the object after it.
abbrev pub Answer : Type 0 → Type 0
Answer A = Tracker × Result Refusal A

-- A lease is dropped from memory and from the storage.
unfoldable pub drop_lease : Text → Tracker → Tracker
drop_lease identity t = record t {
  leases = Map.delete t.leases identity;
  storage = Map.delete t.storage (lease_key identity);
}

-- What a new subscriber is sent: the identities that are online and until when.
unfoldable live_leases : ℕ → Map Text PresenceLeaseData → List (Text × ℕ)
live_leases now [] = []
live_leases now ((id, l) ∷ more) =
    let rest = live_leases now more in
    if leb l.expires_at now then rest else (id, l.expires_at) ∷ rest

-- The sockets on which `send` throws are known by `broken`.
module _ (broken : ℕ → Bool) where
  unfoldable pub broadcast_each : List (ℕ × Unit {0}) → Update → Tracker → Tracker
  broadcast_each [] update t = t
  broadcast_each (ws ∷ more) update t = broadcast_each more update (
      if broken ws.0
      then record t { subscriptions = Map.delete t.subscriptions ws.0 }
      else record t { sent = (ws.0, update) ∷ t.sent })

  unfoldable pub broadcast : Update → Tracker → Tracker
  unfolding broadcast_each
  broadcast update t = broadcast_each t.subscriptions update t

  -- The lease is kept in memory and in the storage, and the subscribers are told.
  unfoldable pub keep_lease : PresenceLeaseData → Tracker → Tracker
  unfolding broadcast
  keep_lease l t = broadcast (online l.identity l.expires_at) (record t {
    leases = Map.set t.leases l.identity l;
    storage = Map.set t.storage (lease_key l.identity) (lease l);
    cleaning = true;
  })

  unfoldable pub handle_remove_checked : Text → Tracker → Tracker × Bool
  unfolding broadcast drop_lease
  handle_remove_checked identity t = elim (Map.get t.leases identity) [
    | none ↦ (t, false)
    | some l ↦ (broadcast (offline identity) (drop_lease identity t), true)
  ]

  unfoldable pub handle_publish : Crypto → ℕ → Body → Tracker → Answer ℕ
  unfolding check_publish claim_issued_at keep_lease
  handle_publish crypto now request t = elim (check_publish crypto now request) [
    | err refusal ↦ (t, err refusal)
    | ok (body, l) ↦ elim (claim_issued_at (presence_seq body.identity) body.issued_at now t) [
      | none ↦ (t, err stale)
      | some claimed ↦
          let expires_at = min l.expires_at (now + presence_lease_ttl_ms) in
          (keep_lease (record l { expires_at = expires_at }) claimed, ok expires_at)
    ]
  ]

  unfoldable pub handle_remove : Crypto → ℕ → Text → Body → Tracker → Answer Bool
  unfolding check_remove claim_issued_at handle_remove_checked
  handle_remove crypto now path request t =
      elim (check_remove crypto now (codes "presence.remove") request path) [
        | err refusal ↦ (t, err refusal)
        | ok body ↦ elim (claim_issued_at (presence_seq body.identity) body.issued_at now t) [
          | none ↦ (t, err stale)
          | some claimed ↦
              let (after, removed) = handle_remove_checked body.identity claimed in
              (after, ok removed)
        ]
      ]

  -- One round of the loop of `cleanupExpiredAsync`.
  unfoldable pub expire : ℕ → Text × PresenceLeaseData → Tracker → Tracker
  unfolding broadcast drop_lease
  expire now entry t =
      if leb entry.1.expires_at now then broadcast (offline entry.0) (drop_lease entry.0 t) else t

  unfoldable pub expire_all : ℕ → Map Text PresenceLeaseData → Tracker → Tracker
  unfolding expire
  expire_all now [] t = t
  expire_all now (entry ∷ more) t = expire_all now more (expire now entry t)

  unfoldable pub cleanup_expired : ℕ → Tracker → Tracker
  unfolding expire_all
  cleanup_expired now t =
      let cleaned = expire_all now t.leases t in
      if (length cleaned.leases == 0) && (length cleaned.subscriptions == 0)
      then record cleaned { cleaning = false }
      else cleaned

  -- A request to upgrade is accepted, and its socket is sent what is online; another is refused.
  unfoldable pub handle_subscribe : ℕ → Bool → ℕ → Tracker → Tracker × Bool
  unfolding live_leases
  handle_subscribe now upgrade ws t =
      let live = live_leases now t.leases in
      let joined = record t { subscriptions = Map.set t.subscriptions ws tt; cleaning = true } in
      if not upgrade
      then (t, false)
      else if broken ws
      then (joined, true)
      else (record joined { sent = (ws, snapshot live) ∷ joined.sent }, true)

-- The expiry and the relay hint of a lease that is online, or none for an identity that is offline.
unfoldable pub handle_query : ℕ → Text → Tracker → Tracker × Option (ℕ × Option Text)
unfolding drop_lease
handle_query now identity t = elim (Map.get t.leases identity) [
  | none ↦ (t, none)
  | some l ↦
      if leb l.expires_at now
      then (drop_lease identity t, none)
      else (t, some (l.expires_at, l.relay_hint))
]

unfoldable pub web_socket_close : ℕ → Tracker → Tracker
web_socket_close ws t = record t { subscriptions = Map.delete t.subscriptions ws }

unfoldable pub handle_prekey_publish :
    (Text → Text → Text → Option Bool) → Crypto → ℕ → Body → Tracker → Answer ℕ
unfolding check_prekey_publish claim_issued_at
handle_prekey_publish verify_hex crypto now request t =
    elim (check_prekey_publish crypto now verify_hex request) [
      | err refusal ↦ (t, err refusal)
      | ok body ↦ elim (claim_issued_at (prekey_seq body.identity) body.issued_at now t) [
        | none ↦ (t, err stale)
        | some claimed ↦
            let stored : PrekeyBundleData = record {
              identity = body.identity;
              fields = body.fields;
              auth = body.auth;
              updated_at = now;
            } in
            (
              record claimed {
                prekeys = Map.set claimed.prekeys body.identity stored;
                storage = Map.set claimed.storage (prekey_key body.identity) (bundle stored);
              },
              ok now,
            )
      ]
    ]

unfoldable pub handle_prekey_get : Text → Tracker → Option PrekeyBundleData
handle_prekey_get identity t = Map.get t.prekeys identity

unfoldable pub drop_prekey : Text → Tracker → Tracker × Bool
drop_prekey identity t = elim (Map.get t.prekeys identity) [
  | none ↦ (t, false)
  | some b ↦ (
    record t {
      prekeys = Map.delete t.prekeys identity;
      storage = Map.delete t.storage (prekey_key identity);
    },
    true,
  )
]

unfoldable pub handle_prekey_remove : Crypto → ℕ → Text → Body → Tracker → Answer Bool
unfolding check_remove claim_issued_at drop_prekey
handle_prekey_remove crypto now path request t =
    elim (check_remove crypto now (codes "prekeys.remove") request path) [
      | err refusal ↦ (t, err refusal)
      | ok body ↦ elim (claim_issued_at (prekey_seq body.identity) body.issued_at now t) [
        | none ↦ (t, err stale)
        | some claimed ↦
            let (after, removed) = drop_prekey body.identity claimed in (after, ok removed)
      ]
    ]
