-- ===== src/Presence/Calls/Kept.antt =====
-- workers/presence/src/index.ts: properties that every write of the handlers keeps.
use nexnet.Common.{
  ite, text_discrete, ℕ, ◌≡◌, refl, arith, Bool, true, none, some, List, [], ◌∷◌, Text, Result, ok,
  err, Option-cases, inl, inr,
}
use nexnet.Common.Map
use nexnet.Common.Map.{Map, text_key, object_key, get-set, get-delete}
use nexnet.Presence.State.{
  PresenceLeaseData, PrekeyBundleData, lease, bundle, lease_key, prekey_key, Update, online,
  offline, Tracker, Refusal,
}
use nexnet.Presence.Tracker.{
  broadcast, broadcast_each, keep_lease, drop_lease, drop_prekey, claim_issued_at,
  handle_remove_checked,
}
use nexnet.Presence.Storage.{PassedOver}
use nexnet.Presence.Calls.{answered}

-- The same maps and the same storage.
pub record SameTables (t u : Tracker) : Type 0 where
  pub leases : u.leases ≡ t.leases
  pub prekeys : u.prekeys ≡ t.prekeys
  pub storage : u.storage ≡ t.storage

pub broadcast_each-SameTables :
    (broken : ℕ → Bool) (to : List (ℕ × Unit {0})) (update : Update) (t : Tracker)
    → SameTables t (broadcast_each broken to update t)
unfolding broadcast_each
broadcast_each-SameTables broken [] update t = record {
  leases = refl;
  prekeys = refl;
  storage = refl;
}
broadcast_each-SameTables broken (ws ∷ to) update t = ground (
  arith,
  broadcast_each-SameTables broken to update
      (record t { subscriptions = Map.delete t.subscriptions ws.0 }),
  broadcast_each-SameTables broken to update (record t { sent = (ws.0, update) ∷ t.sent }),
)

pub answered-state : {A : Type 0} (r : Tracker × Result Refusal A) → (answered r).0 ≡ r.0
answered-state (t, ok a) = refl
answered-state (t, err e) = refl

-- The lease of another identity and every prekey bundle stay.
pub keep_lease-others :
    (broken : ℕ → Bool) (l : PresenceLeaseData) (t : Tracker) (j : Text)
    → (Map.get (keep_lease broken l t).leases j
        ≡ ite (text_discrete l.identity j) (some l) (Map.get t.leases j))
      × ((keep_lease broken l t).prekeys ≡ t.prekeys)
unfolding keep_lease broadcast
keep_lease-others broken l t j =
    let kept : Tracker = record t {
      leases = Map.set t.leases l.identity l;
      storage = Map.set t.storage (lease_key l.identity) (lease l);
      cleaning = true;
    } in
    let after =
      broadcast_each-SameTables broken t.subscriptions (online l.identity l.expires_at) kept in
    ground (arith, after.leases, after.prekeys, get-set t.leases l.identity j l)

pub remove_checked-others :
    (broken : ℕ → Bool) (id : Text) (t : Tracker) (j : Text)
    → (Map.get (handle_remove_checked broken id t).0.leases j
        ≡ ite (text_discrete id j) none (Map.get t.leases j))
      × ((handle_remove_checked broken id t).0.prekeys ≡ t.prekeys)
unfolding handle_remove_checked broadcast drop_lease
remove_checked-others broken id t j = elim (Option-cases (Map.get t.leases id)) [
  | inl e ↦ ground (arith, e)
  | inr (l, e) ↦
      let after = broadcast_each-SameTables broken t.subscriptions (offline id) (drop_lease id t) in
      ground (arith, e, after.leases, after.prekeys, get-delete t.leases id j)
]

-- A property that the writes to maps and storage keep, each as the handlers do them.
pub record Keeps (P : Tracker → Type 0) : Type 1 where
  pub same_tables : (t u : Tracker) → SameTables t u → P t → P u
  pub claims :
      (key : Text) (n now : ℕ) (t u : Tracker)
      → PassedOver key
      → claim_issued_at key n now t ≡ some u
      → P t
      → P u
  pub puts_lease :
      (t : Tracker)
      → P t
      → (l : PresenceLeaseData)
      → P (record t {
        leases = Map.set t.leases l.identity l;
        storage = Map.set t.storage (lease_key l.identity) (lease l);
      })
  pub drops_lease : (t : Tracker) → P t → (id : Text) → P (drop_lease id t)
  pub puts_bundle :
      (t : Tracker)
      → P t
      → (b : PrekeyBundleData)
      → P (record t {
        prekeys = Map.set t.prekeys b.identity b;
        storage = Map.set t.storage (prekey_key b.identity) (bundle b);
      })
  pub drops_prekey : (t : Tracker) → P t → (id : Text) → P (drop_prekey id t).0
