-- ===== src/Presence/Storage.antt =====
-- workers/presence/src/index.ts: the maps in memory hold what the durable storage holds.
use nexnet.Common.{
  ℕ, ◌≡◌, refl, ◌≢◌, arith, false, Option, none, some, Text, codes, starts_with, text_discrete,
  subst, Option-cases, inl, inr,
}
use nexnet.Common.Prefix.{append-injective, not_prefixed}
use nexnet.Common.Map
use nexnet.Common.Map.{Map, text_key, get-set, get-delete}
use nexnet.Presence.State.{
  PresenceLeaseData, PrekeyBundleData, Stored, lease, bundle, sequence, lease_key, prekey_key,
  Tracker,
}
use nexnet.Presence.Tracker.{presence_seq, prekey_seq, drop_lease, drop_prekey}

abbrev pub stored_lease : Option PresenceLeaseData → Option Stored
stored_lease none = none
stored_lease (some l) = some (lease l)

abbrev pub stored_bundle : Option PrekeyBundleData → Option Stored
stored_bundle none = none
stored_bundle (some b) = some (bundle b)

-- A key that `ensureLoaded` passes over.
abbrev pub PassedOver : Text → Type 0
PassedOver key =
    (starts_with key (codes "lease:") ≡ false) × (starts_with key (codes "prekey:") ≡ false)

-- A value stands under a key of its kind and of the identity that it names.
abbrev pub Filed : Text → Stored → Type 0
Filed key (lease l) = key ≡ lease_key l.identity
Filed key (bundle b) = key ≡ prekey_key b.identity
Filed key (sequence n) = PassedOver key

pub prekey_key-not_lease : (j : Text) → starts_with (prekey_key j) (codes "lease:") ≡ false
unfolding starts_with
prekey_key-not_lease j = refl

pub keys_apart : (id j : Text) → prekey_key j ≢ lease_key id
keys_apart id j = not_prefixed (prekey_key j) (codes "lease:") id (prekey_key-not_lease j)

pub lease_key-injective : (id j : Text) → lease_key id ≡ lease_key j → id ≡ j
lease_key-injective id j = append-injective (codes "lease:") id j

pub prekey_key-injective : (id j : Text) → prekey_key id ≡ prekey_key j → id ≡ j
prekey_key-injective id j = append-injective (codes "prekey:") id j

pub presence_seq-PassedOver : (id : Text) → PassedOver (presence_seq id)
unfolding starts_with
presence_seq-PassedOver id = (refl, refl)

pub prekey_seq-PassedOver : (id : Text) → PassedOver (prekey_seq id)
unfolding starts_with
prekey_seq-PassedOver id = (refl, refl)

-- The two maps are what is stored, and every key is one of its value.
pub record Agrees (t : Tracker) : Type 0 where
  pub leases : (id : Text) → Map.get t.storage (lease_key id) ≡ stored_lease (Map.get t.leases id)
  pub prekeys :
      (id : Text) → Map.get t.storage (prekey_key id) ≡ stored_bundle (Map.get t.prekeys id)
  pub filed : (key : Text) (v : Stored) → Map.get t.storage key ≡ some v → Filed key v

set-Filed :
    (m : Map Text Stored) (at : Text) (v : Stored)
    → Filed at v
    → ((key : Text) (w : Stored) → Map.get m key ≡ some w → Filed key w)
    → (key : Text) (w : Stored) → Map.get (Map.set m at v) key ≡ some w
    → Filed key w
set-Filed m at v f all key w e = elim (text_discrete at key) [
  | yes p ↦
      let q : v ≡ w = ground (arith, e, p, get-set m at key v) in
      subst (λ x. Filed key x) q (subst (λ k. Filed k v) p f)
  | no n ↦ all key w (ground (arith, e, n, get-set m at key v))
]

delete-Filed :
    (m : Map Text Stored) (at : Text)
    → ((key : Text) (w : Stored) → Map.get m key ≡ some w → Filed key w)
    → (key : Text) (w : Stored) → Map.get (Map.delete m at) key ≡ some w
    → Filed key w
delete-Filed m at all key w e = all key w (ground (arith, e, get-delete m at key))

module _ (t : Tracker) (v : Agrees t) where
  -- A sequence number is written under a key that is passed over.
  pub sequence-Agrees :
      (key : Text) (n : ℕ)
      → PassedOver key
      → Agrees (record t { storage = Map.set t.storage key (sequence n) })
  sequence-Agrees key n h = record {
    leases = λ id. ground (
      arith,
      v.leases id,
      get-set t.storage key (lease_key id) (sequence n),
      not_prefixed key (codes "lease:") id h.0,
    );
    prekeys = λ id. ground (
      arith,
      v.prekeys id,
      get-set t.storage key (prekey_key id) (sequence n),
      not_prefixed key (codes "prekey:") id h.1,
    );
    filed = set-Filed t.storage key (sequence n) h v.filed;
  }

  pub lease-Agrees :
      (l : PresenceLeaseData)
      → Agrees (record t {
        leases = Map.set t.leases l.identity l;
        storage = Map.set t.storage (lease_key l.identity) (lease l);
      })
  lease-Agrees l = record {
    leases = λ id. ground (
      arith,
      v.leases id,
      get-set t.storage (lease_key l.identity) (lease_key id) (lease l),
      get-set t.leases l.identity id l,
      lease_key-injective l.identity id,
    );
    prekeys = λ id. ground (
      arith,
      v.prekeys id,
      get-set t.storage (lease_key l.identity) (prekey_key id) (lease l),
      keys_apart l.identity id,
    );
    filed = set-Filed t.storage (lease_key l.identity) (lease l) refl v.filed;
  }

  pub drop_lease-Agrees : (at : Text) → Agrees (drop_lease at t)
  unfolding drop_lease
  drop_lease-Agrees at = record {
    leases = λ id. ground (
      arith,
      v.leases id,
      get-delete t.storage (lease_key at) (lease_key id),
      get-delete t.leases at id,
      lease_key-injective at id,
    );
    prekeys = λ id. ground (
      arith,
      v.prekeys id,
      get-delete t.storage (lease_key at) (prekey_key id),
      keys_apart at id,
    );
    filed = delete-Filed t.storage (lease_key at) v.filed;
  }

  pub bundle-Agrees :
      (b : PrekeyBundleData)
      → Agrees (record t {
        prekeys = Map.set t.prekeys b.identity b;
        storage = Map.set t.storage (prekey_key b.identity) (bundle b);
      })
  bundle-Agrees b = record {
    leases = λ id. ground (
      arith,
      v.leases id,
      get-set t.storage (prekey_key b.identity) (lease_key id) (bundle b),
      keys_apart id b.identity,
    );
    prekeys = λ id. ground (
      arith,
      v.prekeys id,
      get-set t.storage (prekey_key b.identity) (prekey_key id) (bundle b),
      get-set t.prekeys b.identity id b,
      prekey_key-injective b.identity id,
    );
    filed = set-Filed t.storage (prekey_key b.identity) (bundle b) refl v.filed;
  }

  pub drop_prekey-Agrees : (at : Text) → Agrees (drop_prekey at t).0
  unfolding drop_prekey
  drop_prekey-Agrees at = elim (Option-cases (Map.get t.prekeys at)) [
    | inl none_there ↦ rw (drop_prekey, none_there) v
    | inr (b, found) ↦
        rw (drop_prekey, found)
          (record {
            leases = λ id. ground (
              arith,
              v.leases id,
              get-delete t.storage (prekey_key at) (lease_key id),
              keys_apart id at,
            );
            prekeys = λ id. ground (
              arith,
              v.prekeys id,
              get-delete t.storage (prekey_key at) (prekey_key id),
              get-delete t.prekeys at id,
              prekey_key-injective at id,
            );
            filed = delete-Filed t.storage (prekey_key at) v.filed;
          })
  ]
