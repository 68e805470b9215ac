-- ===== src/Presence/Loading.antt =====
-- workers/presence/src/index.ts: what `ensureLoaded` brings back, in whatever order the storage lists it.
use nexnet.Common.{
  ◌≡◌, refl, sym, ap, ◌∙◌, arith, true, false, Option, none, some, List, [], ◌∷◌, Text, codes,
  starts_with, All,
}
use nexnet.Common.Prefix.{starts_with-append, not_prefixed}
use nexnet.Common.Map
use nexnet.Common.Map.{Map, Lists, text_key, IsMap, Absent, get_of_Absent, get-set}
use nexnet.Presence.State.{
  PresenceLeaseData, PrekeyBundleData, Stored, lease, bundle, sequence, lease_key, prekey_key,
  Tracker, fresh_tracker,
}
use nexnet.Presence.Tracker.{load, ensure_loaded}
use nexnet.Presence.Storage.{
  stored_lease, stored_bundle, Filed, Agrees, prekey_key-not_lease, keys_apart, lease_key-injective,
  prekey_key-injective,
}

abbrev AllFiled : List (Text × Stored) → Type 0
AllFiled = All (λ e. Filed e.0 e.1)

entries-Filed :
    (es : List (Text × Stored))
    → IsMap es
    → ((key : Text) (v : Stored) → Map.get es key ≡ some v → Filed key v)
    → AllFiled es
unfolding Map.get
entries-Filed [] m h = tt
entries-Filed ((k, v) ∷ es) m h = (
  h k v (ground arith),
  entries-Filed es m.1 (λ key w e. h key w (ground (arith, e, get_of_Absent k es m.0))),
)

abbrev lease_or : Option Stored → Option PresenceLeaseData → Option PresenceLeaseData
lease_or none old = old
lease_or (some (lease l)) old = some l
lease_or (some (bundle b)) old = old
lease_or (some (sequence n)) old = old

abbrev bundle_or : Option Stored → Option PrekeyBundleData → Option PrekeyBundleData
bundle_or none old = old
bundle_or (some (lease l)) old = old
bundle_or (some (bundle b)) old = some b
bundle_or (some (sequence n)) old = old

lease_entry :
    (k : Text) (l : PresenceLeaseData)
    → k ≡ lease_key l.identity
    → starts_with k (codes "lease:") ≡ true
lease_entry k l e =
    ap (λ t. starts_with t (codes "lease:")) e ∙ starts_with-append (codes "lease:") l.identity

prekey_entry :
    (k : Text) (b : PrekeyBundleData)
    → k ≡ prekey_key b.identity
    → (starts_with k (codes "lease:") ≡ false) × (starts_with k (codes "prekey:") ≡ true)
prekey_entry k b e = (
  ap (λ t. starts_with t (codes "lease:")) e ∙ prekey_key-not_lease b.identity,
  ap (λ t. starts_with t (codes "prekey:")) e ∙ starts_with-append (codes "prekey:") b.identity,
)

load-leases :
    (es : List (Text × Stored)) (t : Tracker) (id : Text)
    → IsMap es
    → AllFiled es
    → Map.get (load es t).leases id ≡ lease_or (Map.get es (lease_key id)) (Map.get t.leases id)
unfolding load Map.get
load-leases [] t id m h = refl
load-leases ((k, lease l) ∷ es) t id m h =
    (ground (
      arith,
      lease_entry k l h.0,
      load-leases es (record t { leases = Map.set t.leases l.identity l }) id m.1 h.1,
      get-set t.leases l.identity id l,
      h.0,
      lease_key-injective l.identity id,
      get_of_Absent k es m.0,
    ))
load-leases ((k, bundle b) ∷ es) t id m h =
    (ground (
      arith,
      prekey_entry k b h.0,
      load-leases es (record t { prekeys = Map.set t.prekeys b.identity b }) id m.1 h.1,
      h.0,
      keys_apart id b.identity,
    ))
load-leases ((k, sequence n) ∷ es) t id m h =
    (ground
      (arith, h.0.0, h.0.1, load-leases es t id m.1 h.1, not_prefixed k (codes "lease:") id h.0.0))

load-prekeys :
    (es : List (Text × Stored)) (t : Tracker) (id : Text)
    → IsMap es
    → AllFiled es
    → Map.get (load es t).prekeys id ≡ bundle_or (Map.get es (prekey_key id)) (Map.get t.prekeys id)
unfolding load Map.get
load-prekeys [] t id m h = refl
load-prekeys ((k, lease l) ∷ es) t id m h =
    (ground (
      arith,
      lease_entry k l h.0,
      load-prekeys es (record t { leases = Map.set t.leases l.identity l }) id m.1 h.1,
      h.0,
      keys_apart l.identity id,
    ))
load-prekeys ((k, bundle b) ∷ es) t id m h =
    (ground (
      arith,
      prekey_entry k b h.0,
      load-prekeys es (record t { prekeys = Map.set t.prekeys b.identity b }) id m.1 h.1,
      get-set t.prekeys b.identity id b,
      h.0,
      prekey_key-injective b.identity id,
      get_of_Absent k es m.0,
    ))
load-prekeys ((k, sequence n) ∷ es) t id m h =
    (ground (
      arith,
      h.0.0,
      h.0.1,
      load-prekeys es t id m.1 h.1,
      not_prefixed k (codes "prekey:") id h.0.1,
    ))

load-storage : (es : List (Text × Stored)) (t : Tracker) → (load es t).storage ≡ t.storage
unfolding load
load-storage [] t = refl
load-storage ((k, lease l) ∷ es) t = ground (
  arith,
  load-storage es t,
  load-storage es (record t { leases = Map.set t.leases l.identity l }),
)
load-storage ((k, bundle b) ∷ es) t = ground (
  arith,
  load-storage es t,
  load-storage es (record t { prekeys = Map.set t.prekeys b.identity b }),
)
load-storage ((k, sequence n) ∷ es) t = ground (arith, load-storage es t)

pub ensure_loaded-storage :
    (es : List (Text × Stored)) (t : Tracker) → (ensure_loaded es t).storage ≡ t.storage
unfolding ensure_loaded
ensure_loaded-storage es t = load-storage es t

-- What a new object holds after it has loaded, beside the one that it replaces.
pub record Restored (old new : Tracker) : Type 0 where
  pub leases : (id : Text) → Map.get new.leases id ≡ Map.get old.leases id
  pub prekeys : (id : Text) → Map.get new.prekeys id ≡ Map.get old.prekeys id
  pub storage : new.storage ≡ old.storage

lease_or-stored : (l : Option PresenceLeaseData) → lease_or (stored_lease l) none ≡ l
lease_or-stored none = refl
lease_or-stored (some l) = refl

bundle_or-stored : (b : Option PrekeyBundleData) → bundle_or (stored_bundle b) none ≡ b
bundle_or-stored none = refl
bundle_or-stored (some b) = refl

module _ (t : Tracker) (v : Agrees t) (listing : List (Text × Stored))
    (l : Lists listing t.storage) where
  listed : AllFiled listing
  listed = entries-Filed listing l.0 (λ key w e. v.filed key w (sym (l.1 key) ∙ e))

  pub reload-Restored : Restored t (ensure_loaded listing (fresh_tracker t.storage))
  unfolding ensure_loaded Map.get
  reload-Restored = record {
    leases = λ id.
        load-leases listing (fresh_tracker t.storage) id l.0 listed
        ∙ ap (λ s. lease_or s none) (l.1 (lease_key id) ∙ v.leases id)
        ∙ lease_or-stored (Map.get t.leases id);
    prekeys = λ id.
        load-prekeys listing (fresh_tracker t.storage) id l.0 listed
        ∙ ap (λ s. bundle_or s none) (l.1 (prekey_key id) ∙ v.prekeys id)
        ∙ bundle_or-stored (Map.get t.prekeys id);
    storage = load-storage listing (fresh_tracker t.storage);
  }
