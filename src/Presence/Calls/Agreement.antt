-- ===== src/Presence/Calls/Agreement.antt =====
-- workers/presence/src/index.ts: memory and storage still agree after every call.
use nexnet.Common.{ℕ, ◌≡◌, arith, some, Text, subst}
use nexnet.Common.Map
use nexnet.Common.Map.{Map, text_key}
use nexnet.Presence.State.{sequence, Tracker}
use nexnet.Presence.Tracker.{claim_issued_at}
use nexnet.Presence.Storage.{
  Agrees, PassedOver, sequence-Agrees, lease-Agrees, drop_lease-Agrees, bundle-Agrees,
  drop_prekey-Agrees,
}
use nexnet.Presence.Calls.Kept.{SameTables, Keeps}

SameTables-Agrees : (t u : Tracker) → SameTables t u → Agrees t → Agrees u
SameTables-Agrees t u e v = record {
  leases = λ id. ground (arith, e.leases, e.storage, v.leases id);
  prekeys = λ id. ground (arith, e.prekeys, e.storage, v.prekeys id);
  filed = λ key w h. v.filed key w (ground (arith, e.storage, h));
}

claim-Agrees :
    (key : Text) (n now : ℕ) (t u : Tracker)
    → PassedOver key
    → claim_issued_at key n now t ≡ some u
    → Agrees t
    → Agrees u
unfolding claim_issued_at
claim-Agrees key n now t u h e v =
    let same_state : record t { storage = Map.set t.storage key (sequence n) } ≡ u =
      ground (arith, e) in
    subst Agrees same_state (sequence-Agrees t v key n h)

pub Agrees-Keeps : Keeps Agrees
Agrees-Keeps = record {
  same_tables = SameTables-Agrees;
  claims = claim-Agrees;
  puts_lease = lease-Agrees;
  drops_lease = drop_lease-Agrees;
  puts_bundle = bundle-Agrees;
  drops_prekey = drop_prekey-Agrees;
}
