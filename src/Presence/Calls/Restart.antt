-- ===== src/Presence/Calls/Restart.antt =====
-- workers/presence/src/index.ts: a restart of the object loses nothing.
use nexnet.Common.{◌≡◌, refl, List, Text, arith}
use nexnet.Common.Map
use nexnet.Common.Map.{Map, text_key}
use nexnet.Presence.State.{Stored, Tracker, fresh_tracker}
use nexnet.Presence.Tracker.{ensure_loaded}
use nexnet.Presence.Storage.{Agrees}
use nexnet.Common.Map.{Lists}
use nexnet.Presence.Loading.{Restored, reload-Restored}
use nexnet.Presence.Calls.{Platform, Becomes, unchanged, called, restarted, first_tracker}
use nexnet.Presence.Calls.Walks.{run_call-kept}
use nexnet.Presence.Calls.Agreement.{Agrees-Keeps}

first-Agrees : Agrees first_tracker
unfolding Map.get
first-Agrees = record {
  leases = λ id. refl;
  prekeys = λ id. refl;
  filed = λ key v h. absurd (ground (arith, h));
}

Restored-Agrees : (t u : Tracker) → Restored t u → Agrees t → Agrees u
Restored-Agrees t u r v = record {
  leases = λ id. ground (arith, r.leases id, r.storage, v.leases id);
  prekeys = λ id. ground (arith, r.prekeys id, r.storage, v.prekeys id);
  filed = λ key w h. v.filed key w (ground (arith, r.storage, h));
}

pub Becomes-Agrees :
    {platform : Platform} {t : Tracker} → Becomes platform first_tracker t → Agrees t
Becomes-Agrees unchanged = first-Agrees
Becomes-Agrees {platform} (called {u} broken now c before) =
    run_call-kept Agrees-Keeps platform broken now c u (Becomes-Agrees before)
Becomes-Agrees (restarted {u} listing l before) =
    let v = Becomes-Agrees before in Restored-Agrees u _ (reload-Restored u v listing l) v

-- After any calls and restarts, at any times and whatever sockets fail: an object that is made anew,
-- and loads what the storage lists in any order, has for every identity the lease and the prekey
-- bundle that the old object had.
pub restart_loses_nothing :
    (platform : Platform) (t : Tracker) (listing : List (Text × Stored)) (id : Text)
    → Becomes platform first_tracker t
    → Lists listing t.storage
    → (Map.get (ensure_loaded listing (fresh_tracker t.storage)).leases id ≡ Map.get t.leases id)
      × (Map.get (ensure_loaded listing (fresh_tracker t.storage)).prekeys id
          ≡ Map.get t.prekeys id)
restart_loses_nothing platform t listing id reached listed =
    let r = reload-Restored t (Becomes-Agrees reached) listing listed in (r.leases id, r.prekeys id)
