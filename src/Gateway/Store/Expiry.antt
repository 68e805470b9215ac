-- ===== src/Gateway/Store/Expiry.antt =====
-- packages/gateway/src/store.ts: which sessions `deleteExpiredSessions` leaves.
use nexnet.Common.{
  ℕ, ◌≡◌, refl, arith, Bool, Option, none, some, List, [], ◌∷◌, ltb, if◌then◌else◌, Text, filter_by,
}
use nexnet.Common.Map
use nexnet.Common.Map.{Map, text_key, IsMap, Absent, get_of_Absent, set-IsMap, delete-IsMap}
use nexnet.Gateway.Store.{
  Store, StoredSession, empty_store, get_session, purge_channel, add_message, insert_message,
  create_session, delete_session, delete_expired_sessions,
}
use nexnet.Gateway.Store.History.{
  Write, inserts, purges, creates, deletes, expires, write, write_all,
}

abbrev live : ℕ → Text × StoredSession → Bool
live now entry = ltb now entry.1.expires_at

live-Absent :
    (now : ℕ) (key : Text) (entries : Map Text StoredSession)
    → Absent key entries
    → Absent key (filter_by (live now) entries)
live-Absent now key [] a = tt
live-Absent now key ((k, x) ∷ entries) a = ground (arith, live-Absent now key entries a.1)

live-IsMap :
    (now : ℕ) (entries : Map Text StoredSession)
    → IsMap entries
    → IsMap (filter_by (live now) entries)
live-IsMap now [] h = tt
live-IsMap now ((k, x) ∷ entries) h =
    ground (arith, live-IsMap now entries h.1, live-Absent now k entries h.0)

-- A session, unless it is expired.
abbrev pub unexpired : ℕ → Option StoredSession → Option StoredSession
unexpired now none = none
unexpired now (some x) = if ltb now x.expires_at then some x else none

get-live :
    (now : ℕ) (key : Text) (entries : Map Text StoredSession)
    → IsMap entries
    → Map.get (filter_by (live now) entries) key ≡ unexpired now (Map.get entries key)
unfolding Map.get
get-live now key [] h = refl
get-live now key ((k, x) ∷ entries) h = ground (
  arith,
  get-live now key entries h.1,
  get_of_Absent key (filter_by (live now) entries),
  live-Absent now key entries,
)

write-IsMap : (w : Write) (s : Store) → IsMap s.sessions → IsMap (write w s).sessions
unfolding write insert_message add_message purge_channel create_session delete_session
    delete_expired_sessions
write-IsMap (inserts m n) s v = ground (arith, v)
write-IsMap (purges channel) s v = v
write-IsMap (creates session) s v =
    ground (arith, v, set-IsMap s.sessions session.token_hash session v)
write-IsMap (deletes token_hash) s v = delete-IsMap s.sessions token_hash v
write-IsMap (expires now) s v = live-IsMap now s.sessions v

write_all-IsMap : (ws : List Write) (s : Store) → IsMap s.sessions → IsMap (write_all ws s).sessions
unfolding write_all
write_all-IsMap [] s v = v
write_all-IsMap (w ∷ ws) s v = write_all-IsMap ws (write w s) (write-IsMap w s v)

-- Whatever is written to a new store, in any order: to delete the expired sessions takes away those
-- whose time is up, and every other one is found as before.
pub expiry_is_exact :
    (ws : List Write) (now : ℕ) (token_hash : Text)
    → get_session token_hash (delete_expired_sessions now (write_all ws empty_store))
      ≡ unexpired now (get_session token_hash (write_all ws empty_store))
unfolding get_session delete_expired_sessions
expiry_is_exact ws now token_hash =
    get-live now token_hash (write_all ws empty_store).sessions (write_all-IsMap ws empty_store tt)
