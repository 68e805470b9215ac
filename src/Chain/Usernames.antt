-- ===== src/Chain/Usernames.antt =====
-- `registerAccount`, `recordActivity`, and the username operations.
pub mod Ownership
pub mod Claims
use nexnet.Common.{
  or_empty, ℕ, ◌+◌, ◌-◌, Bool, true, false, not, Option, none, some, List, [], ◌∷◌, ◌++◌, ltb, leb,
  if◌then◌else◌, Result, ok, err, ◌>>=◌, ◌>>◌, or_throw, throw_if, Bytes, Text, codes, same, to_hex,
  trim,
}
use nexnet.Common.Map
use nexnet.Common.Map.{Map, text_key}
use nexnet.Chain.State.{
  Chain, AccountMeta, UsernameRecord, ChainError, account_not_registered, account_too_new,
  wallet_owns_username, identity_root_bound, username_taken, transfer_disabled, min_account_age_ms,
  inactivity_release_ms,
}

unfoldable pub register_account : ℕ → Bytes → Chain → Chain
register_account now wallet s =
    let wallet_hex = to_hex wallet in
    if Map.has s.accounts wallet_hex then s else record s {
      accounts = Map.set s.accounts wallet_hex (record { created_at = now; last_active_at = now });
    }

-- A write through the reference that `accounts.get` returns.
unfoldable pub record_activity : ℕ → Bytes → Chain → Chain
record_activity now wallet s = elim (Map.get s.accounts (to_hex wallet)) [
  | none ↦ s
  | some meta ↦ record s {
    accounts = Map.set s.accounts (to_hex wallet) (record meta { last_active_at = now });
  }
]

-- `if (rootWallet && !rootWallet.equals(wallet)) throw …`
abbrev root_free : Option Bytes → Bytes → Result ChainError (Unit {0})
root_free none wallet = ok tt
root_free (some root) wallet = throw_if (not (same root wallet)) identity_root_bound

-- The owner's record is there and the owner has been away for long enough.
released : ℕ → Option AccountMeta → Bool
released now none = false
released now (some meta) = leb inactivity_release_ms (now - meta.last_active_at)

-- A taken name is released, or the call fails.
release : ℕ → Text → Option UsernameRecord → Chain → Result ChainError Chain
unfolding released
release now normalized none s = ok s
release now normalized (some existing) s =
    let owner_hex = to_hex existing.owner_wallet in
    if released now (Map.get s.accounts owner_hex)
    then ok (record s {
      usernames = Map.delete s.usernames normalized;
      wallet_to_username = Map.delete s.wallet_to_username owner_hex;
    })
    else err username_taken

unfoldable pub append_history : Text → UsernameRecord → Chain → Chain
append_history username r s = record s {
  history = Map.set s.history username (or_empty (Map.get s.history username) ++ (r ∷ []));
}

-- The four writes at the end of `registerUsername`.
claim : UsernameRecord → Chain → Chain
unfolding append_history
claim r s = append_history r.username r (record s {
  usernames = Map.set s.usernames r.username r;
  wallet_to_username = Map.set s.wallet_to_username (to_hex r.owner_wallet) r.username;
  identity_roots = Map.set s.identity_roots (to_hex r.identity_id) r.owner_wallet;
})

-- `lower` is the platform's `toLowerCase`.
module _ (lower : Text → Text) where
  unfoldable pub normalize : Text → Text
  normalize username = trim (lower username)

  unfoldable pub register_username :
      ℕ → Text → Bytes → Bytes → Chain → Result ChainError (Chain × UsernameRecord)
  unfolding normalize release claim
  register_username now username wallet identity_id s = do
    let wallet_hex = to_hex wallet
    let normalized = normalize username
    meta ← or_throw (Map.get s.accounts wallet_hex) account_not_registered
    throw_if (ltb (now - meta.created_at) min_account_age_ms) account_too_new
    throw_if (Map.has s.wallet_to_username wallet_hex) wallet_owns_username
    root_free (Map.get s.identity_roots (to_hex identity_id)) wallet
    s' ← release now normalized (Map.get s.usernames normalized) s
    let r : UsernameRecord = record {
      username = normalized;
      owner_wallet = wallet;
      identity_id = identity_id;
      registered_at = now;
    }
    ok (claim r s', r)

  unfoldable pub resolve_username : Text → Chain → Option UsernameRecord
  unfolding normalize
  resolve_username username s = Map.get s.usernames (normalize username)

  unfoldable pub get_username_history : Text → Chain → List UsernameRecord
  unfolding normalize
  get_username_history username s = or_empty (Map.get s.history (normalize username))

unfoldable transfer_username : Chain → Result ChainError Chain
transfer_username s = err transfer_disabled
