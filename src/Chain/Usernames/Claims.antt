-- ===== src/Chain/Usernames/Claims.antt =====
-- When `registerUsername` succeeds, and what it changes.
use nexnet.Common.{
  or_empty, ℕ, ◌≤◌, ◌-◌, Option, some, none, [], ◌∷◌, ◌++◌, ◌≡◌, ◌↔◌, ok, Bytes, Text, arith,
  to_hex, inl, inr, text_discrete, ite, Result-cases,
}
use nexnet.Common.Map
use nexnet.Common.Map.{Map, text_key, get-set, get-delete}
use nexnet.Chain.State.{
  Chain, UsernameRecord, AccountMeta, min_account_age_ms, inactivity_release_ms,
}
use nexnet.Chain.Usernames.{register_username, resolve_username, get_username_history, normalize}

-- The account is old enough.
abbrev IsAged : ℕ → Option AccountMeta → Type 0
IsAged now none = ⊥
IsAged now (some meta) = min_account_age_ms ≤ now - meta.created_at

-- The owner has an account, and it has been inactive for the whole period.
abbrev IsInactive : ℕ → Option AccountMeta → Type 0
IsInactive now none = ⊥
IsInactive now (some meta) = inactivity_release_ms ≤ now - meta.last_active_at

-- Nobody holds the name, or its holder is inactive.
abbrev IsAvailable : ℕ → Option UsernameRecord → Chain → Type 0
IsAvailable now none s = Unit
IsAvailable now (some r) s = IsInactive now (Map.get s.accounts (to_hex r.owner_wallet))

-- The identity has no root, or this one.
abbrev IsRootFor : Option Bytes → Bytes → Type 0
IsRootFor none wallet = Unit
IsRootFor (some root) wallet = root ≡ wallet

module _ (lower : Text → Text) (now : ℕ) (name : Text) (wallet identity_id : Bytes)
    (s : Chain) where
  pub record MayRegister : Type 0 where
    aged : IsAged now (Map.get s.accounts (to_hex wallet))
    nameless : Map.get s.wallet_to_username (to_hex wallet) ≡ none
    pub rooted : IsRootFor (Map.get s.identity_roots (to_hex identity_id)) wallet
    available : IsAvailable now (Map.get s.usernames (normalize lower name)) s

  may_register :
      {t : Chain} {r : UsernameRecord}
      → register_username lower now name wallet identity_id s ≡ ok (t, r)
      → MayRegister
  unfolding register_username Map.has
  may_register e = record {
    aged = ground arith;
    nameless = ground arith;
    rooted = ground arith;
    available = ground arith;
  }

  does_register :
      MayRegister
      → (t : Chain × UsernameRecord) × (register_username lower now name wallet identity_id s
          ≡ ok t)
  unfolding register_username Map.has
  does_register m = elim (Result-cases (register_username lower now name wallet identity_id s)) [
    | inl (t, e) ↦ (t, e)
    | inr (x, e) ↦ absurd (grind arith)
  ]

  -- `registerUsername` returns exactly when the account is at least seven days old, the wallet has no
  -- name, the identity has no other root wallet, and the name is free or its holder has an account that
  -- has been inactive for ninety days.
  pub register_username_iff :
      ((t : Chain × UsernameRecord) × (register_username lower now name wallet identity_id s
          ≡ ok t))
      ↔ MayRegister
  register_username_iff = (λ e. may_register e.1, does_register)

  -- A call that returns gives the name, in every spelling with the same normal form, to the caller, adds
  -- the claim to the history of that name, and leaves what every other name resolves to, and its history,
  -- as they were.
  pub register_username_effect :
      (t : Chain) (r : UsernameRecord)
      → register_username lower now name wallet identity_id s ≡ ok (t, r)
      → (r ≡ record {
        username = normalize lower name;
        owner_wallet = wallet;
        identity_id = identity_id;
        registered_at = now;
      })
        × ((q : Text)
            → resolve_username lower q t
              ≡ ite
                  (text_discrete (normalize lower name) (normalize lower q))
                  (some r)
                  (resolve_username lower q s))
        × ((q : Text)
            → get_username_history lower q t
              ≡ ite
                  (text_discrete (normalize lower name) (normalize lower q))
                  (get_username_history lower q s ++ (r ∷ []))
                  (get_username_history lower q s))
  unfolding register_username resolve_username get_username_history
  register_username_effect t r e = (
    ground arith,
    λ q. ground (
      arith,
      get-set s.usernames (normalize lower name) (normalize lower q) r,
      get-delete s.usernames (normalize lower name) (normalize lower q),
      get-set (Map.delete s.usernames (normalize lower name)) (normalize lower name)
          (normalize lower q) r,
    ),
    λ q. ground (
      arith,
      get-set s.history (normalize lower name) (normalize lower q)
          (or_empty (Map.get s.history (normalize lower name)) ++ (r ∷ [])),
    ),
  )
