-- ===== src/Chain/Calls/Names.antt =====
-- Usernames over histories of calls: names and wallets match one to one.
use nexnet.Common.{ℕ, some, List, [], ◌∷◌, ◌≡◌, Bytes, Text, arith, inl, inr, Result-cases}
use nexnet.Common.Map
use nexnet.Common.Map.{Map, text_key, get-set, get-delete}
use nexnet.Chain.State.{Chain, UsernameRecord, empty}
use nexnet.Chain.Usernames.Ownership.{
  IsConsistent, IsConsistent-same, register_username-IsConsistent, empty-IsConsistent,
  one_name_per_wallet,
}
use nexnet.Chain.Usernames.{register_account, record_activity, register_username}
use nexnet.Chain.Identity.{register_identity}
use nexnet.Chain.Revocations.{revoke_credential}
use nexnet.Chain.Devices.{register_device_certificate, store_certificate}
use nexnet.Chain.Passkeys.{
  register_passkey_credential, begin_passkey_device_certificate_authorization,
  prune_pending_passkeys,
}
use nexnet.Chain.PasskeyGrants.{authorize_device_certificate_with_passkey}
use nexnet.Chain.SshKeys.{register_ssh_key, authorize_device_certificate_with_ssh_key}
use nexnet.Chain.Validators.{join_validator_set, leave_validator_set}
use nexnet.Chain.Calls.{Platform, Call, registers_username, after, step, run}

module _ (platform : Platform) where
  abbrev IsUsernameCall : Call → Type 0
  IsUsernameCall (registers_username name w i) = Unit
  IsUsernameCall _ = ⊥

  -- The other calls touch neither map.
  step_names :
      (s : Chain) (now : ℕ) (c : Call)
      → ¬ IsUsernameCall c
      → ((step platform s (now, c)).usernames ≡ s.usernames)
        × ((step platform s (now, c)).wallet_to_username ≡ s.wallet_to_username)
  unfolding step register_account record_activity register_username register_identity
      register_device_certificate store_certificate register_passkey_credential
      begin_passkey_device_certificate_authorization prune_pending_passkeys
      authorize_device_certificate_with_passkey register_ssh_key
      authorize_device_certificate_with_ssh_key revoke_credential join_validator_set
      leave_validator_set
  step_names s now (registers_username name w i) h = absurd (h tt)
  step_names s now _ h = ground arith

  register-IsConsistent :
      (s : Chain) (now : ℕ) (name : Text) (w i : Bytes)
      → IsConsistent s
      → IsConsistent (step platform s (now, registers_username name w i))
  unfolding step
  register-IsConsistent s now name w i v =
      elim (Result-cases (register_username platform.lower now name w i s)) [
        | inl ((t, r), e) ↦
            rw (e, after) (register_username-IsConsistent platform.lower now name w i s t r v e)
        | inr (x, e) ↦ rw (e, after) v
      ]

  frame-IsConsistent :
      (s : Chain) (now : ℕ) (c : Call)
      → ¬ IsUsernameCall c
      → IsConsistent s
      → IsConsistent (step platform s (now, c))
  frame-IsConsistent s now c h v =
      let f = step_names s now c h in IsConsistent-same s (step platform s (now, c)) f.0 f.1 v

  step-IsConsistent :
      (s : Chain) (now : ℕ) (c : Call) → IsConsistent s → IsConsistent (step platform s (now, c))
  step-IsConsistent s now (registers_username name w i) v = register-IsConsistent s now name w i v
  step-IsConsistent s now c v = frame-IsConsistent s now c (λ h. h) v

  run-IsConsistent :
      (s : Chain) (cs : List (ℕ × Call)) → IsConsistent s → IsConsistent (run platform s cs)
  unfolding run
  run-IsConsistent s [] v = v
  run-IsConsistent s ((now, c) ∷ cs) v =
      run-IsConsistent (step platform s (now, c)) cs (step-IsConsistent s now c v)

  -- After any history of calls on a new chain, two names with the same owner are the same name, and
  -- each name's record is filed under it.
  pub one_name_after_any_history :
      (cs : List (ℕ × Call)) (a b : Text) (q r : UsernameRecord)
      → Map.get (run platform empty cs).usernames a ≡ some q
      → Map.get (run platform empty cs).usernames b ≡ some r
      → q.owner_wallet ≡ r.owner_wallet
      → (a ≡ b) × (q.username ≡ a)
  one_name_after_any_history cs a b q r ea eb same_owner =
      let v = run-IsConsistent empty cs empty-IsConsistent in
      (one_name_per_wallet _ a b q r v ea eb same_owner, (v.owned a q ea).0)
