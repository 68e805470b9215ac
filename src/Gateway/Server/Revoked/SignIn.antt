-- ===== src/Gateway/Server/Revoked/SignIn.antt =====
-- A revoked device stays silenced through sign-ins, whichever credential vouches for a device.
use nexnet.Common.{ℕ, Bool-cases, inl, inr, Bool, true, false, Option, List, Result, Bytes, Text}
use nexnet.Common.Map
use nexnet.Common.Map.{text_key}
use nexnet.Protocol.Types.{PasskeyAssertion, DeviceCertificate}
use nexnet.Chain.Calls.{registers_device, grants_by_passkey, grants_by_ssh, step}
use nexnet.Gateway.Store.{
  NewMessage, StoredMessage, StoredSession, create_session, delete_expired_sessions,
}
use nexnet.Gateway.State.{
  Gateway, GatewayConfig, Runtime, SignInMethod, PendingChallenge, ErrorCode, limit_challenge,
}
use nexnet.Gateway.SignIn.{
  ChallengeBody, Draws, prune_challenges, prune_if_full, drawn_challenge, add_challenge,
  finish_issue_challenge,
}
use nexnet.Gateway.Verification.{
  SshProof, VerifyBody, take_challenge, live_challenge, add_session, with_session, clear_expired,
  authorize_by_ssh, authorize_by_passkey, authorize_device, finish_verify_challenge,
}
use nexnet.Gateway.Server.Holds.{
  Outcome, Kept, bind-Kept, seq-Kept, done-Holds, looks-Kept, changes-Kept, throw_when-Kept,
  required-Kept, read-Kept, tested-Kept, on_chain-Kept, on_chain_always-Kept,
}
use nexnet.Gateway.Server.Revoked.{Silenced, chain_step}

module _ (identity_id device_id : Bytes) (old : List StoredMessage)
    (late : NewMessage → Type 0) where
  abbrev Quiet : Gateway → Type 0
  Quiet = Silenced identity_id device_id old late

  pub limit_challenge-Kept : (now : ℕ) (ip : Text) → Kept Quiet (limit_challenge now ip)
  unfolding limit_challenge
  limit_challenge-Kept now ip = tested-Kept Quiet _ (λ g v. v)

  prune_if_full-Kept : (now : ℕ) (full : Bool) → Kept Quiet (prune_if_full now full)
  unfolding prune_if_full prune_challenges
  prune_if_full-Kept now true = changes-Kept Quiet _ (λ g v. v)
  prune_if_full-Kept now false = done-Holds Quiet tt tt

  drawn_challenge-Kept :
      (method : SignInMethod) (drawn : Text) (account_id : Bytes)
      → Kept Quiet (drawn_challenge method drawn account_id)
  unfolding drawn_challenge
  drawn_challenge-Kept SignInMethod.passkey drawn account_id =
      bind-Kept Quiet _ _ (looks-Kept Quiet _)
        (λ live. seq-Kept Quiet _ _ (throw_when-Kept Quiet _ _) (done-Holds Quiet _ tt))
  drawn_challenge-Kept SignInMethod.wallet drawn account_id = done-Holds Quiet _ tt
  drawn_challenge-Kept SignInMethod.ssh drawn account_id = done-Holds Quiet _ tt

  pub finish_issue_challenge-Kept :
      (config : GatewayConfig) (now : ℕ) (draws : Draws) (body : Result ErrorCode ChallengeBody)
      → Kept Quiet (finish_issue_challenge config now draws body)
  unfolding finish_issue_challenge add_challenge
  finish_issue_challenge-Kept config now draws body =
      bind-Kept Quiet _ _ (read-Kept Quiet body) (λ input.
        bind-Kept Quiet _ _ (required-Kept Quiet _ _) (λ method.
          seq-Kept Quiet _ _ (throw_when-Kept Quiet _ _) (
            bind-Kept Quiet _ _ (required-Kept Quiet _ _) (λ certificate.
              seq-Kept Quiet _ _ (throw_when-Kept Quiet _ _) (
                bind-Kept Quiet _ _ (looks-Kept Quiet _) (λ found.
                  bind-Kept Quiet _ _ (required-Kept Quiet _ _) (λ identity.
                    bind-Kept Quiet _ _ (looks-Kept Quiet _) (λ gone.
                      seq-Kept Quiet _ _ (throw_when-Kept Quiet _ _) (
                        bind-Kept Quiet _ _ (looks-Kept Quiet _) (λ full.
                          seq-Kept Quiet _ _ (prune_if_full-Kept now full) (
                            bind-Kept Quiet _ _ (looks-Kept Quiet _) (λ still_full.
                              seq-Kept Quiet _ _ (throw_when-Kept Quiet _ _) (
                                bind-Kept Quiet _ _ (drawn_challenge-Kept method _ _)
                                  (λ passkey_challenge.
                                    seq-Kept Quiet _ _ (changes-Kept Quiet _ (λ g v. v))
                                      (done-Holds Quiet _ tt)))))))))))))))

  live_challenge-Kept : (now : ℕ) (id : Text) → Kept Quiet (live_challenge now id)
  unfolding live_challenge take_challenge Outcome
  live_challenge-Kept now id = bind-Kept Quiet _ _ (taken id) (λ found.
      bind-Kept Quiet _ _ (required-Kept Quiet _ _)
        (λ challenge. seq-Kept Quiet _ _ (throw_when-Kept Quiet _ _) (done-Holds Quiet _ tt)))
    where
      taken : (id : Text) → Kept Quiet (take_challenge id)
      taken id = record { held = λ g v. (v, tt) }

  add_session-Kept : (session : StoredSession) → Kept Quiet (add_session session)
  unfolding add_session with_session create_session
  add_session-Kept session = tested-Kept Quiet _ (λ g v.
      elim (Bool-cases (Map.has g.store.sessions session.token_hash)) [
        | inl e ↦ rw (create_session, e) v
        | inr e ↦ rw (create_session, e) v
      ])

  module _ (runtime : Runtime) (config : GatewayConfig) where
    authorize_by_ssh-Kept :
        (now : ℕ) (certificate : DeviceCertificate) (preimage : Bytes) (proof : Option SshProof)
        → Kept Quiet (authorize_by_ssh runtime config now certificate preimage proof)
    unfolding authorize_by_ssh step
    authorize_by_ssh-Kept now certificate preimage proof =
        bind-Kept Quiet _ _ (required-Kept Quiet _ _) (λ ssh.
          bind-Kept Quiet _ _ (required-Kept Quiet _ _) (λ public_key.
            bind-Kept Quiet _ _ (looks-Kept Quiet _) (λ gone.
              seq-Kept Quiet _ _ (throw_when-Kept Quiet _ _) (
                bind-Kept Quiet _ _ (looks-Kept Quiet _) (λ key.
                  seq-Kept Quiet _ _ (throw_when-Kept Quiet _ _) (
                    seq-Kept Quiet _ _ (throw_when-Kept Quiet _ _) (
                      on_chain-Kept Quiet _ _ (
                        chain_step identity_id device_id old late runtime now
                          (grants_by_ssh certificate.account_id certificate _)))))))))

    authorize_by_passkey-Kept :
        (now : ℕ) (challenge : PendingChallenge) (assertion : Option PasskeyAssertion)
        → Kept Quiet (authorize_by_passkey runtime config now challenge assertion)
    unfolding authorize_by_passkey step
    authorize_by_passkey-Kept now challenge assertion =
        bind-Kept Quiet _ _ (required-Kept Quiet _ _) (λ passkey. on_chain_always-Kept Quiet _ _ (
          chain_step identity_id device_id old late runtime now
            (grants_by_passkey challenge.certificate.account_id challenge.certificate passkey _)))

    authorize_device-Kept :
        (now : ℕ) (root : Bytes) (method : SignInMethod) (challenge : PendingChallenge)
        (input : VerifyBody)
        → Kept Quiet (authorize_device runtime config now root method challenge input)
    unfolding authorize_device step
    authorize_device-Kept now root SignInMethod.wallet challenge input = on_chain-Kept Quiet _ _ (
        chain_step identity_id device_id old late runtime now
          (registers_device root challenge.certificate))
    authorize_device-Kept now root SignInMethod.ssh challenge input =
        authorize_by_ssh-Kept now challenge.certificate _ input.ssh
    authorize_device-Kept now root SignInMethod.passkey challenge input =
        authorize_by_passkey-Kept now challenge input.passkey

    pub finish_verify_challenge-Kept :
        (now : ℕ) (token : Text) (body : Result ErrorCode VerifyBody)
        → Kept Quiet (finish_verify_challenge runtime config now token body)
    unfolding finish_verify_challenge clear_expired delete_expired_sessions
    finish_verify_challenge-Kept now token body =
        bind-Kept Quiet _ _ (read-Kept Quiet body) (λ input.
          bind-Kept Quiet _ _ (live_challenge-Kept now _) (λ challenge.
            bind-Kept Quiet _ _ (looks-Kept Quiet _) (λ found.
              bind-Kept Quiet _ _ (required-Kept Quiet _ _) (λ identity.
                bind-Kept Quiet _ _ (required-Kept Quiet _ _) (λ signature.
                  seq-Kept Quiet _ _ (throw_when-Kept Quiet _ _) (
                    seq-Kept Quiet _ _ (throw_when-Kept Quiet _ _) (
                      bind-Kept Quiet _ _ (looks-Kept Quiet _) (λ gone.
                        seq-Kept Quiet _ _ (throw_when-Kept Quiet _ _) (
                          bind-Kept Quiet _ _
                            (authorize_device-Kept now identity.wallet challenge.method challenge
                              input)
                            (λ authorized. seq-Kept Quiet _ _ (changes-Kept Quiet _ (λ g v. v)) (
                              seq-Kept Quiet _ _ (add_session-Kept _)
                                (looks-Kept Quiet _))))))))))))
