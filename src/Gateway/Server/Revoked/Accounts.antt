-- ===== src/Gateway/Server/Revoked/Accounts.antt =====
-- A revoked device stays silenced through registrations and revocations.
use nexnet.Common.{ℕ, Bool, true, false, List, Result, ok, err, Bytes, Text}
use nexnet.Common.Hex.{IsBytes}
use nexnet.Common.Map.{text_key}
use nexnet.Protocol.Types.{Revocation}
use nexnet.Chain.State.{Chain, ChainError}
use nexnet.Chain.Calls.{
  registers_identity, registers_ssh, registers_passkey, revokes, step, after, after',
}
use nexnet.Chain.Revocations.{revoke_credential}
use nexnet.Gateway.Store.{NewMessage, StoredMessage}
use nexnet.Gateway.State.{
  Gateway, GatewayConfig, Runtime, ErrorCode, limit_identity_create, limit_identity_create_global,
  limit_mutation,
}
use nexnet.Gateway.Accounts.{
  IdentityBody, SshBody, PasskeyBody, limit_new, owned_identity, alone, create_identity,
  finish_register_ssh, finish_register_passkey, finish_revoke,
}
use nexnet.Gateway.Server.Holds.{
  Kept, bind-Kept, seq-Kept, done-Holds, looks-Kept, throw_when-Kept, required-Kept, read-Kept,
  tested-Kept, on_chain-Kept,
}
use nexnet.Gateway.Server.Revoked.{Silenced, chain_step, sweep_sessions-Kept}

module _ (identity_id device_id : Bytes) (old : List StoredMessage) (late : NewMessage → Type 0)
    (runtime : Runtime) where
  abbrev Quiet : Gateway → Type 0
  Quiet = Silenced identity_id device_id old late

  limit_new-Kept : (now : ℕ) (ip : Text) (new : Bool) → Kept Quiet (limit_new now ip new)
  unfolding limit_new limit_identity_create limit_identity_create_global
  limit_new-Kept now ip false = done-Holds Quiet tt tt
  limit_new-Kept now ip true =
      seq-Kept Quiet _ _ (tested-Kept Quiet _ (λ g v. v)) (tested-Kept Quiet _ (λ g v. v))

  pub limit_mutation-Kept : (now : ℕ) (ip : Text) → Kept Quiet (limit_mutation now ip)
  unfolding limit_mutation
  limit_mutation-Kept now ip = tested-Kept Quiet _ (λ g v. v)

  pub create_identity-Kept :
      (now : ℕ) (ip : Text) (body : Result ErrorCode IdentityBody)
      → Kept Quiet (create_identity runtime now ip body)
  unfolding create_identity step
  create_identity-Kept now ip body = bind-Kept Quiet _ _ (read-Kept Quiet body) (λ input.
      seq-Kept Quiet _ _ (throw_when-Kept Quiet _ _) (
        bind-Kept Quiet _ _ (looks-Kept Quiet _) (λ existing.
          seq-Kept Quiet _ _ (limit_new-Kept now ip _) (
            bind-Kept Quiet _ _
              (on_chain-Kept Quiet _ _ (
                chain_step identity_id device_id old late runtime now
                  (registers_identity input.wallet _ input.proof)))
              (λ created. done-Holds Quiet _ tt)))))

  owned_identity-Kept : (id : Bytes) → Kept Quiet (owned_identity id)
  unfolding owned_identity
  owned_identity-Kept id =
      bind-Kept Quiet _ _ (looks-Kept Quiet _) (λ identity. required-Kept Quiet _ _)

  pub finish_register_ssh-Kept :
      (now : ℕ) (body : Result ErrorCode SshBody) → Kept Quiet (finish_register_ssh runtime body)
  unfolding finish_register_ssh step
  finish_register_ssh-Kept now body = bind-Kept Quiet _ _ (read-Kept Quiet body) (λ input.
      bind-Kept Quiet _ _ (owned_identity-Kept input.identity_id) (λ identity.
        bind-Kept Quiet _ _ (required-Kept Quiet _ _) (λ public_key.
          bind-Kept Quiet _ _ (required-Kept Quiet _ _) (λ root_signature. on_chain-Kept Quiet _ _ (
            chain_step identity_id device_id old late runtime now
              (registers_ssh identity.wallet input.identity_id _ root_signature))))))

  pub finish_register_passkey-Kept :
      (config : GatewayConfig) (now : ℕ) (body : Result ErrorCode PasskeyBody)
      → Kept Quiet (finish_register_passkey runtime config body)
  unfolding finish_register_passkey step
  finish_register_passkey-Kept config now body =
      bind-Kept Quiet _ _ (read-Kept Quiet body) (λ input.
        bind-Kept Quiet _ _ (owned_identity-Kept input.identity_id) (λ identity.
          bind-Kept Quiet _ _ (required-Kept Quiet _ _) (λ credential.
            seq-Kept Quiet _ _ (throw_when-Kept Quiet _ _) (
              bind-Kept Quiet _ _ (required-Kept Quiet _ _) (λ root_signature.
                on_chain-Kept Quiet _ _ (
                  chain_step identity_id device_id old late runtime now (
                    registers_passkey identity.wallet input.identity_id credential
                      root_signature)))))))

  revoke_call :
      (now : ℕ) (root : Bytes) (revocation : Revocation) (g : Gateway)
      → Quiet g
      → Quiet (record g {
        chain =
            after g.chain
              (alone (revoke_credential runtime.chain_platform.crypto now root revocation g.chain));
      })
  unfolding step
  revoke_call now root revocation g v =
      answered (revoke_credential runtime.chain_platform.crypto now root revocation g.chain)
        (chain_step identity_id device_id old late runtime now (revokes root revocation) g v)
    where
      answered :
          (r : Result ChainError Chain)
          → Quiet (record g { chain = after' g.chain r })
          → Quiet (record g { chain = after g.chain (alone r) })
      answered (ok s) w = w
      answered (err e) w = w

  pub finish_revoke-Kept :
      IsBytes identity_id × IsBytes device_id
      → (now : ℕ) (body : Result ErrorCode Revocation) → Kept Quiet (finish_revoke runtime now body)
  unfolding finish_revoke
  finish_revoke-Kept ids now body = bind-Kept Quiet _ _ (read-Kept Quiet body) (λ revocation.
      bind-Kept Quiet _ _ (owned_identity-Kept revocation.account_id) (λ identity.
        seq-Kept Quiet _ _ (on_chain-Kept Quiet _ _ (revoke_call now identity.wallet revocation))
          (sweep_sessions-Kept identity_id device_id old late ids runtime now _)))
