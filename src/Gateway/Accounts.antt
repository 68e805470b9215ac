-- ===== src/Gateway/Accounts.antt =====
-- packages/gateway/src/gateway.ts: `createIdentity`, `registerSsh`, `registerPasskey` and `revoke`. A
-- body is what its readers give, with the first error among those of one code.
use nexnet.Common.{
  ℕ, Bool, true, false, not, ◌||◌, Option, none, some, Result, ok, err, Bytes, Text, same, any_by,
  to_hex,
}
use nexnet.Protocol.Types.{IdentityRecord, SshKeyCommitment, PasskeyCredential, Revocation}
use nexnet.Protocol.Credentials.{identity_id_from_wallet, verify_identity_proof}
use nexnet.Protocol.Ssh.{ssh_fingerprint}
use nexnet.Chain.State.{Chain, ChainError}
use nexnet.Chain.Identity.{register_identity, get_identity}
use nexnet.Chain.SshKeys.{register_ssh_key}
use nexnet.Chain.Passkeys.{register_passkey_credential}
use nexnet.Chain.Revocations.{revoke_credential}
use nexnet.Gateway.State.{
  GatewayConfig, Runtime, Act, ErrorCode, unauthenticated, invalid, conflict, forbidden, not_found,
  ◌>>=◌, ◌>>◌, done, looks, throw_when, required, read, on_chain, limit_identity_create,
  limit_identity_create_global,
}
use nexnet.Gateway.Sessions.{has_token, sweep_sessions}

pub record IdentityBody : Type 0 where
  pub wallet : Bytes
  pub proof : Bytes

-- `parseSshPublicKey` gives the key, if the text is one.
pub record SshBody : Type 0 where
  pub identity_id : Bytes
  pub public_key : Option Bytes
  pub root_signature : Option Bytes

pub record PasskeyBody : Type 0 where
  pub identity_id : Bytes
  pub credential : Option PasskeyCredential
  pub root_signature : Option Bytes

abbrev pub is_none : {A : Type 0} → Option A → Bool
is_none none = true
is_none (some a) = false

unfoldable pub limit_new : ℕ → Text → Bool → Act (Unit {0})
limit_new now ip false = done tt
limit_new now ip true = limit_identity_create now ip >> limit_identity_create_global now

-- `ownedIdentity`, after its id was read.
unfoldable pub owned_identity : Bytes → Act IdentityRecord
owned_identity identity_id = do
  identity ← looks (λ g. get_identity identity_id g.chain)
  required identity not_found

abbrev pub alone : Result ChainError Chain → Result ChainError (Chain × Unit {0})
alone (ok s) = ok (s, tt)
alone (err e) = err e

module _ (runtime : Runtime) where
  open runtime.chain_platform use {crypto}

  -- What the chain returns, and whether the identity existed.
  unfoldable pub create_identity :
      ℕ → Text → Result ErrorCode IdentityBody → Act (Option IdentityRecord × Bool)
  unfolding limit_new
  create_identity now ip body = do
    input ← read body
    throw_when (not (verify_identity_proof crypto input.wallet input.proof)) unauthenticated
    let identity_id = identity_id_from_wallet crypto input.wallet
    existing ← looks (λ g. get_identity identity_id g.chain)
    limit_new now ip (is_none existing)
    created ← on_chain (register_identity crypto now input.wallet identity_id input.proof) conflict
    done (created, not (is_none existing))

  -- What is left of `registerSsh`, `registerPasskey` and `revoke` once the body was read.
  unfoldable pub finish_register_ssh : Result ErrorCode SshBody → Act SshKeyCommitment
  finish_register_ssh body = do
    input ← read body
    identity ← owned_identity input.identity_id
    public_key ← required input.public_key invalid
    let commitment : SshKeyCommitment = record {
      public_key = public_key;
      fingerprint = ssh_fingerprint crypto public_key;
    }
    root_signature ← required input.root_signature forbidden
    on_chain (register_ssh_key crypto identity.wallet input.identity_id commitment root_signature)
        forbidden

  unfoldable pub finish_register_passkey :
      GatewayConfig → Result ErrorCode PasskeyBody → Act PasskeyCredential
  finish_register_passkey config body = do
    input ← read body
    identity ← owned_identity input.identity_id
    credential ← required input.credential invalid
    throw_when
        (not (has_token credential.rp_id config.rp_id)
          || not (any_by (same credential.origin) config.origins))
        invalid
    root_signature ← required input.root_signature forbidden
    on_chain
        (register_passkey_credential crypto identity.wallet input.identity_id credential
          root_signature)
        forbidden

  unfoldable pub finish_revoke : ℕ → Result ErrorCode Revocation → Act (Unit {0})
  unfolding owned_identity
  finish_revoke now body = do
    revocation ← read body
    identity ← owned_identity revocation.account_id
    on_chain (λ s. alone (revoke_credential crypto now identity.wallet revocation s)) forbidden
    sweep_sessions now (to_hex revocation.account_id)
