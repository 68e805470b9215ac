-- ===== src/Gateway/Verification.antt =====
-- packages/gateway/src/gateway.ts: `verifyChallenge`, which makes a session.
use nexnet.Common.{
  ℕ, ◌+◌, not, Option, none, some, [], leb, min, Result, ok, err, Bytes, Text, to_hex,
}
use nexnet.Common.Map
use nexnet.Common.Map.{text_key}
use nexnet.Protocol.Types.{DeviceCertificate, PasskeyAssertion, CredentialKind}
use nexnet.Protocol.Credentials.{sign_in_preimage}
use nexnet.Protocol.Ssh.{ssh_fingerprint}
use nexnet.Chain.Revocations.{is_revoked}
use nexnet.Chain.Identity.{get_identity}
use nexnet.Chain.Devices.{register_device_certificate}
use nexnet.Chain.SshKeys.{resolve_ssh_key, authorize_device_certificate_with_ssh_key}
use nexnet.Chain.PasskeyGrants.{authorize_device_certificate_with_passkey}
use nexnet.Gateway.Store.{Store, StoredSession, StoreError, create_session, delete_expired_sessions}
use nexnet.Gateway.State.{
  Gateway, GatewayConfig, Runtime, SignInMethod, method_text, PendingChallenge, Act, ErrorCode,
  unauthenticated, invalid, revoked, internal, ◌>>=◌, ◌>>◌, done, looks, changes, throw_when,
  required, read, on_chain, on_chain_always,
}
use nexnet.Gateway.Accounts.{is_none}
use nexnet.Gateway.Sessions.{SessionView, describe_session}
use nexnet.Gateway.SignIn.{window_refused}

pub record SshProof : Type 0 where
  pub public_key : Option Bytes
  pub signature : Text

-- A field that its reader throws on is not there.
pub record VerifyBody : Type 0 where
  pub challenge_id : Text
  pub device_signature : Option Bytes
  pub ssh : Option SshProof
  pub passkey : Option PasskeyAssertion

-- A challenge is taken out whether or not it answers.
unfoldable pub take_challenge : Text → Act (Option PendingChallenge)
take_challenge id g =
    (record g { challenges = Map.delete g.challenges id }, ok (Map.get g.challenges id))

abbrev or_empty_text : Option Text → Text
or_empty_text none = []
or_empty_text (some t) = t

-- `if (!challenge || challenge.expiresAt <= now) throw`
unfoldable pub live_challenge : ℕ → Text → Act PendingChallenge
unfolding take_challenge
live_challenge now id = do
  found ← take_challenge id
  challenge ← required found unauthenticated
  throw_when (leb challenge.expires_at now) unauthenticated
  done challenge

unfoldable pub with_session :
    Gateway → Result StoreError Store → Gateway × Result ErrorCode (Unit {0})
with_session g (ok store) = (record g { store = store }, ok tt)
with_session g (err _) = (g, err internal)

-- The statement fails where the hash of the token is there already.
unfoldable pub add_session : StoredSession → Act (Unit {0})
unfolding with_session
add_session session g = with_session g (create_session session g.store)

unfoldable pub clear_expired : ℕ → Gateway → Gateway
clear_expired now g = record g { store = delete_expired_sessions now g.store }

module _ (runtime : Runtime) (config : GatewayConfig) where
  open runtime.chain_platform use {crypto, verify_assertion}

  unfoldable pub preimage_of : PendingChallenge → Bytes
  preimage_of challenge =
      sign_in_preimage crypto config.audience (method_text challenge.method) challenge.id
        challenge.nonce challenge.expires_at challenge.certificate

  unfoldable pub authorize_by_ssh :
      ℕ → DeviceCertificate → Bytes → Option SshProof → Act DeviceCertificate
  authorize_by_ssh now certificate preimage proof = do
    ssh ← required proof invalid
    public_key ← required ssh.public_key unauthenticated
    let fingerprint = ssh_fingerprint crypto public_key
    gone ← looks (λ g. is_revoked certificate.account_id CredentialKind.ssh fingerprint g.chain)
    throw_when gone revoked
    key ← looks (λ g. resolve_ssh_key certificate.account_id fingerprint g.chain)
    throw_when (is_none key) unauthenticated
    throw_when (not (runtime.verify_ssh_signature ssh.signature preimage public_key))
        unauthenticated
    on_chain
        (authorize_device_certificate_with_ssh_key now certificate.account_id certificate
          fingerprint)
        unauthenticated

  unfoldable pub authorize_by_passkey :
      ℕ → PendingChallenge → Option PasskeyAssertion → Act DeviceCertificate
  authorize_by_passkey now challenge assertion = do
    passkey ← required assertion invalid
    on_chain_always
        (authorize_device_certificate_with_passkey verify_assertion now
          challenge.certificate.account_id challenge.certificate passkey
          (some (or_empty_text challenge.passkey_challenge)))
        unauthenticated

  -- The three ways to vouch for the device.
  unfoldable pub authorize_device :
      ℕ → Bytes → SignInMethod → PendingChallenge → VerifyBody → Act DeviceCertificate
  unfolding authorize_by_ssh authorize_by_passkey preimage_of
  authorize_device now root SignInMethod.wallet challenge input =
      on_chain (register_device_certificate crypto now root challenge.certificate) unauthenticated
  authorize_device now root SignInMethod.ssh challenge input =
      authorize_by_ssh now challenge.certificate (preimage_of challenge) input.ssh
  authorize_device now root SignInMethod.passkey challenge input =
      authorize_by_passkey now challenge input.passkey

  abbrev session_of : ℕ → Text → PendingChallenge → StoredSession
  session_of now token challenge = record {
    token_hash = runtime.hash_token token;
    identity = to_hex challenge.certificate.account_id;
    device = to_hex challenge.certificate.device_id;
    method = method_text challenge.method;
    expires_at = min challenge.certificate.expires_at (now + config.session_max_ms);
  }

  -- What is left of `verifyChallenge` once the body was read. `token` is drawn.
  unfoldable pub finish_verify_challenge : ℕ → Text → Result ErrorCode VerifyBody → Act SessionView
  unfolding live_challenge preimage_of authorize_device add_session clear_expired
  finish_verify_challenge now token body = do
    input ← read body
    challenge ← live_challenge now input.challenge_id
    let certificate = challenge.certificate
    found ← looks (λ g. get_identity certificate.account_id g.chain)
    identity ← required found unauthenticated
    signature ← required input.device_signature invalid
    throw_when
        (not
          (crypto.verify certificate.device_signing_public_key (preimage_of challenge) signature))
        unauthenticated
    throw_when (window_refused config now certificate) invalid
    gone ← looks (λ g.
        is_revoked certificate.account_id CredentialKind.device (to_hex certificate.device_id)
          g.chain)
    throw_when gone revoked
    authorized ← authorize_device now identity.wallet challenge.method challenge input
    let session = session_of now token challenge
    changes (clear_expired now)
    add_session session
    looks (λ g. describe_session config session g.store)
