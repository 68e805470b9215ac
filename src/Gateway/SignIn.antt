-- ===== src/Gateway/SignIn.antt =====
-- packages/gateway/src/gateway.ts: `issueChallenge`, `pruneChallenges` and
-- `checkCertificateWindow`. Random values are arguments.
use nexnet.Common.{
  ℕ, ◌+◌, ◌*◌, ◌%◌, ◌^◌, Bool, true, false, not, ◌||◌, ◌&&◌, Option, none, some, ltb, leb, Result,
  Bytes, Text, length, filter_by, to_hex,
}
use nexnet.Common.Map
use nexnet.Common.Map.{text_key}
use nexnet.Protocol.Types.{DeviceCertificate, CredentialKind}
use nexnet.Chain.Revocations.{is_revoked}
use nexnet.Chain.Identity.{get_identity}
use nexnet.Chain.Passkeys.{has_live_passkey}
use nexnet.Gateway.State.{
  Gateway, GatewayConfig, SignInMethod, PendingChallenge, Act, ErrorCode, invalid, forbidden,
  revoked, not_found, unavailable, ◌>>=◌, ◌>>◌, done, looks, changes, throw_when, required, read,
}
use nexnet.Gateway.Accounts.{is_none}

abbrev challenge_ttl_ms : ℕ
challenge_ttl_ms = 120000

abbrev cert_skew_ms : ℕ
cert_skew_ms = 5 * 60000

abbrev max_pending_challenges : ℕ
max_pending_challenges = 10000

pub record ChallengeBody : Type 0 where
  pub method : Option SignInMethod
  pub certificate : Option DeviceCertificate

-- `randomBytes`, as the texts they are written as.
pub record Draws : Type 0 where
  pub id : Text
  pub nonce : Text
  pub passkey_challenge : Text

unfoldable pub prune_challenges : ℕ → Gateway → Gateway
prune_challenges now g = record g {
  challenges = filter_by (λ entry. ltb now entry.1.expires_at) g.challenges;
}

-- `capabilities & ~1` is of 32 bits.
unfoldable pub window_refused : GatewayConfig → ℕ → DeviceCertificate → Bool
window_refused config now certificate =
    leb certificate.expires_at now
    || ltb (now + cert_skew_ms) certificate.issued_at
    || leb certificate.expires_at certificate.issued_at
    || ltb (certificate.issued_at + config.session_max_ms) certificate.expires_at
    || leb 2 (certificate.capabilities % 2 ^ 32)

abbrev is_passkey : SignInMethod → Bool
is_passkey SignInMethod.passkey = true
is_passkey _ = false

abbrev pub is_full : Gateway → Bool
is_full g = leb max_pending_challenges (length g.challenges)

unfoldable pub prune_if_full : ℕ → Bool → Act (Unit {0})
unfolding prune_challenges
prune_if_full now true = changes (prune_challenges now)
prune_if_full now false = done tt

-- The challenge of a passkey, for an identity that has a live one.
unfoldable pub drawn_challenge : SignInMethod → Text → Bytes → Act (Option Text)
drawn_challenge SignInMethod.passkey drawn account_id = do
  live ← looks (λ g. has_live_passkey account_id g.chain)
  throw_when (not live) forbidden
  done (some drawn)
drawn_challenge _ drawn account_id = done none

unfoldable pub add_challenge : PendingChallenge → Gateway → Gateway
add_challenge challenge g = record g { challenges = Map.set g.challenges challenge.id challenge }

-- What is left of `issueChallenge` once the body was read.
unfoldable pub finish_issue_challenge :
    GatewayConfig → ℕ → Draws → Result ErrorCode ChallengeBody → Act PendingChallenge
unfolding prune_if_full drawn_challenge window_refused add_challenge
finish_issue_challenge config now draws body = do
  input ← read body
  method ← required input.method invalid
  throw_when (is_passkey method && is_none config.rp_id) unavailable
  certificate ← required input.certificate invalid
  throw_when (window_refused config now certificate) invalid
  found ← looks (λ g. get_identity certificate.account_id g.chain)
  identity ← required found not_found
  gone ← looks (λ g.
      is_revoked certificate.account_id CredentialKind.device (to_hex certificate.device_id)
        g.chain)
  throw_when gone revoked
  full ← looks is_full
  prune_if_full now full
  still_full ← looks is_full
  throw_when still_full unavailable
  passkey_challenge ← drawn_challenge method draws.passkey_challenge certificate.account_id
  let challenge : PendingChallenge = record {
    id = draws.id;
    method = method;
    nonce = draws.nonce;
    expires_at = now + challenge_ttl_ms;
    certificate = certificate;
    passkey_challenge = passkey_challenge;
  }
  changes (add_challenge challenge)
  done challenge
