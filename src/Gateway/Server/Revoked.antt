-- ===== src/Gateway/Server/Revoked.antt =====
-- A revoked device over histories of requests: what every action of the gateway keeps.
pub mod Accounts
pub mod SignIn
pub mod Posts
pub mod Steps
pub mod Histories
use mathlib.Core.List.{Memᴰ}
use nexnet.Common.{
  ℕ, ◌⊎◌, ◌≡◌, refl, sym, ◌∙◌, ap, subst, arith, Bool, true, false, Bool-cases, inl, inr, Option,
  none, some, List, [], ◌∷◌, ◌++◌, Result, ok, err, Bytes, Text, to_hex, length, ◌==◌, filter_by,
  All, All-filter_by, All-Memᴰ, leb, if◌then◌else◌,
}
use nexnet.Common.Hex.{IsBytes}
use nexnet.Common.Map
use nexnet.Common.Map.{text_key}
use nexnet.Protocol.Types.{DeviceCertificate, CredentialKind}
use nexnet.Protocol.Wire.{from_hex, from_hex-to_hex}
use nexnet.Chain.State.{Chain, ChainError, is_revoked_key, revocation_key}
use nexnet.Chain.Calls.{Call, step, after, run}
use nexnet.Chain.Calls.Revoked.{step-revoked, revoked_device_never_resolves}
use nexnet.Chain.Revocations.{is_revoked}
use nexnet.Chain.Devices.{resolve_device_certificate}
use nexnet.Gateway.Store.{
  NewMessage, Store, StoredMessage, StoredSession, get_session, delete_session,
  sessions_for_identity,
}
use nexnet.Gateway.State.{
  Gateway, Runtime, Act, ErrorCode, unauthenticated, revoked, invalid, hex_bytes, looks, required,
  changes, throw_when, done,
}
use nexnet.Gateway.Sessions.{
  end_session, certificate_of, end_unless, sweep_each, sweep_sessions, or_end, end_if_expired,
  authenticate, authenticate_bearer,
}
use nexnet.Gateway.Server.Holds.{
  Holds, Kept, bind-Holds, bind-Kept, seq-Kept, done-Holds, looks-Holds, looks-Kept, changes-Kept,
  throw_when-Kept, required-Holds, required-Kept, required_none-Holds,
}

read_back :
    (t : Text) (bytes found : Bytes)
    → IsBytes bytes
    → t ≡ to_hex bytes
    → hex_bytes t ≡ some found
    → found ≡ bytes
unfolding hex_bytes
read_back t bytes found h e f =
    let back : from_hex t ≡ some bytes = ap from_hex e ∙ from_hex-to_hex bytes h in
    ground (arith, back, f)

module _ (identity_id device_id : Bytes) (old : List StoredMessage)
    (late : NewMessage → Type 0) where
  -- A row of the device is an old one, or of those that may still come late.
  abbrev pub Old : StoredMessage → Type 0
  Old row =
      row.message.identity ≡ to_hex identity_id
      → row.message.device ≡ to_hex device_id
      → Memᴰ row old ⊎ late row.message

  abbrev pub Silenced : Gateway → Type 0
  Silenced g =
      (Map.has g.chain.revocations
          (revocation_key (to_hex identity_id) CredentialKind.device (to_hex device_id))
        ≡ true)
      × All Old g.store.messages

  -- The session is not one of the device.
  abbrev pub IsOther : StoredSession → Type 0
  IsOther session = session.identity ≡ to_hex identity_id → session.device ≡ to_hex device_id → ⊥

  abbrev pub chain_step :
      (runtime : Runtime) (now : ℕ) (c : Call) (g : Gateway)
      → Silenced g
      → Silenced (record g { chain = step runtime.chain_platform g.chain (now, c) })
  chain_step runtime now c g v = (step-revoked runtime.chain_platform g.chain now c _ v.0, v.1)

  module _ (ids : IsBytes identity_id × IsBytes device_id) where
    resolves_none :
        (runtime : Runtime) (now : ℕ) (g : Gateway)
        → Silenced g
        → resolve_device_certificate now identity_id device_id g.chain ≡ none
    unfolding run is_revoked is_revoked_key
    resolves_none runtime now g v =
        revoked_device_never_resolves runtime.chain_platform g.chain [] now identity_id device_id
          v.0

    module _ (runtime : Runtime) where
      -- A session whose certificate is found is another device's.
      certificate_of-Holds :
          (now : ℕ) (session : StoredSession)
          → Holds Silenced (certificate_of now session) (λ found.
            session.identity ≡ to_hex identity_id
            → session.device ≡ to_hex device_id
            → found ≡ none)
      unfolding certificate_of
      certificate_of-Holds now session =
          bind-Holds Silenced _ _ (required-Holds Silenced _ _) (λ i e.
            bind-Holds Silenced _ _ (required-Holds Silenced _ _) (λ d f.
              looks-Holds Silenced _ (λ g v same_identity same_device.
                let i_is : i ≡ identity_id =
                  read_back session.identity identity_id i ids.0 same_identity e in
                let d_is : d ≡ device_id =
                  read_back session.device device_id d ids.1 same_device f in
                ap (λ x. resolve_device_certificate now x d g.chain) i_is
                ∙ ap (λ x. resolve_device_certificate now identity_id x g.chain) d_is
                ∙ resolves_none runtime now g v)))

      pub end_session-Kept : (token_hash : Text) → Kept Silenced (changes (end_session token_hash))
      unfolding end_session delete_session
      end_session-Kept token_hash = changes-Kept Silenced _ (λ g v. v)

      end_unless-Kept :
          (token_hash : Text) (found : Option DeviceCertificate)
          → Kept Silenced (end_unless token_hash found)
      unfolding end_unless
      end_unless-Kept token_hash none = end_session-Kept token_hash
      end_unless-Kept token_hash (some certificate) = done-Holds Silenced tt tt

      sweep_each-Kept :
          (now : ℕ) (sessions : List StoredSession) → Kept Silenced (sweep_each now sessions)
      unfolding sweep_each
      sweep_each-Kept now [] = done-Holds Silenced tt tt
      sweep_each-Kept now (session ∷ sessions) =
          bind-Holds Silenced _ _ (certificate_of-Holds now session) (λ found _.
            seq-Kept Silenced _ _ (end_unless-Kept session.token_hash found)
              (sweep_each-Kept now sessions))

      pub sweep_sessions-Kept :
          (now : ℕ) (identity_hex : Text) → Kept Silenced (sweep_sessions now identity_hex)
      unfolding sweep_sessions
      sweep_sessions-Kept now identity_hex =
          bind-Kept Silenced _ _ (looks-Kept Silenced _) (λ sessions. sweep_each-Kept now sessions)

      end_if_expired-Kept :
          (now : ℕ) (token_hash : Text) (session : StoredSession)
          → Kept Silenced (end_if_expired now token_hash session)
      unfolding end_if_expired
      end_if_expired-Kept now token_hash session = elim (Bool-cases (leb session.expires_at now)) [
        | inl e ↦
            rw (end_if_expired, e)
              (seq-Kept Silenced _ _ (end_session-Kept token_hash) (throw_when-Kept Silenced _ _))
        | inr e ↦ rw (end_if_expired, e) (done-Holds Silenced tt tt)
      ]

      or_end-Holds :
          (token_hash : Text) (session : StoredSession) (found : Option DeviceCertificate)
          → (session.identity ≡ to_hex identity_id
              → session.device ≡ to_hex device_id
              → found ≡ none)
          → Holds Silenced (or_end token_hash session found) (λ a. IsOther a.0)
      unfolding or_end
      or_end-Holds token_hash session none h =
          seq-Kept Silenced _ _ (end_session-Kept token_hash) (required_none-Holds Silenced _)
      or_end-Holds token_hash session (some certificate) h =
          done-Holds Silenced (session, certificate)
            (λ same_identity same_device. let e = h same_identity same_device in cc)

      -- Whoever is authenticated is not the device.
      pub authenticate-Holds :
          (now : ℕ) (token : Text)
          → Holds Silenced (authenticate runtime now token) (λ a. IsOther a.0)
      unfolding authenticate
      authenticate-Holds now token = bind-Kept Silenced _ _ (looks-Kept Silenced _) (λ found.
          bind-Kept Silenced _ _ (required-Kept Silenced _ _) (λ session.
            seq-Kept Silenced _ _ (end_if_expired-Kept now (runtime.hash_token token) session) (
              bind-Holds Silenced _ _ (certificate_of-Holds now session)
                (or_end-Holds (runtime.hash_token token) session))))

      pub authenticate_bearer-Holds :
          (now : ℕ) (bearer : Option Text)
          → Holds Silenced (authenticate_bearer runtime now bearer) (λ a. IsOther a.0)
      unfolding authenticate_bearer
      authenticate_bearer-Holds now bearer =
          bind-Kept Silenced _ _ (required-Kept Silenced _ _)
            (λ token. authenticate-Holds now token)
