-- ===== src/Gateway/Server/Signed/Sessions.antt =====
-- packages/gateway/src/gateway.ts: what `authenticate` has looked at.
use nexnet.Common.{
  ℕ, ◌<◌, ◌≡◌, refl, sym, ◌∙◌, ap, subst, arith, inl, inr, Bool-cases, Option, none, some, Text,
  leb,
}
use nexnet.Common.Map.{text_key, get-delete}
use nexnet.Protocol.Types.{DeviceCertificate}
use nexnet.Chain.Devices.{resolve_device_certificate}
use nexnet.Gateway.Store.{StoredSession, get_session, delete_session}
use nexnet.Gateway.State.{Gateway, Runtime, changes, Act}
use nexnet.Gateway.Sessions.{
  end_session, certificate_of, end_if_expired, or_end, authenticate, authenticate_bearer,
}
use nexnet.Gateway.Server.Holds.{
  Holds, Kept, bind-Holds, seq-Kept, seq-Holds, done-Holds, looks-Holds, changes-Kept,
  throw_when_true-Holds, required-Holds, required_none-Holds, weaken-Holds,
}
use nexnet.Gateway.Server.Signed.{Certified, Authenticated, Since}

module _ (runtime : Runtime) (now : ℕ) (before : Gateway) where
  abbrev SinceThen : Gateway → Type 0
  SinceThen = Since before

  end_session-Since : (token_hash : Text) → Kept SinceThen (changes (end_session token_hash))
  unfolding end_session delete_session get_session
  end_session-Since token_hash = changes-Kept SinceThen _ (λ g v. record {
    same_chain = v.same_chain;
    sessions =
        λ t x e. v.sessions t x (ground (arith, get-delete g.store.sessions token_hash t, e));
    rows = v.rows;
  })

  certificate_of-Since :
      (session : StoredSession)
      → Holds SinceThen
          (certificate_of now session)
          (λ found. (c : DeviceCertificate) → found ≡ some c → Certified now before session c)
  unfolding certificate_of
  certificate_of-Since session = bind-Holds SinceThen _ _ (required-Holds SinceThen _ _) (λ i e.
      bind-Holds SinceThen _ _ (required-Holds SinceThen _ _) (λ d f.
        looks-Holds SinceThen _ (λ g v c found. record {
          identity_id = i;
          device_id = d;
          names_identity = e;
          names_device = f;
          resolves = sym (ap (resolve_device_certificate now i d) v.same_chain) ∙ found;
        })))

  end_if_expired-Since :
      (token_hash : Text) (session : StoredSession)
      → Holds SinceThen (end_if_expired now token_hash session) (λ _. now < session.expires_at)
  unfolding end_if_expired
  end_if_expired-Since token_hash session = elim (Bool-cases (leb session.expires_at now)) [
    | inl e ↦
        rw (end_if_expired, e)
          (seq-Kept SinceThen _ _ (end_session-Since token_hash)
            (throw_when_true-Holds SinceThen _))
    | inr e ↦ rw (end_if_expired, e) (done-Holds SinceThen tt (ground (arith, e)))
  ]

  or_end-Since :
      (token_hash : Text) (session : StoredSession) (found : Option DeviceCertificate)
      → ((c : DeviceCertificate) → found ≡ some c → Certified now before session c)
      → Holds SinceThen
          (or_end token_hash session found)
          (λ a. (a.0 ≡ session) × Certified now before session a.1)
  unfolding or_end
  or_end-Since token_hash session none h =
      seq-Kept SinceThen _ _ (end_session-Since token_hash) (required_none-Holds SinceThen _)
  or_end-Since token_hash session (some certificate) h =
      done-Holds SinceThen (session, certificate) (refl, h certificate refl)

  authenticate-Since :
      (token : Text)
      → Holds SinceThen
          (authenticate runtime now token)
          (λ a. Authenticated runtime now before token a.0 a.1)
  unfolding authenticate
  authenticate-Since token =
      bind-Holds SinceThen _ _
        (looks-Holds SinceThen
          {Q = λ found.
            (s : StoredSession)
            → found ≡ some s
            → get_session (runtime.hash_token token) before.store ≡ some s}
          _ (λ g v s e. v.sessions (runtime.hash_token token) s e))
        (λ found known. bind-Holds SinceThen _ _ (required-Holds SinceThen _ _) (λ session e.
          seq-Holds SinceThen _ _ (end_if_expired-Since (runtime.hash_token token) session) (λ live.
            bind-Holds SinceThen _ _ (certificate_of-Since session) (λ certificate certified.
              authenticated_as token session live (known session e)
                (or_end-Since (runtime.hash_token token) session certificate certified)))))
    where
      weaken :
          (token : Text) (session : StoredSession)
          → now < session.expires_at
          → get_session (runtime.hash_token token) before.store ≡ some session
          → (a : StoredSession × DeviceCertificate)
          → (a.0 ≡ session) × Certified now before session a.1
          → Authenticated runtime now before token a.0 a.1
      weaken token session live known a q =
          subst (λ s. Authenticated runtime now before token s a.1) (sym q.0)
            (record { has_session = known; live = live; certified = q.1 })

      authenticated_as :
          (token : Text) (session : StoredSession)
          → now < session.expires_at
          → get_session (runtime.hash_token token) before.store ≡ some session
          → {m : Act (StoredSession × DeviceCertificate)}
          → Holds SinceThen m (λ a. (a.0 ≡ session) × Certified now before session a.1)
          → Holds SinceThen m (λ a. Authenticated runtime now before token a.0 a.1)
      authenticated_as token session live known h =
          weaken-Holds SinceThen (weaken token session live known) h

  pub authenticate_bearer-Since :
      (bearer : Option Text)
      → Holds SinceThen (authenticate_bearer runtime now bearer) (λ a.
        (token : Text) × (bearer ≡ some token) × Authenticated runtime now before token a.0 a.1)
  unfolding authenticate_bearer
  authenticate_bearer-Since bearer =
      bind-Holds SinceThen _ _ (required-Holds SinceThen _ _) (λ token is_bearer.
        weaken-Holds SinceThen (λ a authenticated. (token, is_bearer, authenticated))
          (authenticate-Since token))
