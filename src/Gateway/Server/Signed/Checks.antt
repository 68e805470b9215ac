-- ===== src/Gateway/Server/Signed/Checks.antt =====
-- packages/gateway/src/gateway.ts: the checks of `post`, for what passes them.
use nexnet.Common.{
  ℕ, suc, ◌<◌, ◌≡◌, refl, ◌∙◌, ap, arith, Bool, true, false, not, ◌&&◌, Option, none, some, List,
  [], ◌∷◌, ◌++◌, ok, Text, codes, same, to_hex, leb, filter_by, any_by,
}
use nexnet.Protocol.Types.{DeviceCertificate}
use nexnet.Protocol.Events.{NexnetEvent, is_within_limits}
use nexnet.Gateway.Bodies.{
  ChannelId, channel_text, owner_writes, post_limit, rate_window_ms, spam_duplicate_threshold,
}
use nexnet.Gateway.Limits.{allow, allow_text}
use nexnet.Gateway.Store.{
  NewMessage, StoredMessage, StoredSession, purge_channel, insert_message, add_message, has_event,
  last_sequence_of, sequence_key,
}
use nexnet.Gateway.State.{
  Gateway, GatewayConfig, Runtime, ErrorCode, Act, part, continue, ◌>>=◌, ◌>>◌, done, looks,
  throw_when, required,
}
use nexnet.Gateway.Sessions.{
  certificate_of, end_if_expired, or_end, authenticate, authenticate_bearer, is_owner,
}
use nexnet.Gateway.Channels.{
  ChannelPayload, expire_channel, allow_post, allow_body, stored_as, insert_row, check_author,
  check_event, check_order,
}
use nexnet.Gateway.Server.Signed.{Certified, Authenticated, Signed}

pub bind_ok :
    {A B : Type 0} (m : Act A) (f : A → Act B) {g h : Gateway} {a : A}
    → m g ≡ (h, ok a)
    → (m >>= f) g ≡ f a h
unfolding ◌>>=◌
bind_ok m f e = ap (continue f) e

pub seq_ok :
    {B : Type 0} (m : Act (Unit {0})) (k : Act B) {g h : Gateway}
    → m g ≡ (h, ok tt)
    → (m >> k) g ≡ k h
unfolding ◌>>◌
seq_ok m k e = ap (continue (λ _. k)) e

throw_when_ok : (b : Bool) (e : ErrorCode) (g : Gateway) → b ≡ false → throw_when b e g ≡ (g, ok tt)
unfolding throw_when
throw_when_ok true e g h = cc
throw_when_ok false e g h = refl

pub required_ok :
    {A : Type 0} (o : Option A) (e : ErrorCode) (g : Gateway) (a : A)
    → o ≡ some a
    → required o e g ≡ (g, ok a)
unfolding required
required_ok none e g a h = cc
required_ok (some b) e g a h = cc

module _ (runtime : Runtime) (config : GatewayConfig) (now : ℕ) where
  certificate_of_ok :
      (g : Gateway) (session : StoredSession) (certificate : DeviceCertificate)
      → Certified now g session certificate
      → certificate_of now session g ≡ (g, ok (some certificate))
  unfolding certificate_of looks
  certificate_of_ok g session certificate v =
      bind_ok _ _ (required_ok _ _ g v.identity_id v.names_identity)
      ∙ bind_ok _ _ (required_ok _ _ g v.device_id v.names_device)
      ∙ ap (λ found. (g, ok found)) v.resolves

  end_if_expired_ok :
      (g : Gateway) (token_hash : Text) (session : StoredSession)
      → now < session.expires_at
      → end_if_expired now token_hash session g ≡ (g, ok tt)
  unfolding end_if_expired done
  end_if_expired_ok g token_hash session live =
      let not_over : leb session.expires_at now ≡ false = ground (arith, live) in
      rw (end_if_expired, not_over) refl

  authenticate_ok :
      (g : Gateway) (token : Text) (session : StoredSession) (certificate : DeviceCertificate)
      → Authenticated runtime now g token session certificate
      → authenticate runtime now token g ≡ (g, ok (session, certificate))
  unfolding authenticate looks or_end done
  authenticate_ok g token session certificate v =
      bind_ok _ _ refl
      ∙ bind_ok _ _ (required_ok _ _ g session v.has_session)
      ∙ seq_ok _ _ (end_if_expired_ok g (runtime.hash_token token) session v.live)
      ∙ bind_ok _ _ (certificate_of_ok g session certificate v.certified)

  pub authenticate_bearer_ok :
      (g : Gateway) (token : Text) (session : StoredSession) (certificate : DeviceCertificate)
      → Authenticated runtime now g token session certificate
      → authenticate_bearer runtime now (some token) g ≡ (g, ok (session, certificate))
  unfolding authenticate_bearer required
  authenticate_bearer_ok g token session certificate v =
      bind_ok _ _ refl ∙ authenticate_ok g token session certificate v

  module _ (channel : ChannelId) where
    -- Only the store is written, and only the rows of it.
    pub expire_channel_store :
        (g : Gateway)
        → expire_channel config now channel g
          ≡ record g { store = (expire_channel config now channel g).store }
    unfolding expire_channel
    expire_channel_store g = ground arith

    pub expire_channel-last_sequence_of :
        (g : Gateway) (key : Text)
        → last_sequence_of key (expire_channel config now channel g).store
          ≡ last_sequence_of key g.store
    unfolding expire_channel purge_channel last_sequence_of
    expire_channel-last_sequence_of g key = ground arith

    pub expire_channel_last_seq :
        (g : Gateway) → (expire_channel config now channel g).store.last_seq ≡ g.store.last_seq
    unfolding expire_channel purge_channel
    expire_channel_last_seq g = ground arith

    none_among :
        (p q : StoredMessage → Bool) (rows : List StoredMessage)
        → any_by p rows ≡ false
        → any_by p (filter_by q rows) ≡ false
    none_among p q [] h = refl
    none_among p q (row ∷ rows) h = ground (arith, h, none_among p q rows)

    pub expire_channel-has_event :
        (g : Gateway) (id : Text)
        → has_event id g.store ≡ false
        → has_event id (expire_channel config now channel g).store ≡ false
    unfolding expire_channel purge_channel has_event
    expire_channel-has_event g id h =
        let purged =
          none_among (λ row. same row.message.event_id id)
            (λ row. not (same row.message.channel (channel_text channel))) g.store.messages h in
        ground (arith, h, purged)

    module _ (session : StoredSession) (certificate : DeviceCertificate) (event : NexnetEvent)
        (payload : ChannelPayload)
        (is_signed : Signed runtime config now channel session certificate event payload) where
      pub check_author_ok :
          (g : Gateway)
          → event.protocol_version ≡ 1
          → event.event_type ≡ codes "channel.post"
          → check_author session event g ≡ (g, ok tt)
      unfolding check_author
      check_author_ok g version type =
          seq_ok _ _ (throw_when_ok _ _ g (ground (arith, version, type)))
          ∙ throw_when_ok _ _ g (ground (arith, is_signed.same_identity, is_signed.same_device))

      pub check_event_ok :
          (g : Gateway)
          → is_within_limits event ≡ true
          → check_event runtime config now channel certificate event g ≡ (g, ok payload)
      unfolding check_event done
      check_event_ok g small =
          seq_ok _ _ (throw_when_ok _ _ g (ground (arith, small)))
          ∙ seq_ok _ _
              (throw_when_ok _ _ g (ground (arith, is_signed.has_its_id, is_signed.signed)))
          ∙ seq_ok _ _
              (throw_when_ok _ _ g (ground (arith, is_signed.timely.0, is_signed.timely.1)))
          ∙ bind_ok _ _ (required_ok _ _ g payload is_signed.says)
          ∙ seq_ok _ _ (throw_when_ok _ _ g (ground (arith, is_signed.for_channel)))
          ∙ seq_ok _ _ (throw_when_ok _ _ g (ground (arith, is_signed.valid)))

      pub check_order_ok :
          (g : Gateway)
          → has_event (to_hex event.event_id) g.store ≡ false
          → last_sequence_of (session.identity ++ (b':' ∷ session.device)) g.store < event.sequence
          → check_order runtime config channel session event g ≡ (g, ok tt)
      unfolding check_order looks
      check_order_ok g new next =
          seq_ok _ _ (throw_when_ok _ _ g (owned (owner_writes channel) is_signed.allowed))
          ∙ bind_ok _ _ refl
          ∙ seq_ok _ _ (throw_when_ok _ _ g new)
          ∙ bind_ok _ _ refl
          ∙ throw_when_ok _ _ g (ground (arith, next))
        where
          owned :
              (b : Bool)
              → (b ≡ true → is_owner config session.identity ≡ true)
              → (b && not (is_owner config session.identity)) ≡ false
          owned true h = let e = h refl in rw e refl
          owned false h = refl

      pub insert_row_ok :
          (g : Gateway) (message : NewMessage) (sequence : ℕ)
          → has_event message.event_id g.store ≡ false
          → last_sequence_of (sequence_key message) g.store < sequence
          → insert_row message sequence g ≡ (
            record g { store = (add_message message sequence g.store).0 },
            ok (record { seq = suc g.store.last_seq; message = message }),
          )
      unfolding insert_row stored_as insert_message add_message
      insert_row_ok g message sequence new next =
          let not_stale : leb sequence (last_sequence_of (sequence_key message) g.store) ≡ false =
            ground (arith, next) in
          rw (insert_message, new, not_stale) refl

      -- The limits are those from before the channel expired.
      pub allow_post_ok :
          (g : Gateway)
          → (allow
              (post_limit channel)
              rate_window_ms
              session.identity
              now
              (part channel g.post_limits)).1
            ≡ true
          → let expired = expire_channel config now channel g in
            allow_post now channel session.identity expired
            ≡ ((allow_post now channel session.identity expired).0, ok tt)
      unfolding allow_post
      allow_post_ok g h =
          let within =
            ap
              (λ s.
                (allow (post_limit channel) rate_window_ms session.identity now
                  (part channel s.post_limits)).1)
              (expire_channel_store g)
            ∙ h in
          rw within refl

      pub allow_body_ok :
          (g : Gateway)
          → (allow_text spam_duplicate_threshold rate_window_ms session.identity payload.body now
              (part channel g.duplicate_guards)).1
            ≡ true
          → let limited =
              (allow_post now channel session.identity (expire_channel config now channel g)).0 in
            allow_body now channel session.identity payload.body limited
            ≡ ((allow_body now channel session.identity payload.body limited).0, ok tt)
      unfolding allow_post allow_body
      allow_body_ok g h =
          let fresh =
            ap
              (λ s.
                (allow_text spam_duplicate_threshold rate_window_ms session.identity payload.body
                  now (part channel s.duplicate_guards)).1)
              (expire_channel_store g)
            ∙ h in
          rw fresh refl
