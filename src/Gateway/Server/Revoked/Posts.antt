-- ===== src/Gateway/Server/Revoked/Posts.antt =====
-- A revoked device stays silenced through posts, reads and subscriptions.
use nexnet.Common.{
  ℕ, ◌≡◌, refl, Bool-cases, Option-cases, inl, inr, Option, List, [], ◌∷◌, Result, ok, err, Bytes,
  Text, to_hex, leb, All-append, All-filter_by,
}
use nexnet.Common.Hex.{IsBytes}
use nexnet.Common.Map
use nexnet.Common.Map.{object_key}
use nexnet.Protocol.Types.{DeviceCertificate}
use nexnet.Protocol.Events.{NexnetEvent}
use nexnet.Gateway.Bodies.{ChannelId, retains, channel_text}
use nexnet.Gateway.Store.{
  NewMessage, StoredMessage, StoredSession, has_event, last_sequence_of, sequence_key, add_message,
  insert_message, purge_channel, last_message_at,
}
use nexnet.Gateway.State.{Gateway, GatewayConfig, Runtime, ErrorCode}
use nexnet.Gateway.Sessions.{logout, session_info}
use nexnet.Gateway.Channels.{
  message_of, public_message, public_messages, is_stale, expire_channel, read_messages, allow_post,
  allow_body, stored_as, insert_row, broadcast, check_author, check_event, check_order, finish_post,
}
use nexnet.Gateway.Streams.{
  TokenField, no_token, not_a_text, token_text, StreamFrame, token_of, make_ready, or_refuse,
  subscribe, socket_message,
}
use nexnet.Gateway.Server.Holds.{
  Outcome, Kept, bind-Holds, bind-Kept, seq-Kept, done-Holds, looks-Kept, changes-Kept,
  throw_when-Kept, required-Kept, required_none-Holds, read-Kept, tested-Kept,
}
use nexnet.Gateway.Server.Revoked.{
  Silenced, end_session-Kept, authenticate-Holds, authenticate_bearer-Holds,
}

module _ (identity_id device_id : Bytes) (old : List StoredMessage)
    (late : NewMessage → Type 0) where
  abbrev Quiet : Gateway → Type 0
  Quiet = Silenced identity_id device_id old late

  public_message-Kept : (row : StoredMessage) → Kept Quiet (public_message row)
  unfolding public_message
  public_message-Kept row =
      bind-Kept Quiet _ _ (required-Kept Quiet _ _)
        (λ id. bind-Kept Quiet _ _ (looks-Kept Quiet _) (λ identity. done-Holds Quiet _ tt))

  public_messages-Kept : (rows : List StoredMessage) → Kept Quiet (public_messages rows)
  unfolding public_messages
  public_messages-Kept [] = done-Holds Quiet _ tt
  public_messages-Kept (row ∷ rows) = bind-Kept Quiet _ _ (public_message-Kept row) (λ message.
      bind-Kept Quiet _ _ (public_messages-Kept rows) (λ messages. done-Holds Quiet _ tt))

  expire_channel-Quiet :
      (config : GatewayConfig) (now : ℕ) (channel : ChannelId) (g : Gateway)
      → Quiet g
      → Quiet (expire_channel config now channel g)
  unfolding expire_channel purge_channel
  expire_channel-Quiet config now channel g v = elim (Bool-cases (retains channel)) [
    | inl kept ↦ rw (expire_channel, kept) v
    | inr not_kept ↦
        elim (Bool-cases (
          is_stale config.public_retention_ms now
            (last_message_at (channel_text channel) g.store))) [
              | inl stale ↦
                  rw (expire_channel, not_kept, stale) (v.0, All-filter_by _ _ g.store.messages v.1)
              | inr fresh ↦ rw (expire_channel, not_kept, fresh) v
            ]
  ]

  pub read_messages-Kept :
      (config : GatewayConfig) (now : ℕ) (channel : ChannelId) (limit before : Option (Option ℕ))
      → Kept Quiet (read_messages config now channel limit before)
  unfolding read_messages
  read_messages-Kept config now channel limit before =
      seq-Kept Quiet _ _ (throw_when-Kept Quiet _ _) (
        bind-Kept Quiet _ _ (required-Kept Quiet _ _) (λ limited.
          seq-Kept Quiet _ _ (throw_when-Kept Quiet _ _) (
            seq-Kept Quiet _ _ (changes-Kept Quiet _ (expire_channel-Quiet config now channel))
              (bind-Kept Quiet _ _ (looks-Kept Quiet _) (λ rows. public_messages-Kept rows)))))

  insert_row-Kept :
      (message : NewMessage) (sequence : ℕ)
      → (message.identity ≡ to_hex identity_id → message.device ≡ to_hex device_id → late message)
      → Kept Quiet (insert_row message sequence)
  unfolding insert_row stored_as insert_message add_message Outcome
  insert_row-Kept message sequence other = record {
    held = λ g v. elim (Bool-cases (has_event message.event_id g.store)) [
      | inl known ↦ rw (insert_message, known) v
      | inr new ↦
          elim (Bool-cases (leb sequence (last_sequence_of (sequence_key message) g.store))) [
            | inl stale ↦ rw (insert_message, new, stale) v
            | inr next ↦
                rw (insert_message, new, next)
                  (
                    (
                      v.0,
                      All-append _ g.store.messages _ v.1
                          (λ same_identity same_device. inr (other same_identity same_device)),
                    ),
                    tt,
                  )
          ]
    ];
  }

  module _ (ids : IsBytes identity_id × IsBytes device_id) (runtime : Runtime) where
    pub logout-Kept : (bearer : Option Text) → Kept Quiet (logout runtime bearer)
    unfolding logout
    logout-Kept bearer =
        bind-Kept Quiet _ _ (required-Kept Quiet _ _)
          (λ token. end_session-Kept identity_id device_id old late ids runtime _)

    pub session_info-Kept :
        (config : GatewayConfig) (now : ℕ) (bearer : Option Text)
        → Kept Quiet (session_info runtime config now bearer)
    unfolding session_info
    session_info-Kept config now bearer =
        bind-Holds Quiet _ _
          (authenticate_bearer-Holds identity_id device_id old late ids runtime now bearer)
          (λ authenticated other.
            bind-Kept Quiet _ _ (required-Kept Quiet _ _) (λ id. looks-Kept Quiet _))

    check_author-Kept :
        (session : StoredSession) (event : NexnetEvent) → Kept Quiet (check_author session event)
    unfolding check_author
    check_author-Kept session event =
        seq-Kept Quiet _ _ (throw_when-Kept Quiet _ _) (throw_when-Kept Quiet _ _)

    check_event-Kept :
        (config : GatewayConfig) (now : ℕ) (channel : ChannelId) (certificate : DeviceCertificate)
        (event : NexnetEvent)
        → Kept Quiet (check_event runtime config now channel certificate event)
    unfolding check_event
    check_event-Kept config now channel certificate event =
        seq-Kept Quiet _ _ (throw_when-Kept Quiet _ _) (
          seq-Kept Quiet _ _ (throw_when-Kept Quiet _ _) (
            seq-Kept Quiet _ _ (throw_when-Kept Quiet _ _) (
              bind-Kept Quiet _ _ (required-Kept Quiet _ _) (λ payload.
                seq-Kept Quiet _ _ (throw_when-Kept Quiet _ _)
                  (seq-Kept Quiet _ _ (throw_when-Kept Quiet _ _) (done-Holds Quiet _ tt))))))

    check_order-Kept :
        (config : GatewayConfig) (channel : ChannelId) (session : StoredSession)
        (event : NexnetEvent)
        → Kept Quiet (check_order runtime config channel session event)
    unfolding check_order
    check_order-Kept config channel session event = seq-Kept Quiet _ _ (throw_when-Kept Quiet _ _) (
        bind-Kept Quiet _ _ (looks-Kept Quiet _) (λ known.
          seq-Kept Quiet _ _ (throw_when-Kept Quiet _ _)
            (bind-Kept Quiet _ _ (looks-Kept Quiet _) (λ last. throw_when-Kept Quiet _ _))))

    -- Only here a row is added, and its author is who was authenticated.
    pub finish_post-Kept :
        (config : GatewayConfig) (now : ℕ) (channel : ChannelId)
        (authenticated : StoredSession × DeviceCertificate) (body : Result ErrorCode NexnetEvent)
        → ((m : NewMessage)
            → m.channel ≡ channel_text channel
            → m.identity ≡ authenticated.0.identity
            → m.device ≡ authenticated.0.device
            → m.identity ≡ to_hex identity_id
            → m.device ≡ to_hex device_id
            → late m)
        → Kept Quiet (finish_post runtime config now channel authenticated body)
    unfolding finish_post allow_post allow_body broadcast
    finish_post-Kept config now channel authenticated body allowed =
        bind-Kept Quiet _ _ (read-Kept Quiet body) (λ event.
          seq-Kept Quiet _ _ (check_author-Kept authenticated.0 event) (
            bind-Kept Quiet _ _ (check_event-Kept config now channel authenticated.1 event)
              (λ payload.
                seq-Kept Quiet _ _ (check_order-Kept config channel authenticated.0 event) (
                  seq-Kept Quiet _ _
                    (changes-Kept Quiet _ (expire_channel-Quiet config now channel))
                    (seq-Kept Quiet _ _ (tested-Kept Quiet _ (λ g v. v)) (
                      seq-Kept Quiet _ _ (tested-Kept Quiet _ (λ g v. v)) (
                        bind-Kept Quiet _ _
                          (insert_row-Kept
                            (message_of runtime config now channel authenticated.0 event payload)
                            event.sequence
                            (allowed
                              (message_of runtime config now channel authenticated.0 event payload)
                              refl refl refl))
                          (λ row. bind-Kept Quiet _ _ (public_message-Kept row) (λ message.
                            seq-Kept Quiet _ _ (changes-Kept Quiet _ (λ g v. v))
                              (done-Holds Quiet _ tt))))))))))

    token_of-Kept : (now : ℕ) (token : TokenField) → Kept Quiet (token_of runtime now token)
    unfolding token_of
    token_of-Kept now no_token = done-Holds Quiet _ tt
    token_of-Kept now not_a_text = required_none-Holds Quiet _
    token_of-Kept now (token_text token) =
        bind-Holds Quiet _ _
          (authenticate-Holds identity_id device_id old late ids runtime now token)
          (λ authenticated other. done-Holds Quiet _ tt)

    subscribe-Kept :
        (now ws : ℕ) (frame : Result ErrorCode StreamFrame)
        → Kept Quiet (subscribe runtime now ws frame)
    unfolding subscribe make_ready
    subscribe-Kept now ws frame = bind-Kept Quiet _ _ (read-Kept Quiet frame) (λ input.
        bind-Kept Quiet _ _ (token_of-Kept now input.token) (λ token_hash.
          bind-Kept Quiet _ _ (required-Kept Quiet _ _) (λ channels.
            seq-Kept Quiet _ _ (throw_when-Kept Quiet _ _) (changes-Kept Quiet _ (λ g v. v)))))

    or_refuse-Quiet :
        (ws : ℕ) (r : Gateway × Result ErrorCode (Unit {0}))
        → Outcome Quiet (λ _. Unit) r
        → Quiet (or_refuse ws r)
    unfolding or_refuse Outcome
    or_refuse-Quiet ws (g, ok _) o = o.0
    or_refuse-Quiet ws (g, err e) o = o

    pub socket_message-Quiet :
        (now ws : ℕ) (frame : Result ErrorCode StreamFrame) (g : Gateway)
        → Quiet g
        → Quiet (socket_message runtime now ws frame g)
    unfolding socket_message
    socket_message-Quiet now ws frame g v = elim (Option-cases (Map.get g.sockets ws)) [
      | inl absent ↦ rw (socket_message, absent) v
      | inr (socket, present) ↦ elim (Bool-cases socket.ready) [
        | inl ready ↦ rw (socket_message, present, ready) v
        | inr waiting ↦
            rw (socket_message, present, waiting)
              (or_refuse-Quiet ws _ ((subscribe-Kept now ws frame).held g v))
      ]
    ]
