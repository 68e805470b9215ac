-- ===== src/Gateway/Server/Signed/Posts.antt =====
-- packages/gateway/src/gateway.ts: what `post` has looked at when it adds a row.
use mathlib.Core.List.{Memᴰ}
use nexnet.Common.{
  ℕ, ◌≡◌, refl, subst, arith, ◌⊎◌, inl, inr, true, Bool-cases, Option, some, Result, ok, All, Text,
  to_hex, leb, All-map, All-Memᴰ, All-lookup, All-append, All-filter_by,
}
use nexnet.Common.Map.{text_key}
use nexnet.Protocol.Types.{DeviceCertificate}
use nexnet.Protocol.Events.{NexnetEvent}
use nexnet.Gateway.Bodies.{ChannelId, channel_text, owner_writes, retains}
use nexnet.Gateway.Store.{
  NewMessage, StoredMessage, StoredSession, get_session, purge_channel, insert_message, add_message,
  has_event, last_sequence_of, sequence_key, last_message_at,
}
use nexnet.Gateway.State.{Gateway, GatewayConfig, Runtime, ErrorCode}
use nexnet.Gateway.Sessions.{is_owner, authenticate_bearer}
use nexnet.Gateway.Channels.{
  public_message, is_stale, expire_channel, allow_post, allow_body, stored_as, insert_row,
  broadcast, check_author, check_event, check_order, finish_post,
}
use nexnet.Gateway.Server.Holds.{
  Holds, Outcome, Kept, bind-Holds, bind-Kept, seq-Kept, seq-Holds, done-Holds, looks-Kept,
  changes-Kept, throw_when-Kept, throw_when-Holds, required-Holds, required-Kept, read-Holds,
  tested-Kept, weaken-Holds, Holds-state,
}
use nexnet.Gateway.Server.Signed.{Signed, Authenticated, Posted, Since}
use nexnet.Gateway.Server.Signed.Sessions.{authenticate_bearer-Since}

module _ (runtime : Runtime) (config : GatewayConfig) (earlier : ℕ) (first : Gateway)
    (bearer : Option Text) (now : ℕ) (channel : ChannelId) (body : Result ErrorCode NexnetEvent)
    (before : Gateway) where
  abbrev PostedHere : NewMessage → Type 0
  PostedHere = Posted runtime config earlier first bearer now channel body

  -- Every row was there before, or is of a post.
  abbrev Added : Gateway → Type 0
  Added g = All (λ r. Memᴰ r before.store.messages ⊎ PostedHere r.message) g.store.messages

  check_author-Added :
      (session : StoredSession) (event : NexnetEvent)
      → Holds Added (check_author session event) (λ _.
        (to_hex event.author_identity_id ≡ session.identity)
        × (to_hex event.author_device_id ≡ session.device))
  unfolding check_author
  check_author-Added session event = seq-Kept Added _ _ (throw_when-Kept Added _ _) (
      weaken-Holds Added (λ _ e. (ground (arith, e), ground (arith, e)))
        (throw_when-Holds Added _ _))

  check_order-Added :
      (session : StoredSession) (event : NexnetEvent)
      → Holds Added
          (check_order runtime config channel session event)
          (λ _. owner_writes channel ≡ true → is_owner config session.identity ≡ true)
  unfolding check_order
  check_order-Added session event = seq-Holds Added _ _ (throw_when-Holds Added _ _) (λ e.
      bind-Kept Added _ _ (looks-Kept Added _) (λ known.
        seq-Kept Added _ _ (throw_when-Kept Added _ _) (
          bind-Kept Added _ _ (looks-Kept Added _) (λ last.
            weaken-Holds Added (λ _ _ writes. ground (arith, e, writes))
              (throw_when-Kept Added _ _)))))

  -- The facts of an event whose author is known.
  check_event-Added :
      (session : StoredSession) (certificate : DeviceCertificate) (event : NexnetEvent)
      → (to_hex event.author_identity_id ≡ session.identity)
        × (to_hex event.author_device_id ≡ session.device)
      → Holds Added (check_event runtime config now channel certificate event) (λ payload.
        (owner_writes channel ≡ true → is_owner config session.identity ≡ true)
        → Signed runtime config now channel session certificate event payload)
  unfolding check_event
  check_event-Added session certificate event by = seq-Kept Added _ _ (throw_when-Kept Added _ _) (
      seq-Holds Added _ _ (throw_when-Holds Added _ _) (λ verified.
        seq-Holds Added _ _ (throw_when-Holds Added _ _) (λ in_time.
          bind-Holds Added _ _ (required-Holds Added _ _) (λ payload says.
            seq-Holds Added _ _ (throw_when-Holds Added _ _) (λ for_channel.
              seq-Holds Added _ _ (throw_when-Holds Added _ _) (λ valid.
                done-Holds Added payload (λ allowed. record {
                  same_identity = by.0;
                  same_device = by.1;
                  has_its_id = ground (arith, verified);
                  signed = ground (arith, verified);
                  timely = (ground (arith, in_time), ground (arith, in_time));
                  says = says;
                  for_channel = ground (arith, for_channel);
                  valid = ground (arith, valid);
                  allowed = allowed;
                })))))))

  expire_channel-Added : (g : Gateway) → Added g → Added (expire_channel config now channel g)
  unfolding expire_channel purge_channel get_session
  expire_channel-Added g v = elim (Bool-cases (retains channel)) [
    | inl kept ↦ rw (expire_channel, kept) v
    | inr not_kept ↦
        elim (Bool-cases (
          is_stale config.public_retention_ms now
            (last_message_at (channel_text channel) g.store))) [
              | inl stale ↦
                  rw (expire_channel, not_kept, stale) (All-filter_by _ _ g.store.messages v)
              | inr fresh ↦ rw (expire_channel, not_kept, fresh) v
            ]
  ]

  insert_row-Added :
      (message : NewMessage) (sequence : ℕ)
      → PostedHere message
      → Kept Added (insert_row message sequence)
  unfolding insert_row stored_as insert_message add_message get_session Outcome
  insert_row-Added message sequence posted = record {
    held = λ g v. elim (Bool-cases (has_event message.event_id g.store)) [
      | inl known ↦ rw (insert_message, known) v
      | inr new ↦
          elim (Bool-cases (leb sequence (last_sequence_of (sequence_key message) g.store))) [
            | inl stale ↦ rw (insert_message, new, stale) v
            | inr next ↦
                rw (insert_message, new, next) (All-append _ g.store.messages _ v (inr posted), tt)
          ]
    ];
  }

  public_message-Added : (row : StoredMessage) → Kept Added (public_message row)
  unfolding public_message
  public_message-Added row =
      bind-Kept Added _ _ (required-Kept Added _ _)
        (λ id. bind-Kept Added _ _ (looks-Kept Added _) (λ identity. done-Holds Added _ tt))

  finish_post-Added :
      (token : Text) (authenticated : StoredSession × DeviceCertificate)
      → bearer ≡ some token
      → Authenticated runtime earlier first token authenticated.0 authenticated.1
      → Kept Added (finish_post runtime config now channel authenticated body)
  unfolding finish_post allow_post allow_body broadcast
  finish_post-Added token a has_token authenticated =
      bind-Holds Added _ _ (read-Holds Added body) (λ event has_event.
        seq-Holds Added _ _ (check_author-Added a.0 event) (λ by.
          bind-Holds Added _ _ (check_event-Added a.0 a.1 event by) (λ payload is_signed.
            seq-Holds Added _ _ (check_order-Added a.0 event) (λ allowed.
              seq-Kept Added _ _ (changes-Kept Added _ expire_channel-Added) (
                seq-Kept Added _ _ (tested-Kept Added _ (λ g v. v)) (
                  seq-Kept Added _ _ (tested-Kept Added _ (λ g v. v)) (
                    bind-Kept Added _ _
                      (insert_row-Added _ event.sequence (record {
                        token = token;
                        event = event;
                        session = a.0;
                        certificate = a.1;
                        payload = payload;
                        is_bearer = has_token;
                        is_body = has_event;
                        authenticated = authenticated;
                        is_signed = is_signed allowed;
                        is_message = refl;
                      }))
                      (λ row. bind-Kept Added _ _ (public_message-Added row) (λ message.
                        seq-Kept Added _ _ (changes-Kept Added _ (λ g v. v))
                          (done-Holds Added _ tt))))))))))

-- A post authenticates in one state and inserts in another, any that comes after. To authenticate
-- stores no message. Every message that is stored after the rest was stored before it, or is posted
-- rightly. The token was then, when the post came, that of a session which was not over and whose device
-- certificate the chain resolved. The event is the session's, has the id and the signature that it
-- should have under the certificate's key, is within five minutes of the clock when its body has come,
-- and holds a valid text for this channel; where only the owner writes, the session is the owner's. The
-- message says what the event says.
pub posts_are_signed :
    (runtime : Runtime) (config : GatewayConfig) (earlier : ℕ) (first later : Gateway)
    (bearer : Option Text) (authenticated : StoredSession × DeviceCertificate) (now : ℕ)
    (channel : ChannelId) (body : Result ErrorCode NexnetEvent) (before : Gateway)
    (row : StoredMessage)
    → authenticate_bearer runtime earlier bearer first ≡ (later, ok authenticated)
    → Memᴰ row (finish_post runtime config now channel authenticated body before).0.store.messages
    → (later.store.messages ≡ first.store.messages)
      × (Memᴰ row before.store.messages
          ⊎ Posted runtime config earlier first bearer now channel body row.message)
unfolding Outcome
posts_are_signed runtime config earlier first later bearer authenticated now channel body before row
      e listed =
    let (kept, (token, has_token, known)) = subst (Outcome (Since first) _) e (
      (authenticate_bearer-Since runtime earlier first bearer).held first
        (record { same_chain = refl; sessions = λ t s found. found; rows = refl })) in
    let Rightly = Posted runtime config earlier first bearer now channel body in
    (
      kept.rows,
      All-lookup (λ r. Memᴰ r before.store.messages ⊎ Rightly r.message) listed
          (Holds-state (Added runtime config earlier first bearer now channel body before) _
            (finish_post-Added runtime config earlier first bearer now channel body before token
              authenticated has_token known)
            before (All-map (λ r m. inl m) before.store.messages (All-Memᴰ before.store.messages))),
    )
