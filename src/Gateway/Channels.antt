-- ===== src/Gateway/Channels.antt =====
-- packages/gateway/src/gateway.ts: `publicMessage`, `expireChannel`, `readMessages`, `post` and
-- `broadcast`; packages/gateway/src/wire.ts: `decodeChannelPayload`.
use nexnet.Common.{
  ℕ, ◌+◌, ◌*◌, Bool, true, false, not, ◌||◌, ◌&&◌, Option, none, some, List, [], ◌∷◌, ◌++◌, ltb,
  leb, ◌==◌, if◌then◌else◌, Result, ok, err, Bytes, Text, codes, same, to_hex, length, map,
  filter_by, any_by,
}
use nexnet.Crypto.{Json}
use nexnet.Protocol.Requests.{string_at}
use nexnet.Protocol.Events.{NexnetEvent, is_within_limits, verify_event, verify_event_id}
use nexnet.Protocol.Types.{DeviceCertificate}
use nexnet.Chain.Identity.{get_identity}
use nexnet.Gateway.Store.{
  Store, NewMessage, StoredMessage, StoredSession, InsertResult, inserted, has_event,
  last_sequence_of, last_message_at, purge_channel, insert_message, page,
}
use nexnet.Gateway.Limits.{allow, allow_text}
use nexnet.Gateway.Bodies.{
  ChannelId, updates, public_room, channel_text, owner_writes, post_limit, retains, rate_window_ms,
  spam_duplicate_threshold, is_valid_body,
}
use nexnet.Gateway.State.{
  Gateway, GatewayConfig, Runtime, SocketData, PublicMessage, channel_message, Act, ErrorCode,
  unauthenticated, invalid, forbidden, rate_limited, part, set_part, ◌>>=◌, ◌>>◌, done, looks,
  changes, throw_when, required, read, hex_bytes,
}
use nexnet.Gateway.Sessions.{short_identity, username_of, is_owner}

abbrev event_skew_ms : ℕ
event_skew_ms = 5 * 60000

abbrev pub is_updates : ChannelId → Bool
is_updates updates = true
is_updates public_room = false

abbrev pub same_channel : ChannelId → ChannelId → Bool
same_channel updates c = is_updates c
same_channel public_room c = not (is_updates c)

unfoldable pub public_message : StoredMessage → Act PublicMessage
public_message row = do
  identity_id ← required (hex_bytes row.message.identity) invalid
  identity ← looks (λ g. get_identity identity_id g.chain)
  done (record {
    id = row.message.event_id;
    channel = row.message.channel;
    author = row.message.identity;
    short = short_identity row.message.identity;
    username = username_of identity;
    body = row.message.body;
    at = row.message.created_at;
    seq = row.seq;
  })

unfoldable pub public_messages : List StoredMessage → Act (List PublicMessage)
unfolding public_message
public_messages [] = done []
public_messages (row ∷ rows) = do
  message ← public_message row
  messages ← public_messages rows
  done (message ∷ messages)

-- `last !== null && this.now() - last >= retentionMs`
abbrev pub is_stale : ℕ → ℕ → Option ℕ → Bool
is_stale retention_ms now none = false
is_stale retention_ms now (some last) = leb (last + retention_ms) now

unfoldable pub expire_channel : GatewayConfig → ℕ → ChannelId → Gateway → Gateway
expire_channel config now channel g =
    if retains channel
    then g
    else if is_stale config.public_retention_ms now (last_message_at (channel_text channel) g.store)
    then record g { store = purge_channel (channel_text channel) g.store }
    else g

-- `limit` is an integer from 1 to 200, `before` a positive one.
limit_refused : Option ℕ → Bool
limit_refused none = true
limit_refused (some n) = (n == 0) || ltb 200 n

before_refused : Option (Option ℕ) → Bool
before_refused none = false
before_refused (some none) = true
before_refused (some (some n)) = n == 0

-- A parameter that is there and no natural number is `some none`.
limit_or_50 : Option (Option ℕ) → Option ℕ
limit_or_50 none = some 50
limit_or_50 (some limit) = limit

flat : Option (Option ℕ) → Option ℕ
flat none = none
flat (some n) = n

unfoldable pub read_messages :
    GatewayConfig → ℕ → ChannelId → Option (Option ℕ) → Option (Option ℕ) → Act (List PublicMessage)
unfolding limit_refused before_refused limit_or_50 flat public_messages expire_channel
read_messages config now channel raw_limit raw_before = do
  throw_when (limit_refused (limit_or_50 raw_limit)) invalid
  limit ← required (limit_or_50 raw_limit) invalid
  throw_when (before_refused raw_before) invalid
  changes (expire_channel config now channel)
  rows ← looks (λ g. page (channel_text channel) limit (flat raw_before) g.store)
  public_messages rows

pub record ChannelPayload : Type 0 where
  pub channel : Text
  pub body : Text

payload_of : Option Text → Option Text → Option ChannelPayload
payload_of (some channel) (some body) = some (record { channel = channel; body = body })
payload_of _ _ = none

payload_from : List (Text × Json) → Option ChannelPayload
unfolding payload_of
payload_from fields =
    if length fields == 2
    then payload_of (string_at (codes "channel") fields) (string_at (codes "body") fields)
    else none

unfoldable pub decode_channel_payload : Runtime → Bytes → Option ChannelPayload
unfolding payload_from
decode_channel_payload runtime payload = elim (runtime.cde_decode payload) [
  | none ↦ none
  | some fields ↦ payload_from fields
]

-- The two `allow` calls.
unfoldable pub allow_post : ℕ → ChannelId → Text → Act (Unit {0})
allow_post now channel identity g =
    let (hits, allowed) =
      allow (post_limit channel) rate_window_ms identity now (part channel g.post_limits) in
    (
      record g { post_limits = set_part channel hits g.post_limits },
      if allowed then ok tt else err rate_limited,
    )

unfoldable pub allow_body : ℕ → ChannelId → Text → Text → Act (Unit {0})
allow_body now channel identity body g =
    let (texts, allowed) =
      allow_text spam_duplicate_threshold rate_window_ms identity body now
        (part channel g.duplicate_guards) in
    (
      record g { duplicate_guards = set_part channel texts g.duplicate_guards },
      if allowed then ok tt else err rate_limited,
    )

unfoldable pub stored_as : Store × InsertResult → Gateway → Gateway × Result ErrorCode StoredMessage
stored_as (store, inserted row) g = (record g { store = store }, ok row)
stored_as (store, InsertResult.duplicate) g = (record g { store = store }, err ErrorCode.duplicate)
stored_as (store, InsertResult.stale_sequence) g =
    (record g { store = store }, err ErrorCode.stale_sequence)

unfoldable pub insert_row : NewMessage → ℕ → Act StoredMessage
unfolding stored_as
insert_row message sequence g = stored_as (insert_message message sequence g.store) g

abbrev pub listens : ChannelId → SocketData → Bool
listens channel socket = socket.ready && any_by (same_channel channel) socket.channels

unfoldable pub broadcast : ChannelId → PublicMessage → Gateway → Gateway
broadcast channel message g = record g {
  sent =
      g.sent
      ++ map (λ e. (e.0, channel_message channel message))
          (filter_by (λ e. listens channel e.1) g.sockets);
}

-- The event is in its form, and by the device of the session.
unfoldable pub check_author : StoredSession → NexnetEvent → Act (Unit {0})
check_author session event = do
  throw_when
      (not (event.protocol_version == 1) || not (same event.event_type (codes "channel.post")))
      invalid
  throw_when
      (not (same (to_hex event.author_identity_id) session.identity)
        || not (same (to_hex event.author_device_id) session.device))
      forbidden

module _ (runtime : Runtime) (config : GatewayConfig) where
  open runtime.chain_platform use {crypto}

  -- From the size limits to the text of the message.
  unfoldable pub check_event : ℕ → ChannelId → DeviceCertificate → NexnetEvent → Act ChannelPayload
  check_event now channel certificate event = do
    throw_when (not (is_within_limits event)) invalid
    throw_when
        (not (verify_event_id crypto event)
          || not (verify_event crypto event certificate.device_signing_public_key))
        unauthenticated
    throw_when
        (ltb (now + event_skew_ms) event.created_at || ltb (event.created_at + event_skew_ms) now)
        invalid
    payload ← required (decode_channel_payload runtime event.payload) invalid
    throw_when (not (same payload.channel (channel_text channel))) invalid
    throw_when (not (is_valid_body runtime.unicode payload.body)) invalid
    done payload

  -- Who may post, and that the event is new and the next one.
  unfoldable pub check_order : ChannelId → StoredSession → NexnetEvent → Act (Unit {0})
  check_order channel session event = do
    throw_when (owner_writes channel && not (is_owner config session.identity)) forbidden
    known ← looks (λ g. has_event (to_hex event.event_id) g.store)
    throw_when known ErrorCode.duplicate
    last ← looks (λ g. last_sequence_of (session.identity ++ (b':' ∷ session.device)) g.store)
    throw_when (leb event.sequence last) ErrorCode.stale_sequence

  abbrev pub message_of : ℕ → ChannelId → StoredSession → NexnetEvent → ChannelPayload → NewMessage
  message_of now channel session event payload = record {
    channel = channel_text channel;
    event_id = to_hex event.event_id;
    identity = session.identity;
    device = session.device;
    created_at = event.created_at;
    received_at = now;
    body = payload.body;
  }

  -- What is left of `post` once the body was read, with what `authenticate` gave before.
  unfoldable pub finish_post :
      ℕ
      → ChannelId
      → StoredSession × DeviceCertificate
      → Result ErrorCode NexnetEvent
      → Act PublicMessage
  unfolding check_author check_event check_order allow_post allow_body insert_row public_message
      broadcast expire_channel
  finish_post now channel authenticated body = do
    event ← read body
    check_author authenticated.0 event
    payload ← check_event now channel authenticated.1 event
    check_order channel authenticated.0 event
    changes (expire_channel config now channel)
    allow_post now channel authenticated.0.identity
    allow_body now channel authenticated.0.identity payload.body
    row ← insert_row (message_of now channel authenticated.0 event payload) event.sequence
    message ← public_message row
    changes (broadcast channel message)
    done message
