-- ===== src/Gateway/Server/Signed.antt =====
-- packages/gateway/src/gateway.ts: what a post that adds a row has passed.
pub mod Sessions
pub mod Posts
pub mod Checks
pub mod Accepted
use mathlib.Core.List.{Memᴰ}
use nexnet.Common.{
  ℕ, ◌+◌, ◌*◌, ◌≤◌, ◌<◌, ◌≡◌, refl, sym, ◌∙◌, ap, subst, arith, ◌⊎◌, inl, inr, Bool, true, false,
  Bool-cases, Option, none, some, List, [], ◌∷◌, Result, ok, err, Bytes, Text, to_hex, leb, All,
  All-map, All-Memᴰ, All-lookup, All-append, All-filter_by,
}
use nexnet.Common.Map
use nexnet.Common.Map.{text_key, get-delete}
use nexnet.Protocol.Types.{DeviceCertificate}
use nexnet.Protocol.Events.{NexnetEvent, verify_event, verify_event_id}
use nexnet.Chain.Devices.{resolve_device_certificate}
use nexnet.Gateway.Bodies.{ChannelId, channel_text, owner_writes, retains, is_valid_body}
use nexnet.Gateway.Store.{
  Store, NewMessage, StoredMessage, StoredSession, get_session, delete_session, purge_channel,
  insert_message, add_message, has_event, last_sequence_of, sequence_key, last_message_at,
}
use nexnet.Gateway.State.{Gateway, GatewayConfig, Runtime, ErrorCode, hex_bytes, changes, Act}
use nexnet.Gateway.Sessions.{
  end_session, certificate_of, end_if_expired, or_end, authenticate, is_owner,
}
use nexnet.Gateway.Channels.{
  ChannelPayload, decode_channel_payload, message_of, public_message, is_stale, expire_channel,
  allow_post, allow_body, stored_as, insert_row, broadcast, check_author, check_event, check_order,
}
use nexnet.Gateway.Server.Holds.{
  Holds, Outcome, Kept, bind-Holds, bind-Kept, seq-Kept, seq-Holds, done-Holds, looks-Holds,
  looks-Kept, changes-Kept, throw_when-Kept, throw_when-Holds, throw_when_true-Holds,
  required-Holds, required-Kept, required_none-Holds, read-Kept, read-Holds, tested-Kept,
  weaken-Holds, Holds-state,
}

-- The chain resolves the ids of the session to the certificate.
pub record Certified (now : ℕ) (before : Gateway) (session : StoredSession)
    (certificate : DeviceCertificate) : Type 0 where
  pub identity_id : Bytes
  pub device_id : Bytes
  pub names_identity : hex_bytes session.identity ≡ some identity_id
  pub names_device : hex_bytes session.device ≡ some device_id
  pub resolves :
      resolve_device_certificate now identity_id device_id before.chain ≡ some certificate

-- The token is that of a session that is not over, with a certificate.
pub record Authenticated (runtime : Runtime) (now : ℕ) (before : Gateway) (token : Text)
    (session : StoredSession) (certificate : DeviceCertificate) : Type 0 where
  pub has_session : get_session (runtime.hash_token token) before.store ≡ some session
  pub live : now < session.expires_at
  pub certified : Certified now before session certificate

-- The event is the session's, is signed with the certificate's key and says the payload.
pub record Signed (runtime : Runtime) (config : GatewayConfig) (now : ℕ) (channel : ChannelId)
    (session : StoredSession) (certificate : DeviceCertificate) (event : NexnetEvent)
    (payload : ChannelPayload) : Type 0 where
  pub same_identity : to_hex event.author_identity_id ≡ session.identity
  pub same_device : to_hex event.author_device_id ≡ session.device
  pub has_its_id : verify_event_id runtime.chain_platform.crypto event ≡ true
  pub signed :
      verify_event runtime.chain_platform.crypto event certificate.device_signing_public_key ≡ true
  pub timely : (event.created_at ≤ now + 300000) × (now ≤ event.created_at + 300000)
  pub says : decode_channel_payload runtime event.payload ≡ some payload
  pub for_channel : payload.channel ≡ channel_text channel
  pub valid : is_valid_body runtime.unicode payload.body ≡ true
  pub allowed : owner_writes channel ≡ true → is_owner config session.identity ≡ true

-- The message of a post whose token, at an earlier time and in the state of then, was that of the
-- session, and whose event was signed when its body had come.
pub record Posted (runtime : Runtime) (config : GatewayConfig) (earlier : ℕ) (first : Gateway)
    (bearer : Option Text) (now : ℕ) (channel : ChannelId) (body : Result ErrorCode NexnetEvent)
    (message : NewMessage) : Type 0 where
  pub token : Text
  pub event : NexnetEvent
  pub session : StoredSession
  pub certificate : DeviceCertificate
  pub payload : ChannelPayload
  pub is_bearer : bearer ≡ some token
  pub is_body : body ≡ ok event
  pub authenticated : Authenticated runtime earlier first token session certificate
  pub is_signed : Signed runtime config now channel session certificate event payload
  pub is_message : message ≡ message_of runtime config now channel session event payload

-- What `authenticate` leaves of a state.
pub record Since (before g : Gateway) : Type 0 where
  pub same_chain : g.chain ≡ before.chain
  pub sessions :
      (t : Text) (s : StoredSession)
      → get_session t g.store ≡ some s
      → get_session t before.store ≡ some s
  pub rows : g.store.messages ≡ before.store.messages
