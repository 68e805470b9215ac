-- ===== src/Gateway/Server/Tests.antt =====
-- A gateway with one device, whose message is stored, and who posts again.
use mathlib.Core.List.{Memᴰ}
use nexnet.Common.{
  ℕ, ◌≡◌, ◌⊎◌, refl, true, false, none, some, List, [], ◌∷◌, Bytes, Text, codes, same, repeat,
  to_hex, text_discrete, ok, err, map, arith, trim,
}
use nexnet.Common.Map
use nexnet.Common.Map.{text_key, object_key}
use nexnet.Crypto.{Crypto, string}
use nexnet.Protocol.Types.{DeviceCertificate, CredentialKind}
use nexnet.Protocol.Events.{
  NexnetEvent, is_within_limits, verify_event, verify_event_id, event_id_of, to_id_preimage,
  to_signing_preimage,
}
use nexnet.Protocol.Wire.{from_hex}
use nexnet.Protocol.Requests.{string_at}
use nexnet.Chain.State.{Chain, empty, is_revoked_key, revocation_key, device_certificate_key}
use nexnet.Chain.Devices.{resolve_device_certificate}
use nexnet.Chain.Revocations.{is_revoked, is_certificate_revoked}
use nexnet.Gateway.Store.{
  Store, StoredMessage, StoredSession, get_session, insert_message, has_event, last_sequence_of,
  sequence_key, add_message, last_message_at, purge_channel, delete_session,
}
use nexnet.Gateway.Limits.{allow, allow_text, sweep_if_large, sweep, recent}
use nexnet.Gateway.Bodies.{public_room, is_valid_body, code_points, utf8_length, has_mark_run}
use nexnet.Gateway.State.{
  GatewayConfig, Runtime, invalid, new_gateway, hex_bytes, ◌>>=◌, ◌>>◌, done, looks, changes,
  throw_when, required, read,
}
use nexnet.Gateway.Channels.{
  finish_post, ChannelPayload, check_author, check_event, check_order, decode_channel_payload,
  public_message, expire_channel, allow_post, allow_body, stored_as, insert_row, broadcast,
}
use nexnet.Gateway.Sessions.{
  authenticate, authenticate_bearer, end_if_expired, or_end, certificate_of, short_identity,
  end_session,
}
use nexnet.Chain.Identity.{get_identity}
use nexnet.Gateway.Server.{
  Server, awaits_post, Request, BodyRead, arrives, body_arrives, post_arrives, suspend, handle_all,
}
use nexnet.Gateway.Server.Signed.{Posted, Signed}
use nexnet.Gateway.Server.Signed.Posts.{posts_are_signed}
use nexnet.Gateway.Server.Revoked.Histories.{InFlight, revoked_device_is_silenced}

-- A signature is the key.
abbrev crypto : Crypto
crypto = record {
  verify = λ key message signature. same key signature;
  derive_id = λ domain key. key;
  sha256 = λ bytes. bytes;
  cde_encode = λ fields. [];
}

abbrev runtime : Runtime
runtime = record {
  chain_platform = record {
    crypto = crypto;
    lower = λ t. t;
    verify_assertion = λ assertion challenge credential. none;
  };
  unicode = record {
    is_control = λ c. false;
    is_bidi_control = λ c. false;
    is_invisible_format = λ c. false;
    is_mark = λ c. false;
  };
  hash_token = λ t. t;
  cde_decode = λ bytes.
      some ((codes "channel", string (codes "public")) ∷ (codes "body", string bytes) ∷ []);
  verify_ssh_signature = λ signature message key. false;
}

abbrev config : GatewayConfig
config = record {
  audience = codes "home";
  owner_identity = none;
  rp_id = none;
  origins = [];
  public_retention_ms = 1000000;
  session_max_ms = 100000;
}

abbrev alice : Bytes
alice = repeat 32 171

abbrev phone : Bytes
phone = repeat 32 18

abbrev certificate : DeviceCertificate
certificate = record {
  account_id = alice;
  device_id = phone;
  device_signing_public_key = phone;
  device_encryption_public_key = phone;
  issued_at = 1;
  expires_at = 1000;
  capabilities = 1;
  root_signature = alice;
}

abbrev session : StoredSession
unfolding to_hex
session = record {
  token_hash = codes "token";
  identity = to_hex alice;
  device = to_hex phone;
  method = codes "wallet";
  expires_at = 1000;
}

abbrev first_row : StoredMessage
unfolding to_hex
first_row = record {
  seq = 1;
  message = record {
    channel = codes "public";
    event_id = codes "first";
    identity = to_hex alice;
    device = to_hex phone;
    created_at = 5;
    received_at = 5;
    body = codes "hello";
  };
}

abbrev store : Store
unfolding sequence_key
store = record {
  messages = first_row ∷ [];
  last_seq = 1;
  device_sequences = (sequence_key first_row.message, 1) ∷ [];
  sessions = (codes "token", session) ∷ [];
}

abbrev chain : Chain
unfolding device_certificate_key to_hex
chain = record empty {
  device_certificates = (device_certificate_key alice phone, certificate) ∷ [];
}

abbrev revoked_chain : Chain
unfolding revocation_key to_hex
revoked_chain = record chain {
  revocations = (revocation_key (to_hex alice) CredentialKind.device (to_hex phone), 7) ∷ [];
}

abbrev second : NexnetEvent
second = record {
  protocol_version = 1;
  event_type = codes "channel.post";
  event_id = [];
  author_identity_id = alice;
  author_device_id = phone;
  created_at = 20;
  sequence = 2;
  parent_ids = [];
  payload = codes "hi";
  signature = phone;
}

abbrev second_body : BodyRead
second_body = record {
  as_ssh = err invalid;
  as_passkey = err invalid;
  as_revocation = err invalid;
  as_challenge = err invalid;
  as_verification = err invalid;
  as_event = ok second;
  draws = record { id = []; nonce = []; passkey_challenge = [] };
  token = [];
}

-- The second message is posted, and its body comes ten milliseconds later.
abbrev posts : List (ℕ × Request)
posts =
    (10, arrives 1 (post_arrives public_room (some (codes "token"))))
    ∷ (20, body_arrives 1 second_body)
    ∷ []

abbrev started : Server
started = record { gateway = new_gateway store chain; waiting = [] }

bodies : Server → List Text
bodies s = map (λ row. row.message.body) s.gateway.store.messages

posted : Server
unfolding new_gateway handle_all
posted = handle_all runtime config posts started

-- Before the revocation the message is stored.
test_posted : bodies posted ≡ codes "hello" ∷ codes "hi" ∷ []
unfolding posted bodies new_gateway suspend store session chain first_row finish_post
    authenticate_bearer ◌>>=◌ ◌>>◌ done looks changes throw_when required read hex_bytes
    authenticate end_if_expired or_end certificate_of check_author check_event check_order
    decode_channel_payload public_message expire_channel allow_post allow_body stored_as insert_row
    broadcast resolve_device_certificate is_certificate_revoked is_revoked_key revocation_key
    device_certificate_key get_identity short_identity is_within_limits verify_event verify_event_id
    event_id_of to_id_preimage to_signing_preimage from_hex string_at to_hex text_discrete
    get_session insert_message has_event last_sequence_of sequence_key add_message last_message_at
    purge_channel allow allow_text sweep_if_large sweep recent is_valid_body code_points utf8_length
    has_mark_run trim Map.get Map.set Map.has
test_posted = refl

-- The revocation finds no post that awaits its body: the message is not stored.
abbrev silent : Server
silent = record { gateway = new_gateway store revoked_chain; waiting = [] }

test_silent : bodies (handle_all runtime config posts silent) ≡ codes "hello" ∷ []
unfolding bodies new_gateway handle_all suspend revoked_chain end_session delete_session Map.delete
    store session chain first_row finish_post authenticate_bearer ◌>>=◌ ◌>>◌ done looks changes
    throw_when required read hex_bytes authenticate end_if_expired or_end certificate_of
    check_author check_event check_order decode_channel_payload public_message expire_channel
    allow_post allow_body stored_as insert_row broadcast resolve_device_certificate
    is_certificate_revoked is_revoked_key revocation_key device_certificate_key get_identity
    short_identity is_within_limits verify_event verify_event_id event_id_of to_id_preimage
    to_signing_preimage from_hex string_at to_hex text_discrete get_session insert_message has_event
    last_sequence_of sequence_key add_message last_message_at purge_channel allow allow_text
    sweep_if_large sweep recent is_valid_body code_points utf8_length has_mark_run trim Map.get
    Map.set Map.has
test_silent = refl

-- The revocation comes while a post awaits its body: the message is stored.
abbrev overtaken : Server
overtaken = record {
  gateway = new_gateway store revoked_chain;
  waiting = (1, awaits_post public_room (session, certificate)) ∷ [];
}

abbrev late_body : List (ℕ × Request)
late_body = (20, body_arrives 1 second_body) ∷ []

abbrev second_row : StoredMessage
unfolding to_hex
second_row = record {
  seq = 2;
  message = record {
    channel = codes "public";
    event_id = [];
    identity = to_hex alice;
    device = to_hex phone;
    created_at = 20;
    received_at = 20;
    body = codes "hi";
  };
}

revoked : is_revoked alice CredentialKind.device (to_hex phone) overtaken.gateway.chain ≡ true
unfolding new_gateway revoked_chain is_revoked is_revoked_key revocation_key to_hex text_discrete
    Map.has Map.get
revoked = refl

test_listed : Memᴰ second_row (handle_all runtime config late_body overtaken).gateway.store.messages
unfolding new_gateway second_row handle_all suspend revoked_chain Map.delete store session chain
    first_row finish_post authenticate_bearer ◌>>=◌ ◌>>◌ done looks changes throw_when required read
    hex_bytes authenticate end_if_expired or_end certificate_of check_author check_event check_order
    decode_channel_payload public_message expire_channel allow_post allow_body stored_as insert_row
    broadcast resolve_device_certificate is_certificate_revoked is_revoked_key revocation_key
    device_certificate_key get_identity short_identity is_within_limits verify_event verify_event_id
    event_id_of to_id_preimage to_signing_preimage from_hex string_at to_hex text_discrete
    get_session insert_message has_event last_sequence_of sequence_key add_message last_message_at
    purge_channel allow allow_text sweep_if_large sweep recent is_valid_body code_points utf8_length
    has_mark_run trim Map.get Map.set Map.has
test_listed = Memᴰ.tail (Memᴰ.head refl)

revoked_device_is_silenced_example :
    Memᴰ second_row overtaken.gateway.store.messages ⊎ InFlight overtaken.waiting second_row.message
unfolding second_row to_hex
revoked_device_is_silenced_example =
    revoked_device_is_silenced runtime config alice phone late_body overtaken second_row
      (ground arith, ground arith) revoked test_listed refl refl

test_authenticated :
    authenticate_bearer runtime 10 (some (codes "token")) (new_gateway store chain)
    ≡ (new_gateway store chain, ok (session, certificate))
unfolding new_gateway store session chain first_row finish_post authenticate_bearer ◌>>=◌ ◌>>◌ done
    looks changes throw_when required read hex_bytes authenticate end_if_expired or_end
    certificate_of check_author check_event check_order decode_channel_payload public_message
    expire_channel allow_post allow_body stored_as insert_row broadcast resolve_device_certificate
    is_certificate_revoked is_revoked_key revocation_key device_certificate_key get_identity
    short_identity is_within_limits verify_event verify_event_id event_id_of to_id_preimage
    to_signing_preimage from_hex string_at to_hex text_discrete get_session insert_message has_event
    last_sequence_of sequence_key add_message last_message_at purge_channel allow allow_text
    sweep_if_large sweep recent is_valid_body code_points utf8_length has_mark_run trim Map.get
    Map.set Map.has
test_authenticated = refl

test_second :
    Memᴰ second_row
      (finish_post runtime config 20 public_room
        (session, certificate)
        (ok second)
        (new_gateway store chain)).0.store.messages
unfolding new_gateway second_row store session chain first_row finish_post authenticate_bearer ◌>>=◌
    ◌>>◌ done looks changes throw_when required read hex_bytes authenticate end_if_expired or_end
    certificate_of check_author check_event check_order decode_channel_payload public_message
    expire_channel allow_post allow_body stored_as insert_row broadcast resolve_device_certificate
    is_certificate_revoked is_revoked_key revocation_key device_certificate_key get_identity
    short_identity is_within_limits verify_event verify_event_id event_id_of to_id_preimage
    to_signing_preimage from_hex string_at to_hex text_discrete get_session insert_message has_event
    last_sequence_of sequence_key add_message last_message_at purge_channel allow allow_text
    sweep_if_large sweep recent is_valid_body code_points utf8_length has_mark_run trim Map.get
    Map.set Map.has
test_second = Memᴰ.tail (Memᴰ.head refl)

posts_are_signed_example :
    ((new_gateway store chain).store.messages ≡ (new_gateway store chain).store.messages)
    × (Memᴰ second_row (new_gateway store chain).store.messages
        ⊎ Posted runtime config 10
            (new_gateway store chain)
            (some (codes "token"))
            20
            public_room
            (ok second)
            second_row.message)
posts_are_signed_example =
    posts_are_signed runtime config 10 (new_gateway store chain) (new_gateway store chain)
      (some (codes "token")) (session, certificate) 20 public_room (ok second)
      (new_gateway store chain) second_row test_authenticated test_second

abbrev payload : ChannelPayload
payload = record { channel = codes "public"; body = codes "hi" }
