-- ===== src/Relay/Tests.antt =====
-- A relay of workers/relay/src/index.ts with one client, whose root key signs its proof.
use nexnet.Common.Hex.{is_id_hex}
use nexnet.Common.{
  ℕ, arith, ◌≡◌, refl, true, false, none, some, [], ◌∷◌, Bytes, Text, codes, same, repeat, to_hex,
  text_discrete,
}
use nexnet.Common.Map
use nexnet.Common.Map.{text_key, object_key}
use nexnet.Crypto.{Crypto}
use nexnet.Protocol.IdentityAuth.{
  IdentityProof, verify_identity_auth_json, verify_identity_auth, signed_by,
}
use nexnet.Protocol.Wire.{from_hex, from_hex-to_hex}
use nexnet.Protocol.Credentials.{identity_id_from_wallet}
use nexnet.Relay.State.{Relay, PendingAuth, auth, room_subscribe, empty_relay, send_ws}
use nexnet.Relay.Rooms.{subscribed, add_subscriber}
use nexnet.Relay.Session.{
  handle_upgrade, web_socket_message, handle_auth, verified_as, accepted, admit, connect,
  stop_waiting, replace_connection, notify_presence, notify_all, sender_of, dispatch,
  subscribe_room, drop_socket,
}
use nexnet.Relay.Session.Invariant.{IsConsistent}
use nexnet.Relay.Session.Reachable.{Reachable, start, next, upgraded, said, tables_agree}
use nexnet.Relay.Session.Proofs.{authentication_needs_proof, gone_from_every_room}

-- An identity is its root key, and a signature is the key.
abbrev crypto : Crypto
crypto = record {
  verify = λ key message signature. same key signature;
  derive_id = λ domain key. key;
  sha256 = λ bytes. bytes;
  cde_encode = λ fields. [];
}

abbrev alice : Bytes
alice = repeat 32 171

abbrev alice_hex : Text
unfolding to_hex
alice_hex = to_hex alice

abbrev phone : Text
phone = repeat 64 b'7'

abbrev proof : IdentityProof
proof = record { root_public_key = alice; certificate = none; signature = alice }

waiting : Relay
waiting = (handle_upgrade 1 alice_hex phone (codes "relay") (codes "nonce") empty_relay).0

connected : Relay
connected = web_socket_message crypto 10 1 (auth (some proof)) waiting

in_room : Relay
in_room = web_socket_message crypto 20 1 (room_subscribe (codes "lobby")) connected

waiting_reached : Reachable crypto waiting
unfolding waiting Map.get
waiting_reached = next _ _ start (upgraded 1 alice_hex phone (codes "relay") (codes "nonce") refl)

in_room_reached : Reachable crypto in_room
unfolding in_room connected
in_room_reached =
    next _ _ (next _ _ waiting_reached (said 10 1 (auth (some proof))))
      (said 20 1 (room_subscribe (codes "lobby")))

tables_agree_example : IsConsistent in_room
tables_agree_example = tables_agree crypto in_room in_room_reached

waiting_for : PendingAuth
waiting_for = record {
  identity = alice_hex;
  device = phone;
  audience = codes "relay";
  nonce = codes "nonce";
}

authentication_needs_proof_example :
    (◌≡◌ {A = ℕ} 1 1)
    × (p : PendingAuth) × (Map.get waiting.pending 1 ≡ some p)
    × (p.identity ≡ alice_hex)
    × (accepted (verified_as crypto 10 p (auth (some proof))) p.device ≡ true)
unfolding waiting connected handle_upgrade is_id_hex send_ws Map.get Map.set Map.delete
    text_discrete to_hex web_socket_message handle_auth accepted verified_as
    verify_identity_auth_json from_hex verify_identity_auth signed_by identity_id_from_wallet admit
    connect stop_waiting replace_connection notify_presence notify_all
authentication_needs_proof_example =
    authentication_needs_proof crypto 10 1 (auth (some proof)) waiting 1 alice_hex waiting_reached
      refl refl

gone_from_every_room_example :
    (Map.get (drop_socket 1 in_room).connections alice_hex ≡ none)
    × (subscribed (drop_socket 1 in_room).room_subscriptions (codes "lobby") alice_hex ≡ false)
unfolding waiting connected in_room handle_upgrade is_id_hex send_ws Map.get Map.set Map.delete
    text_discrete to_hex web_socket_message handle_auth accepted verified_as
    verify_identity_auth_json from_hex verify_identity_auth signed_by identity_id_from_wallet admit
    connect stop_waiting replace_connection notify_presence notify_all sender_of dispatch
    subscribe_room add_subscriber
gone_from_every_room_example =
    gone_from_every_room crypto 1 in_room alice_hex (codes "lobby") in_room_reached refl

from_hex-to_hex_example : from_hex (to_hex (0 ∷ 10 ∷ 255 ∷ [])) ≡ some (0 ∷ 10 ∷ 255 ∷ [])
from_hex-to_hex_example =
    from_hex-to_hex (0 ∷ 10 ∷ 255 ∷ []) (omega arith, (omega arith, (omega arith, tt)))
