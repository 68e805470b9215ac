-- ===== src/Relay/State.antt =====
-- workers/relay/src/index.ts: the state of a `RelaySession`, the messages of its clients and the
-- frames it sends. A socket is its object identity, a number; JSON values that the relay passes on
-- unread are texts.
use nexnet.Common.{ℕ, Option, List, [], ◌∷◌, ◌++◌, Text}
use nexnet.Common.Map.{Map}
use nexnet.Protocol.IdentityAuth.{IdentityProof}

-- `Set<string>`: its members, in order.
abbrev pub Members : Type 0
Members = Map Text (Unit {0})

pub record ConnectionEntry : Type 0 where
  pub ws : ℕ
  pub identity : Text
  pub device : Text
  pub rooms : Members

pub record PendingAuth : Type 0 where
  pub identity : Text
  pub device : Text
  pub audience : Text
  pub nonce : Text

-- `session_offer`, `session_answer` and `candidate`.
pub record Signal : Type 0 where
  pub kind : Text
  pub to : Text
  pub body : Text
  session_id : Text

-- `auth` carries the proof that can be read from it; `unknown` is a message of no known type.
pub data RelayMessage : Type 0 where
  signaling : Signal → RelayMessage
  dm : Text → List ℕ → RelayMessage
  delivery_receipt : Text → Text → RelayMessage
  room_subscribe : Text → RelayMessage
  room_unsubscribe : Text → RelayMessage
  room_event : Text → Text → RelayMessage
  auth : Option IdentityProof → RelayMessage
  invalid unknown : RelayMessage

pub data Status : Type 0 where
  online offline : Status

-- What goes out on a socket; `closed` is `ws.close(code, reason)`.
pub data Frame : Type 0 where
  error : Text → Frame
  auth_challenge : Text → Frame
  authenticated : Text → Frame
  presence_snapshot : List Text → Frame
  presence_update : Text → Status → Frame
  dm_from : Text → List ℕ → Frame
  receipt_from : Text → Text → Frame
  signal_from : Text → Signal → Frame
  event_in : Text → Text → Frame
  closed : ℕ → Text → Frame

-- `sent` is every frame sent so far, the last one last; a send to a dead socket is one too.
pub record Relay : Type 0 where
  pub connections : Map Text ConnectionEntry
  pub room_subscriptions : Map Text Members
  pub pending : Map ℕ PendingAuth
  pub socket_identity : Map ℕ Text
  pub sent : List (ℕ × Frame)

abbrev pub empty_relay : Relay
empty_relay = record {
  connections = [];
  room_subscriptions = [];
  pending = [];
  socket_identity = [];
  sent = [];
}

unfoldable pub send_ws : ℕ → Frame → Relay → Relay
send_ws ws frame s = record s { sent = s.sent ++ ((ws, frame) ∷ []) }
