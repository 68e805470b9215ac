-- ===== src/Gateway/Streams.antt =====
-- packages/gateway/src/gateway.ts: `onSocketOpen`, `onSocketClose`, `onSocketMessage` and the timer of
-- a socket.
use nexnet.Common.{
  ℕ, true, false, not, Option, none, some, List, [], ◌∷◌, ◌++◌, ltb, Result, ok, err, Text, length,
}
use nexnet.Common.Map
use nexnet.Common.Map.{object_key}
use nexnet.Gateway.Bodies.{ChannelId, updates, public_room}
use nexnet.Gateway.State.{
  Gateway, Runtime, SocketData, stream_ready, stream_error, closed, Act, ErrorCode, invalid, ◌>>=◌,
  ◌>>◌, done, changes, throw_when, required, read,
}
use nexnet.Gateway.Sessions.{authenticate}
use nexnet.Gateway.Accounts.{is_none}

pub data TokenField : Type 0 where
  no_token not_a_text : TokenField
  token_text : Text → TokenField

-- A frame: its token, and its channels if the field is there, which are `none` where one of them is no
-- channel or the field is no array.
pub record StreamFrame : Type 0 where
  pub token : TokenField
  pub channels : Option (Option (List ChannelId))

unfoldable pub socket_open : ℕ → Gateway → Gateway
socket_open ws g = record g {
  sockets = Map.set g.sockets ws (record { token_hash = none; channels = []; ready = false });
}

unfoldable pub socket_close : ℕ → Gateway → Gateway
socket_close ws g = record g { sockets = Map.delete g.sockets ws }

-- The timer goes off while the socket is open and not ready.
unfoldable pub socket_timeout : ℕ → Gateway → Gateway
socket_timeout ws g = elim (Map.get g.sockets ws) [
  | none ↦ g
  | some socket ↦ elim socket.ready [
    | true ↦ g
    | false ↦ record g { sent = g.sent ++ ((ws, closed 4408) ∷ []) }
  ]
]

unfoldable pub requested_channels : Option (Option (List ChannelId)) → Option (List ChannelId)
requested_channels none = some (updates ∷ public_room ∷ [])
requested_channels (some channels) = channels

unfoldable pub make_ready : ℕ → SocketData → Gateway → Gateway
make_ready ws socket g = record g {
  sockets = Map.set g.sockets ws socket;
  sent = g.sent ++ ((ws, stream_ready (not (is_none socket.token_hash))) ∷ []);
}

-- What `catch` sends and closes with.
unfoldable pub or_refuse : ℕ → Gateway × Result ErrorCode (Unit {0}) → Gateway
or_refuse ws (g, ok _) = g
or_refuse ws (g, err e) = record g {
  sent = g.sent ++ ((ws, stream_error e) ∷ (ws, closed 4400) ∷ []);
}

module _ (runtime : Runtime) where
  unfoldable pub token_of : ℕ → TokenField → Act (Option Text)
  token_of now no_token = done none
  token_of now not_a_text = required none invalid
  token_of now (token_text token) = do
    authenticated ← authenticate runtime now token
    done (some authenticated.0.token_hash)

  unfoldable pub subscribe : ℕ → ℕ → Result ErrorCode StreamFrame → Act (Unit {0})
  unfolding token_of requested_channels make_ready
  subscribe now ws frame = do
    input ← read frame
    token_hash ← token_of now input.token
    channels ← required (requested_channels input.channels) invalid
    throw_when (ltb 2 (length channels)) invalid
    changes (make_ready ws (record { token_hash = token_hash; channels = channels; ready = true }))

  unfoldable pub socket_message : ℕ → ℕ → Result ErrorCode StreamFrame → Gateway → Gateway
  unfolding or_refuse
  socket_message now ws frame g = elim (Map.get g.sockets ws) [
    | none ↦ g
    | some socket ↦ elim socket.ready [ true ↦ g | false ↦ or_refuse ws (subscribe now ws frame g) ]
  ]
