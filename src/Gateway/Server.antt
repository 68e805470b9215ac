-- ===== src/Gateway/Server.antt =====
-- packages/gateway/src/gateway.ts: `route` and the events of the sockets, as steps of the gateway. A
-- method that awaits the body of its request is two steps, and other requests come in between. A
-- history is a list of steps with their times.
mod Tests
pub mod Holds
pub mod Revoked
pub mod Signed
use nexnet.Common.{ℕ, ◌||◌, Option, none, some, List, [], ◌∷◌, Result, ok, err, Text, length, ◌==◌}
use nexnet.Common.Map
use nexnet.Common.Map.{Map, object_key}
use nexnet.Protocol.Types.{DeviceCertificate, Revocation}
use nexnet.Protocol.Events.{NexnetEvent}
use nexnet.Gateway.Bodies.{ChannelId}
use nexnet.Gateway.Store.{StoredSession}
use nexnet.Gateway.State.{
  Gateway, GatewayConfig, Runtime, ErrorCode, unavailable, Act, ◌>>=◌, ◌>>◌, done, throw_when,
  limit_challenge, limit_mutation,
}
use nexnet.Gateway.Accounts.{
  IdentityBody, SshBody, PasskeyBody, is_none, create_identity, finish_register_ssh,
  finish_register_passkey, finish_revoke,
}
use nexnet.Gateway.SignIn.{ChallengeBody, Draws, finish_issue_challenge}
use nexnet.Gateway.Verification.{VerifyBody, finish_verify_challenge}
use nexnet.Gateway.Sessions.{authenticate_bearer, logout, session_info}
use nexnet.Gateway.Channels.{read_messages, finish_post}
use nexnet.Gateway.Streams.{StreamFrame, socket_open, socket_close, socket_message, socket_timeout}

-- The requests whose method does something before it awaits the body, with the address of the client
-- or its token.
pub data Arrival : Type 0 where
  ssh_arrives passkey_arrives revocation_arrives challenge_arrives verification_arrives :
      Text → Arrival
  post_arrives : ChannelId → Option Text → Arrival

-- A method that awaits its body, with what it holds.
pub data Suspended : Type 0 where
  awaits_ssh awaits_passkey awaits_revocation awaits_challenge awaits_verification : Suspended
  awaits_post : ChannelId → StoredSession × DeviceCertificate → Suspended

-- A body, as each method would read it, and the values that a method draws.
pub record BodyRead : Type 0 where
  pub as_ssh : Result ErrorCode SshBody
  pub as_passkey : Result ErrorCode PasskeyBody
  pub as_revocation : Result ErrorCode Revocation
  pub as_challenge : Result ErrorCode ChallengeBody
  pub as_verification : Result ErrorCode VerifyBody
  pub as_event : Result ErrorCode NexnetEvent
  pub draws : Draws
  pub token : Text

-- `createIdentity` does nothing before its body was read. A request that awaits its body has a number.
pub data Request : Type 0 where
  identity_request : Text → Result ErrorCode IdentityBody → Request
  arrives : ℕ → Arrival → Request
  body_arrives : ℕ → BodyRead → Request
  logout_request session_request : Option Text → Request
  read_request : ChannelId → Option (Option ℕ) → Option (Option ℕ) → Request
  socket_opens socket_closes timer_fires : ℕ → Request
  socket_sends : ℕ → Result ErrorCode StreamFrame → Request

-- The gateway, and its methods that await a body.
pub record Server : Type 0 where
  pub gateway : Gateway
  pub waiting : Map ℕ Suspended

unfoldable pub suspend : ℕ → Gateway × Result ErrorCode Suspended → Server → Server
suspend id (g, ok w) s = record { gateway = g; waiting = Map.set s.waiting id w }
suspend id (g, err e) s = record s { gateway = g }

module _ (runtime : Runtime) (config : GatewayConfig) where
  unfoldable pub begin_register_passkey : ℕ → Text → Act (Unit {0})
  begin_register_passkey now ip = do
    limit_mutation now ip
    throw_when (is_none config.rp_id || (length config.origins == 0)) unavailable

  -- Up to the `await this.body(req)`.
  unfoldable pub begin : ℕ → Arrival → Act Suspended
  begin now (ssh_arrives ip) = do limit_mutation now ip; done awaits_ssh
  begin now (passkey_arrives ip) = do begin_register_passkey now ip; done awaits_passkey
  begin now (revocation_arrives ip) = do limit_mutation now ip; done awaits_revocation
  begin now (challenge_arrives ip) = do limit_challenge now ip; done awaits_challenge
  begin now (verification_arrives ip) = do limit_challenge now ip; done awaits_verification
  begin now (post_arrives channel bearer) = do
    authenticated ← authenticate_bearer runtime now bearer
    done (awaits_post channel authenticated)

  -- From there on.
  unfoldable pub finish : ℕ → Suspended → BodyRead → Gateway → Gateway
  finish now awaits_ssh body g = (finish_register_ssh runtime body.as_ssh g).0
  finish now awaits_passkey body g = (finish_register_passkey runtime config body.as_passkey g).0
  finish now awaits_revocation body g = (finish_revoke runtime now body.as_revocation g).0
  finish now awaits_challenge body g =
      (finish_issue_challenge config now body.draws body.as_challenge g).0
  finish now awaits_verification body g =
      (finish_verify_challenge runtime config now body.token body.as_verification g).0
  finish now (awaits_post channel authenticated) body g =
      (finish_post runtime config now channel authenticated body.as_event g).0

  unfoldable pub resume : ℕ → ℕ → BodyRead → Option Suspended → Server → Server
  unfolding finish
  resume now id body none s = s
  resume now id body (some w) s = record {
    gateway = finish now w body s.gateway;
    waiting = Map.delete s.waiting id;
  }

  unfoldable pub handle : ℕ → Request → Server → Server
  unfolding begin resume
  handle now (identity_request ip body) s = record s {
    gateway = (create_identity runtime now ip body s.gateway).0;
  }
  handle now (arrives id arrival) s = suspend id (begin now arrival s.gateway) s
  handle now (body_arrives id body) s = resume now id body (Map.get s.waiting id) s
  handle now (logout_request bearer) s = record s { gateway = (logout runtime bearer s.gateway).0 }
  handle now (session_request bearer) s = record s {
    gateway = (session_info runtime config now bearer s.gateway).0;
  }
  handle now (read_request channel limit before) s = record s {
    gateway = (read_messages config now channel limit before s.gateway).0;
  }
  handle now (socket_opens ws) s = record s { gateway = socket_open ws s.gateway }
  handle now (socket_closes ws) s = record s { gateway = socket_close ws s.gateway }
  handle now (timer_fires ws) s = record s { gateway = socket_timeout ws s.gateway }
  handle now (socket_sends ws frame) s = record s {
    gateway = socket_message runtime now ws frame s.gateway;
  }

  unfoldable pub handle_all : List (ℕ × Request) → Server → Server
  unfolding handle
  handle_all [] s = s
  handle_all ((now, request) ∷ requests) s = handle_all requests (handle now request s)
