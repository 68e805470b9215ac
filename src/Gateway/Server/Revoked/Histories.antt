-- ===== src/Gateway/Server/Revoked/Histories.antt =====
-- A revoked device over histories of requests.
use mathlib.Core.List.{Memᴰ}
use nexnet.Common.{
  ℕ, ◌≡◌, refl, subst, arith, ◌⊎◌, ℕ_discrete, true, inl, Option, some, none, List, [], ◌∷◌, Result,
  ok, err, Bytes, to_hex, All-map, All-Memᴰ, All-lookup,
}
use nexnet.Common.Hex.{IsBytes}
use nexnet.Common.Map
use nexnet.Common.Map.{Map, text_key, object_key, get-set, get-delete}
use nexnet.Protocol.Types.{CredentialKind, DeviceCertificate}
use nexnet.Chain.State.{is_revoked_key}
use nexnet.Chain.Revocations.{is_revoked}
use nexnet.Gateway.Store.{NewMessage, StoredMessage, StoredSession}
use nexnet.Gateway.State.{Gateway, GatewayConfig, Runtime, ErrorCode}
use nexnet.Gateway.Bodies.{ChannelId, channel_text}
use nexnet.Gateway.Streams.{socket_open, socket_close}
use nexnet.Gateway.Server.{
  Server, Suspended, awaits_ssh, awaits_passkey, awaits_revocation, awaits_challenge,
  awaits_verification, awaits_post, BodyRead, Request, identity_request, arrives, body_arrives,
  logout_request, session_request, read_request, socket_opens, socket_closes, timer_fires,
  socket_sends, suspend, resume, handle, handle_all,
}
use nexnet.Gateway.Server.Holds.{Outcome, Holds-state}
use nexnet.Gateway.Server.Revoked.{Old, Silenced}
use nexnet.Gateway.Server.Revoked.Accounts.{create_identity-Kept}
use nexnet.Gateway.Server.Revoked.Posts.{
  logout-Kept, session_info-Kept, read_messages-Kept, socket_message-Quiet,
}
use nexnet.Gateway.Server.Revoked.Steps.{
  Harmless, begin-Harmless, finish-Quiet, socket_timeout-Quiet,
}

-- A message with the identity, the device and the channel of a post that awaits its body.
pub record InFlight (waiting : Map ℕ Suspended) (message : NewMessage) : Type 0 where
  pub id : ℕ
  pub channel : ChannelId
  pub session : StoredSession
  pub certificate : DeviceCertificate
  pub awaits : Map.get waiting id ≡ some (awaits_post channel (session, certificate))
  pub same_channel : message.channel ≡ channel_text channel
  pub same_identity : message.identity ≡ session.identity
  pub same_device : message.device ≡ session.device

module _ (runtime : Runtime) (config : GatewayConfig) where
  module _ (identity_id device_id : Bytes) (old : List StoredMessage) (late : NewMessage → Type 0)
      (ids : IsBytes identity_id × IsBytes device_id) where
    abbrev Quiet : Gateway → Type 0
    Quiet = Silenced identity_id device_id old late

    abbrev HarmlessHere : Suspended → Type 0
    HarmlessHere = Harmless runtime config identity_id device_id old late ids

    record IsQuiet (s : Server) : Type 0 where
      quiet : Quiet s.gateway
      harmless : (id : ℕ) (w : Suspended) → Map.get s.waiting id ≡ some w → HarmlessHere w

    on_gateway :
        (s : Server) (g : Gateway) → IsQuiet s → Quiet g → IsQuiet (record s { gateway = g })
    on_gateway s g v q = record { quiet = q; harmless = v.harmless }

    suspend-IsQuiet :
        (id : ℕ) (r : Gateway × Result ErrorCode Suspended) (s : Server)
        → IsQuiet s
        → Outcome Quiet HarmlessHere r
        → IsQuiet (suspend id r s)
    unfolding suspend Outcome
    suspend-IsQuiet id (g, err e) s v o = on_gateway s g v o
    suspend-IsQuiet id (g, ok w) s v o = record {
      quiet = o.0;
      harmless = λ j x e. elim (ℕ_discrete id j) [
        | yes same ↦
            let found : some w ≡ some x = ground (arith, same, e, get-set s.waiting id j w) in
            let same_waiting : w ≡ x = cc in subst HarmlessHere same_waiting o.1
        | no differ ↦ v.harmless j x (ground (arith, differ, e, get-set s.waiting id j w))
      ];
    }

    resume-IsQuiet :
        (now id : ℕ) (body : BodyRead) (o : Option Suspended) (s : Server)
        → Map.get s.waiting id ≡ o
        → IsQuiet s
        → IsQuiet (resume runtime config now id body o s)
    unfolding resume
    resume-IsQuiet now id body none s e v = v
    resume-IsQuiet now id body (some w) s e v = record {
      quiet =
          finish-Quiet runtime config identity_id device_id old late ids now w body s.gateway
            (v.harmless id w e) v.quiet;
      harmless = λ j x f. v.harmless j x (ground (arith, get-delete s.waiting id j, f));
    }

    handle-IsQuiet :
        (now : ℕ) (request : Request) (s : Server)
        → IsQuiet s
        → IsQuiet (handle runtime config now request s)
    unfolding handle socket_open socket_close
    handle-IsQuiet now (identity_request ip body) s v = on_gateway s _ v (
        Holds-state Quiet _
          (create_identity-Kept identity_id device_id old late runtime now ip body) s.gateway
          v.quiet)
    handle-IsQuiet now (arrives id arrival) s v = suspend-IsQuiet id _ s v (
        (begin-Harmless runtime config identity_id device_id old late ids now arrival).held
          s.gateway v.quiet)
    handle-IsQuiet now (body_arrives id body) s v = resume-IsQuiet now id body _ s refl v
    handle-IsQuiet now (logout_request bearer) s v = on_gateway s _ v (
        Holds-state Quiet _ (logout-Kept identity_id device_id old late ids runtime bearer)
          s.gateway v.quiet)
    handle-IsQuiet now (session_request bearer) s v = on_gateway s _ v (
        Holds-state Quiet _
          (session_info-Kept identity_id device_id old late ids runtime config now bearer) s.gateway
          v.quiet)
    handle-IsQuiet now (read_request channel limit before) s v = on_gateway s _ v (
        Holds-state Quiet _
          (read_messages-Kept identity_id device_id old late config now channel limit before)
          s.gateway v.quiet)
    handle-IsQuiet now (socket_opens ws) s v = on_gateway s _ v v.quiet
    handle-IsQuiet now (socket_closes ws) s v = on_gateway s _ v v.quiet
    handle-IsQuiet now (timer_fires ws) s v = on_gateway s _ v (
        socket_timeout-Quiet runtime config identity_id device_id old late ids ws s.gateway v.quiet)
    handle-IsQuiet now (socket_sends ws frame) s v = on_gateway s _ v (
        socket_message-Quiet identity_id device_id old late ids runtime now ws frame s.gateway
          v.quiet)

    handle_all-IsQuiet :
        (requests : List (ℕ × Request)) (s : Server)
        → IsQuiet s
        → IsQuiet (handle_all runtime config requests s)
    unfolding handle_all
    handle_all-IsQuiet [] s v = v
    handle_all-IsQuiet ((now, request) ∷ requests) s v =
        handle_all-IsQuiet requests (handle runtime config now request s)
          (handle-IsQuiet now request s v)

  waiting-Harmless :
      (identity_id device_id : Bytes) (old : List StoredMessage)
      (ids : IsBytes identity_id × IsBytes device_id) (waiting : Map ℕ Suspended) (id : ℕ)
      (w : Suspended)
      → Map.get waiting id ≡ some w
      → Harmless runtime config identity_id device_id old (InFlight waiting) ids w
  unfolding Harmless
  waiting-Harmless i d old ids waiting id (awaits_post channel authenticated) e =
      λ m in_channel same_identity same_device _ _. record {
        id = id;
        channel = channel;
        session = authenticated.0;
        certificate = authenticated.1;
        awaits = e;
        same_channel = in_channel;
        same_identity = same_identity;
        same_device = same_device;
      }
  waiting-Harmless i d old ids waiting id awaits_ssh e = tt
  waiting-Harmless i d old ids waiting id awaits_passkey e = tt
  waiting-Harmless i d old ids waiting id awaits_revocation e = tt
  waiting-Harmless i d old ids waiting id awaits_challenge e = tt
  waiting-Harmless i d old ids waiting id awaits_verification e = tt

  -- In a state in which a device is revoked, take any history: every message of the device that is stored
  -- at its end was stored before, or has the identity, the device and the channel of a post that, in that
  -- state, was past its authentication and awaited its body. So it is whatever requests come, from
  -- whomever and at any time, also where the device still has a session or a pending challenge, or where
  -- another credential vouches for it again. Ids are byte arrays.
  pub revoked_device_is_silenced :
      (identity_id device_id : Bytes) (requests : List (ℕ × Request)) (s : Server)
      (row : StoredMessage)
      → IsBytes identity_id × IsBytes device_id
      → is_revoked identity_id CredentialKind.device (to_hex device_id) s.gateway.chain ≡ true
      → Memᴰ row (handle_all runtime config requests s).gateway.store.messages
      → row.message.identity ≡ to_hex identity_id
      → row.message.device ≡ to_hex device_id
      → Memᴰ row s.gateway.store.messages ⊎ InFlight s.waiting row.message
  unfolding is_revoked is_revoked_key
  revoked_device_is_silenced identity_id device_id requests s row ids gone listed =
      let rows = s.gateway.store.messages in
      let start : IsQuiet identity_id device_id rows (InFlight s.waiting) ids s = record {
        quiet = (gone, All-map (λ x m _ _. inl m) rows (All-Memᴰ rows));
        harmless = waiting-Harmless identity_id device_id rows ids s.waiting;
      } in
      All-lookup (Old identity_id device_id rows (InFlight s.waiting)) listed
        (handle_all-IsQuiet identity_id device_id rows (InFlight s.waiting) ids requests s
          start).quiet.1
