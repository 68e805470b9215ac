-- ===== src/Gateway/Sessions.antt =====
-- packages/gateway/src/gateway.ts: `endSession`, `sweepSessions`, `authenticate`, `describeSession`,
-- `logout` and `sessionInfo`.
use nexnet.Common.{
  ℕ, ◌+◌, ◌-◌, Bool, false, true, Option, none, some, List, [], ◌∷◌, ◌++◌, map, leb, if◌then◌else◌,
  Text, codes, same, take, drop, length, filter_by,
}
use nexnet.Protocol.Types.{DeviceCertificate, IdentityRecord}
use nexnet.Chain.Devices.{resolve_device_certificate}
use nexnet.Chain.Identity.{get_identity}
use nexnet.Gateway.Store.{
  Store, StoredSession, get_session, delete_session, last_sequence_of, sessions_for_identity,
}
use nexnet.Gateway.State.{
  Gateway, GatewayConfig, Runtime, SocketData, Frame, session_revoked, closed, Act, unauthenticated,
  revoked, invalid, ◌>>=◌, ◌>>◌, done, looks, changes, throw_when, required, hex_bytes,
}

abbrev pub has_token : Text → Option Text → Bool
has_token token_hash none = false
has_token token_hash (some t) = same t token_hash

abbrev release_socket : Text → ℕ × SocketData → ℕ × SocketData
release_socket token_hash (ws, socket) = (
  ws,
  if has_token token_hash socket.token_hash then record socket { token_hash = none } else socket,
)

abbrev notices : List (ℕ × SocketData) → List (ℕ × Frame)
notices [] = []
notices ((ws, socket) ∷ rest) = (ws, session_revoked) ∷ (ws, closed 4401) ∷ notices rest

unfoldable pub end_session : Text → Gateway → Gateway
end_session token_hash g = record g {
  store = delete_session token_hash g.store;
  sockets = map (release_socket token_hash) g.sockets;
  sent = g.sent ++ notices (filter_by (λ e. has_token token_hash e.1.token_hash) g.sockets);
}

-- The certificate behind a session.
unfoldable pub certificate_of : ℕ → StoredSession → Act (Option DeviceCertificate)
certificate_of now session = do
  identity_id ← required (hex_bytes session.identity) invalid
  device_id ← required (hex_bytes session.device) invalid
  looks (λ g. resolve_device_certificate now identity_id device_id g.chain)

unfoldable pub end_unless : Text → Option DeviceCertificate → Act (Unit {0})
end_unless token_hash none = changes (end_session token_hash)
end_unless token_hash (some certificate) = done tt

unfoldable pub sweep_each : ℕ → List StoredSession → Act (Unit {0})
unfolding end_unless
sweep_each now [] = done tt
sweep_each now (session ∷ sessions) = do
  certificate ← certificate_of now session
  end_unless session.token_hash certificate
  sweep_each now sessions

unfoldable pub sweep_sessions : ℕ → Text → Act (Unit {0})
unfolding sweep_each
sweep_sessions now identity_hex = do
  sessions ← looks (λ g. sessions_for_identity identity_hex g.store)
  sweep_each now sessions

-- A certificate that is gone ends the session.
unfoldable pub or_end :
    Text → StoredSession → Option DeviceCertificate → Act (StoredSession × DeviceCertificate)
or_end token_hash session none = do changes (end_session token_hash); required none revoked
or_end token_hash session (some certificate) = done (session, certificate)

unfoldable pub end_if_expired : ℕ → Text → StoredSession → Act (Unit {0})
end_if_expired now token_hash session =
    if leb session.expires_at now
    then (changes (end_session token_hash) >> throw_when true unauthenticated)
    else done tt

module _ (runtime : Runtime) where
  unfoldable pub authenticate : ℕ → Text → Act (StoredSession × DeviceCertificate)
  unfolding or_end end_if_expired
  authenticate now token = do
    let token_hash = runtime.hash_token token
    found ← looks (λ g. get_session token_hash g.store)
    session ← required found unauthenticated
    end_if_expired now token_hash session
    certificate ← certificate_of now session
    or_end token_hash session certificate

  -- `this.authenticate(this.bearer(req))`: `bearer` is the token of the header, if there is one.
  unfoldable pub authenticate_bearer : ℕ → Option Text → Act (StoredSession × DeviceCertificate)
  authenticate_bearer now bearer = do
    token ← required bearer unauthenticated
    authenticate now token

  unfoldable pub logout : Option Text → Act (Unit {0})
  logout bearer = do
    token ← required bearer unauthenticated
    changes (end_session (runtime.hash_token token))

pub record SessionView : Type 0 where
  pub identity_id : Text
  pub device_id : Text
  pub method : Text
  pub expires_at : ℕ
  pub next_sequence : ℕ
  pub owner : Bool

-- `config.ownerIdentity !== null && session.identity === config.ownerIdentity`
abbrev pub is_owner : GatewayConfig → Text → Bool
is_owner config identity = has_token identity config.owner_identity

unfoldable pub describe_session : GatewayConfig → StoredSession → Store → SessionView
describe_session config session store = record {
  identity_id = session.identity;
  device_id = session.device;
  method = session.method;
  expires_at = session.expires_at;
  next_sequence = last_sequence_of (session.identity ++ (b':' ∷ session.device)) store + 1;
  owner = is_owner config session.identity;
}

-- `nx1${identityHex.slice(0, 4)}…${identityHex.slice(-4)}`
unfoldable pub short_identity : Text → Text
short_identity identity_hex =
    codes "nx1" ++ (take 4 identity_hex ++ (0x2026 ∷ drop (length identity_hex - 4) identity_hex))

-- `identity?.username ?? null`
abbrev pub username_of : Option IdentityRecord → Option Text
username_of none = none
username_of (some identity) = identity.username

module _ (runtime : Runtime) (config : GatewayConfig) where
  unfoldable pub session_info : ℕ → Option Text → Act (SessionView × Text × Option Text)
  session_info now bearer = do
    authenticated ← authenticate_bearer runtime now bearer
    let session = authenticated.0
    identity_id ← required (hex_bytes session.identity) invalid
    looks (λ g. (
      describe_session config session g.store,
      short_identity session.identity,
      username_of (get_identity identity_id g.chain),
    ))
