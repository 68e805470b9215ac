-- ===== src/Gateway/State.antt =====
-- packages/gateway/src/gateway.ts: the fields of the class `Gateway`, and its methods as actions that
-- change them and throw.
use nexnet.Common.{
  ℕ, ◌*◌, Bool, true, false, Option, none, some, List, [], Result, ok, err, Bytes, Text, codes,
  length, ◌==◌, if◌then◌else◌,
}
use nexnet.Common.Map.{Map}
use nexnet.Crypto.{Json}
use nexnet.Protocol.Types.{DeviceCertificate}
use nexnet.Protocol.Wire.{from_hex}
use nexnet.Chain.State.{Chain, ChainError}
use nexnet.Chain.Calls.{Platform}
use nexnet.Gateway.Store.{Store}
use nexnet.Gateway.Limits.{Hits, Said, allow}
use nexnet.Gateway.Bodies.{ChannelId, updates, public_room, Unicode}

-- The codes of `HttpError`; a `WireError` has the code `invalid`, any other error `internal`.
pub data ErrorCode : Type 0 where
  invalid unauthenticated forbidden revoked not_found conflict duplicate stale_sequence : ErrorCode
  rate_limited unavailable too_large internal : ErrorCode

pub record GatewayConfig : Type 0 where
  pub audience : Text
  pub owner_identity : Option Text
  pub rp_id : Option Text
  pub origins : List Text
  pub public_retention_ms : ℕ
  pub session_max_ms : ℕ

-- What the gateway calls and does not implement.
pub record Runtime : Type 0 where
  pub chain_platform : Platform
  pub unicode : Unicode
  -- `hashToken`: SHA-256 in hex, from Node
  pub hash_token : Text → Text
  -- cbor2: an object, if the bytes encode one
  pub cde_decode : Bytes → Option (List (Text × Json))
  -- `verifySshSignature`, by armored signature, message and key
  pub verify_ssh_signature : Text → Bytes → Bytes → Bool

pub data SignInMethod : Type 0 where
  wallet ssh passkey : SignInMethod

abbrev pub method_text : SignInMethod → Text
method_text wallet = codes "wallet"
method_text ssh = codes "ssh"
method_text passkey = codes "passkey"

pub record PendingChallenge : Type 0 where
  pub id : Text
  pub method : SignInMethod
  pub nonce : Text
  pub expires_at : ℕ
  pub certificate : DeviceCertificate
  pub passkey_challenge : Option Text

-- `channels` is a set, of which only the membership is read. The timer is an event of its own.
pub record SocketData : Type 0 where
  pub token_hash : Option Text
  pub channels : List ChannelId
  pub ready : Bool

pub record PublicMessage : Type 0 where
  pub id : Text
  pub channel : Text
  pub author : Text
  pub short : Text
  pub username : Option Text
  pub body : Text
  pub at : ℕ
  pub seq : ℕ

-- What is sent on a socket, and with which code it is closed.
pub data Frame : Type 0 where
  session_revoked : Frame
  channel_message : ChannelId → PublicMessage → Frame
  stream_ready : Bool → Frame
  stream_error : ErrorCode → Frame
  closed : ℕ → Frame

-- A map with the two channels as its keys, both there from the constructor on.
pub record PerChannel (A : Type 0) : Type 0 where
  pub updates_part : A
  pub public_part : A

abbrev pub part : {A : Type 0} → ChannelId → PerChannel A → A
part updates m = m.updates_part
part public_room m = m.public_part

abbrev pub set_part : {A : Type 0} → ChannelId → A → PerChannel A → PerChannel A
set_part updates a m = record m { updates_part = a }
set_part public_room a m = record m { public_part = a }

pub record Gateway : Type 0 where
  pub store : Store
  pub chain : Chain
  pub challenges : Map Text PendingChallenge
  pub sockets : Map ℕ SocketData
  pub post_limits : PerChannel Hits
  pub duplicate_guards : PerChannel (Map Text (List Said))
  pub identity_create_limit : Hits
  pub identity_create_global : Hits
  pub challenge_limit : Hits
  pub mutation_limit : Hits
  pub sent : List (ℕ × Frame)

unfoldable pub new_gateway : Store → Chain → Gateway
new_gateway store chain = record {
  store = store;
  chain = chain;
  challenges = [];
  sockets = [];
  post_limits = record { updates_part = []; public_part = [] };
  duplicate_guards = record { updates_part = []; public_part = [] };
  identity_create_limit = [];
  identity_create_global = [];
  challenge_limit = [];
  mutation_limit = [];
  sent = [];
}

-- A method: what it changed before it threw stays changed.
abbrev pub Act : Type 0 → Type 0
Act A = Gateway → Gateway × Result ErrorCode A

infixl 5 ◌>>=◌ ◌>>◌
abbrev pub continue :
    {A B : Type 0} → (A → Act B) → Gateway × Result ErrorCode A → Gateway × Result ErrorCode B
continue f (g, ok a) = f a g
continue f (g, err e) = (g, err e)

unfoldable pub ◌>>=◌ : {A B : Type 0} → Act A → (A → Act B) → Act B
(m >>= f) g = continue f (m g)

unfoldable pub ◌>>◌ : {B : Type 0} → Act (Unit {0}) → Act B → Act B
(m >> k) g = continue (λ _. k) (m g)

unfoldable pub done : {A : Type 0} → A → Act A
done a g = (g, ok a)

unfoldable pub looks : {A : Type 0} → (Gateway → A) → Act A
looks f g = (g, ok (f g))

unfoldable pub changes : (Gateway → Gateway) → Act (Unit {0})
changes f g = (f g, ok tt)

-- `if (bad) throw e`
unfoldable pub throw_when : Bool → ErrorCode → Act (Unit {0})
throw_when true e g = (g, err e)
throw_when false e g = (g, ok tt)

-- A value that is missing, or that a reader throws on.
unfoldable pub required : {A : Type 0} → Option A → ErrorCode → Act A
required none e g = (g, err e)
required (some a) e g = (g, ok a)

-- `record`, `JSON.parse` and the size tests of `body` throw errors of different codes.
unfoldable pub read : {A : Type 0} → Result ErrorCode A → Act A
read r g = (g, r)

abbrev pub with_chain :
    {A : Type 0}
    → Gateway
    → ErrorCode
    → Result ChainError (Chain × A)
    → Gateway × Result ErrorCode A
with_chain g e (ok (chain, a)) = (record g { chain = chain }, ok a)
with_chain g e (err _) = (g, err e)

-- `try { await this.chain... } catch { throw new HttpError(..., e, ...) }`
unfoldable pub on_chain : {A : Type 0} → (Chain → Result ChainError (Chain × A)) → ErrorCode → Act A
on_chain op e g = with_chain g e (op g.chain)

abbrev pub with_chain_always :
    {A : Type 0} → Gateway → ErrorCode → Chain × Result ChainError A → Gateway × Result ErrorCode A
with_chain_always g e (chain, ok a) = (record g { chain = chain }, ok a)
with_chain_always g e (chain, err _) = (record g { chain = chain }, err e)

-- The same, for the one method of the chain that writes before it throws.
unfoldable pub on_chain_always :
    {A : Type 0} → (Chain → Chain × Result ChainError A) → ErrorCode → Act A
on_chain_always op e g = with_chain_always g e (op g.chain)

-- `hexBytes` of an id of 32 bytes.
unfoldable pub hex_bytes : Text → Option Bytes
hex_bytes t = if length t == 64 then from_hex t else none

-- `limit`, for each of the four windows.
unfoldable pub limit_identity_create : ℕ → Text → Act (Unit {0})
limit_identity_create now ip g =
    let (hits, allowed) = allow 5 (60 * 60000) ip now g.identity_create_limit in
    (record g { identity_create_limit = hits }, if allowed then ok tt else err rate_limited)

unfoldable pub limit_identity_create_global : ℕ → Act (Unit {0})
limit_identity_create_global now g =
    let (hits, allowed) = allow 120 (60 * 60000) (codes "global") now g.identity_create_global in
    (record g { identity_create_global = hits }, if allowed then ok tt else err rate_limited)

unfoldable pub limit_challenge : ℕ → Text → Act (Unit {0})
limit_challenge now ip g =
    let (hits, allowed) = allow 30 60000 ip now g.challenge_limit in
    (record g { challenge_limit = hits }, if allowed then ok tt else err rate_limited)

unfoldable pub limit_mutation : ℕ → Text → Act (Unit {0})
limit_mutation now ip g =
    let (hits, allowed) = allow 30 60000 ip now g.mutation_limit in
    (record g { mutation_limit = hits }, if allowed then ok tt else err rate_limited)
