-- ===== src/Lib.antt =====
-- nexnet: a peer-to-peer messenger. A wallet is the root of an identity; the root certifies device
-- keys, which sign messages. Clients find each other through a relay, speak in Double Ratchet
-- sessions, meet in public rooms, and read and write channels behind a gateway. The chain that names
-- and certifies identities is, for now, the development client that keeps its state in memory.
--
-- Which file models which part (paths are from the repository's root):
--   Common     what the rest shares: Boolean tests, lists measured by native numbers, results, texts,
--              the JavaScript `Map`, hex, decimal digits and big-endian words.
--   Crypto     the interface of packages/crypto, which wraps the noble libraries, and of cbor2.
--   Protocol   packages/protocol/src: wire.ts (Base64, Wire; `toHex` stands in Common.Texts),
--              credentials.ts and device-cert.ts (Credentials), ssh.ts (Ssh), event.ts (Events),
--              identity-auth.ts (IdentityAuth, and Requests for the bodies that carry its proofs), and the
--              records of packages/types/src/index.ts (Types).
--   Chain      packages/client/src/chain-stub.ts, the class `DevChainClient`. State holds its maps;
--              Usernames, Identity, Devices, Passkeys, PasskeyGrants, SshKeys, Revocations and
--              Validators its methods, one function each under the method's name; Calls puts the
--              methods that change identities, names, keys and validators into one step, by anyone
--              and at any time, and a history is a list of such calls with their times.
--   Ratchet    packages/client/src/double-ratchet.ts: State (`kdfRk`, `kdfCk`, `initInitiator`,
--              `initResponder`), Header (`encodeHeader`, `decodeHeader`), Session (`seal` and, as
--              open_blob, `open`, with the steps they take).
--   Relay      workers/relay/src/index.ts: State and Session hold the class `RelaySession`, Rooms its
--              room subscriptions; Session.Reachable says which states its events can lead to.
--   Presence   workers/presence/src/index.ts: State, Requests (what is asked of a signed body), Tracker
--              (the handlers of `PresenceTracker`), Storage and Loading (its durable storage and
--              `ensureLoaded`), Calls (all calls, at any time, with restarts between them).
--   Discovery  workers/discovery/src/index.ts: State, Requests (profile fields), Handlers (loading, the
--              proof of a request, profiles, searches, blocks), Matching (`handleRandomMatch`), Calls
--              (all calls, with restarts between them).
--   Rooms      packages/client/src/rooms.ts: State, Messages (`checkCooldown`, `automodCheck`,
--              `recordMessage`, `sendRoomMessage`), Votekick, Bans, which runs them together, and Ballots.
--   Gateway    packages/gateway/src: policy.ts (Limits: `SlidingWindow` and `DuplicateGuard`; Bodies: the
--              channels and `validateBody`), store.ts (Store) and gateway.ts, the class `Gateway`: State has
--              its fields and what its methods are made of, Sessions, Accounts, SignIn, Verification,
--              Channels and Streams its methods, and Server puts its routes and socket events into one
--              step.
--   Outbox     packages/storage/src/queue.ts: Queue, and Retries, which runs its methods together.
-- The chain and the relay use Protocol for every signature they check: Chain.Devices calls
-- verify_device_cert, Relay.Session calls verify_identity_auth_json. Rooms and Ratchet are used by the
-- client alone. Tests modules run the definitions on concrete inputs.
--
-- How the code is read:
--   - An object with methods is a record of its fields, and a method takes it and returns it changed. A
--     method that throws returns an error value and no state, except where the source has changed the
--     state before (Chain.PasskeyGrants, and Gateway, below). A JavaScript `Map` is a list of entries in
--     the order of insertion, a `Set` a map to unit, a `Uint8Array` the list of its bytes, a string the
--     list of its UTF-16 code units. Sockets are compared by identity and are numbers.
--   - Numbers are naturals, so negative numbers, fractions and NaN do not arise; a difference that can be
--     negative in the source is compared without subtraction. `setUint32` keeps the low 32 bits.
--   - `Date.now()` is the argument `now`. Several readings of the clock in one call are one time.
--     `toLowerCase` is the argument `lower`. Random values (nonces, challenges, key pairs) are arguments.
--   - Signatures, hashes, the canonical encoding and the AEAD are parameters (Crypto, RatchetCrypto). No
--     law of them is assumed but in Ratchet, where decryption undoes encryption and a ciphertext carries a
--     tag of sixteen bytes (IsAead). The verification of a WebAuthn assertion is a parameter.
--   - The durable storage of a worker is a map of its keys, and `storage.list()` gives its entries in any
--     order. A call of a worker runs without another between its awaits, also where `handleRandomMatch`
--     awaits the relay, whose answers are an argument. A JSON number is an integer or of no known value.
--   - Doubles are a parameter (Discovery.Matching.Doubles) with the order of doubles that are not NaN as
--     a hypothesis (IsOrder), and so is what `Math.random` draws.
--   - A method of the gateway is a function from its state to its state and a result (Act), so that what it
--     changed before it threw stays changed. A method that does something and then awaits the body of its
--     request (`this.body(req)`, which reads from the network) is two steps, begin and finish, and any other
--     requests, revocations included, may come in between; what the method holds meanwhile is Suspended,
--     and Server is the gateway with its methods that wait. The other awaits are calls of the chain client,
--     which answers from memory; the model runs no other method at them. HTTP statuses and the texts of
--     errors are left out. A body is what its readers give, or the error that they throw; `verifySshSignature` and the
--     Unicode tables are parameters (Runtime), and random ids and tokens are part of a request.
--   - An SQL statement is a function on the table, by the documented meaning of SQLite's SQL.
--   - There is no fuel: every loop is a recursion on a list, or on the number of steps left, as in
--     skip_while, whose count is `until - Nr`.
--   - The two halves of `authorizeDeviceCertificateWithPasskey`, which awaits the WebAuthn library between
--     them, run without another call in between. A caller's later writes into an array that it passed are
--     not modelled.
--   - An identity proof that a client sends is what `identityProofFromJson` reads from it, or nothing
--     where that throws. Values that the relay passes on unread are texts.
--
-- Not modelled: the file of the chain's state (`restore`, `persist`) and of ratchet sessions; the readers
-- of gateway request bodies, signed JSON and armored SSH signatures; delivery receipts, the queue manager,
-- the key agreement, direct messages, groups and MLS, the client core, the standalone
-- relay, capabilities and the agent; HTTP headers and routes without state, WebRTC, the terminal user
-- interfaces and the Rust terminal, which are input and output.
pub mod Chain
pub mod Common
pub mod Crypto
pub mod Discovery
pub mod Gateway
pub mod Outbox
pub mod Presence
pub mod Protocol
pub mod Ratchet
pub mod Relay
pub mod Rooms
