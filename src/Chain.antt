-- ===== src/Chain.antt =====
-- packages/client/src/chain-stub.ts: `DevChainClient`, the in-memory chain.
pub mod State
pub mod Usernames
pub mod Identity
pub mod Revocations
pub mod Devices
pub mod Passkeys
pub mod PasskeyGrants
pub mod SshKeys
pub mod Validators
pub mod Calls
