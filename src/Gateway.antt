-- ===== src/Gateway.antt =====
-- packages/gateway/src: the limits on what is written to a channel, and the store behind it.
pub mod Bodies
pub mod State
pub mod Sessions
pub mod Accounts
pub mod SignIn
pub mod Verification
pub mod Channels
pub mod Streams
pub mod Server
pub mod Limits
mod Tests
pub mod Store
