-- ===== src/Relay.antt =====
-- workers/relay/src/index.ts: the relay that passes messages between connected identities.
pub mod State
pub mod Rooms
pub mod Session
mod Tests
