-- ===== src/Presence.antt =====
-- workers/presence/src/index.ts: presence leases and prekey bundles.
mod Tests
pub mod State
pub mod Requests
pub mod Tracker
pub mod Storage
pub mod Loading
pub mod Calls
