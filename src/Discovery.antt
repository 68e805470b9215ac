-- ===== src/Discovery.antt =====
-- workers/discovery/src/index.ts: profiles, searches, blocks and random matches.
mod Tests
pub mod State
pub mod Requests
pub mod Handlers
pub mod Matching
pub mod Calls
