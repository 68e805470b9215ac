-- ===== src/Rooms.antt =====
-- packages/client/src/rooms.ts: the moderation of public rooms.
pub mod State
pub mod Messages
pub mod Votekick
pub mod Bans
pub mod Ballots
mod Tests
