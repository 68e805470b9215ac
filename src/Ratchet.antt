-- ===== src/Ratchet.antt =====
-- packages/client/src/double-ratchet.ts: the Double Ratchet sessions of direct messages.
pub mod State
pub mod Header
pub mod Session
mod Tests
