-- ===== src/Outbox.antt =====
-- packages/storage/src/queue.ts: the queue of messages that wait to be delivered.
pub mod Queue
pub mod Retries
mod Tests
