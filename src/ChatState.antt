-- ===== src/ChatState.antt =====
-- apps/api/src/durable-objects/chat-state.ts: the durable object that keeps the chat adapter's
-- subscriptions, locks, cache and queues in SQL tables with expiry times.
pub mod State
pub mod Lock
pub mod Cache
pub mod Queue
pub mod Cleanup
