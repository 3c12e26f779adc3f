-- ===== src/Session.antt =====
-- apps/api/src/durable-objects/conversation-session.ts and conversation-session-logic.ts: the
-- durable object that buffers a chat's messages, debounces them and runs the agent's workflow.
pub mod Logic
pub mod State
pub mod Handlers
pub mod Events
