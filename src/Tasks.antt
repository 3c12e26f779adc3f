-- ===== src/Tasks.antt =====
-- The tasks that the agent delegates: their statuses (packages/core/src/domain/task.ts,
-- packages/computer/src/harness/task-state.ts), their tables
-- (packages/db/src/repositories/task-store-live.ts), and the callback of a sandbox
-- (apps/api/src/handlers/task-events.ts).
pub mod Status
pub mod Rows
pub mod Store
pub mod Queries
pub mod Runs
pub mod Callback
