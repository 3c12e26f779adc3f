-- ===== src/Execution.antt =====
-- The execution of a plan: packages/agent/src/execution/locks.ts, coordinator.ts and reducer.ts.
pub mod Tasks
pub mod Locks
pub mod Batch
pub mod Coordinator
pub mod Reducer
pub mod Registry
pub mod Plan
pub mod Persist
