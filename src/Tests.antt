-- ===== src/Tests.antt =====
-- The theorems at concrete inputs, and small runs of the modelled code.
mod ChatState
mod Session
mod Tasks
mod Execution
mod Telegram
mod Planning
mod Ledger
mod Harness
mod Automations
