-- ===== src/Lib.antt =====
-- Verification of amby, an assistant that is reached over Telegram and runs its agent on
-- Cloudflare workers.
--
-- Common: the library names, tests, lists and texts that all parts share. A text is the list of
-- its UTF-16 units, a time the number of its milliseconds.
--
-- Message: packages/core/src/domain/attachment.ts, the messages that wait in a buffer.
--
-- ChatState: apps/api/src/durable-objects/chat-state.ts, the object that keeps subscriptions,
-- locks, a cache with lists, and queues in four tables, and removes what has expired at an alarm.
-- The record `Db` holds the tables and the alarm, and each method is a function of the same name
-- that takes the time of the call. Cleanup/Calls has the calls in any order as one step function.
-- Whether the runtime's `setAlarm` works is a field of `Db`, which a step of Calls may change.
-- The JSON codec is a parameter. The checks on the types of the columns that the database returns
-- and the creation of the tables are left out: rows are typed, and a new object is empty.
--
-- Session: apps/api/src/durable-objects/conversation-session.ts and conversation-session-logic.ts,
-- the object that buffers the messages of a chat, waits for a pause, starts the agent's workflow,
-- and lets a run send only if it is still the active one. `Session` is the state in memory, the
-- storage and the alarm; each method is a function of the same name, and `alarm` is two, up to
-- the creation of the workflow and from there on, since other calls come in meanwhile. Events has
-- the calls, alarms and crashes in any order that the runtime allows. Tracing and logging are left
-- out, and `toLowerCase` is a parameter.
--
-- Tasks: the tasks that the agent delegates. Status is packages/core/src/domain/task.ts and
-- packages/computer/src/harness/task-state.ts. Rows, Store and Queries are the two tables of
-- packages/core/src/ports/task-store.ts and packages/db/src/repositories/task-store-live.ts, where
-- an operation that the database refuses gives `none`. Callback is the handler of
-- apps/api/src/handlers/task-events.ts, split where it awaits: `admit` reads the row and makes the
-- checks, and `accept` writes, over tables that may have changed meanwhile. A JSON value is its
-- text. The hash, the signature check and the execution data are parameters, and the trace is left
-- out. Runs has the writes of the store and of callbacks in any order.
--
-- Execution: the tasks of one request. Tasks is packages/agent/src/types/execution.ts; Locks and
-- Batch are packages/agent/src/execution/locks.ts; Coordinator is the loop of `executeRequestPlan`
-- in packages/agent/src/execution/coordinator.ts, on fuel, of which one unit for each task is
-- enough; Reducer is packages/agent/src/execution/reducer.ts. What running a task gives is a
-- parameter, which may also throw, and so the trace and the rows that it writes stand apart. Plan
-- is packages/agent/src/execution/planner.ts from the router's output on, with the making of tasks
-- in coordinator.ts; Registry is packages/agent/src/execution/registry.ts, and
-- Registry/Access writes down who may use which group of tools; Persist is
-- packages/agent/src/execution/task-persistence.ts.
--
-- Telegram: packages/channels/src/telegram/utils.ts, of which the splitting of long texts, whose loop has
-- the length of the text as its fuel.
--
-- Ledger: the runs of the agent and their numbered events, packages/agent/src/execution/ledger.ts,
-- packages/db/src/schema/runs.ts and packages/db/src/repositories/trace-store-live.ts. Log has the
-- operations of the writers and what they promise of one run.
--
-- Harness: packages/computer/src/harness, which runs tasks in sandboxes over Tasks and Ledger.
-- AuthState is auth-state.ts; RuntimeData is task-store.ts with parts of task-execution-data.ts,
-- codex-provider.ts and config.ts; Codex (the login), World (the state), Heartbeat, Recovery (with
-- the lookup of a task) and Start are supervisor.ts; Probe and Notify are reconciliation.ts. What a
-- sandbox shows, whether the database answers, the clock and the random ids are arguments of each
-- operation, and an operation that throws gives `threw` with the state that it leaves. A handler is
-- mostly one step here, although the program can do others while it awaits. Where a result depends
-- on that, the handler is taken apart: Probe takes the row that it read before, a start is its
-- checks, its insertion and its launch, which Start/Bounds lets overlap with those of other starts,
-- and the live check of a task takes what other handlers do meanwhile as an argument. The wait for a
-- task takes the rows that it finds one by one as a list, and Lookup shows how many of them count. Sequence has heartbeats, recoveries,
-- probes, and the writes of the store and the callbacks in any order.
--
-- Automations: packages/plugins/src/automations/service.ts and cron.ts, the rows of the automations.
-- Automations/Dispatch is the last part of the scheduled pass of
-- packages/computer/src/harness/reconciliation.ts, which sends the reminders that are due; croner,
-- the sending of a message and the reading of the columns are arguments.
--
-- Not modelled: the router with its prompt, attachments, identities, integrations and the
-- conversation engine; what only calls a service or
-- a language model; and the web applications.
pub mod Common
pub mod Message
pub mod ChatState
pub mod Session
pub mod Tasks
pub mod Execution
pub mod Telegram
pub mod Ledger
pub mod Harness
pub mod Automations
mod Tests
