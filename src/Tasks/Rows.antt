-- ===== src/Tasks/Rows.antt =====
-- The rows of the tables `tasks` and `task_events` (packages/core/src/ports/task-store.ts).
use amby.Common.{ℕ, Bool, Option, List}
use amby.Common.Text.{Text}
use amby.Tasks.Status.{Status, Kind, Source}

pub data TaskRuntime : Type 0 where
  in_process browser sandbox : TaskRuntime

pub data TaskProvider : Type 0 where
  internal stagehand codex : TaskProvider

-- A JSON value is its text.
abbrev pub Value : Type 0
Value = Text

-- The status under which the user was notified is one of `Status`: only those are written.
pub record Task : Type 0 where
  pub id : Text
  pub user_id : Text
  pub runtime : TaskRuntime
  pub provider : TaskProvider
  pub status : Status
  pub thread_id : Option Text
  pub trace_id : Option Text
  pub parent_task_id : Option Text
  pub root_task_id : Option Text
  pub specialist : Option Text
  pub runner_kind : Option Text
  pub input : Option Value
  pub output : Option Value
  pub artifacts : Option Value
  pub confirmation_state : Option Text
  pub prompt : Text
  pub requires_browser : Bool
  pub runtime_data : Option (List (Text × Value))
  pub output_summary : Option Text
  pub error : Option Text
  pub exit_code : Option ℕ
  pub started_at : Option ℕ
  pub heartbeat_at : Option ℕ
  pub completed_at : Option ℕ
  pub created_at : ℕ
  pub updated_at : ℕ
  pub metadata : Option Value
  pub conversation_id : Option Text
  pub reply_target : Option Value
  pub callback_id : Option Text
  pub callback_secret_hash : Option Text
  pub last_event_seq : ℕ
  pub last_event_at : Option ℕ
  pub last_probe_at : Option ℕ
  pub notified_status : Option Status
  pub last_notification_at : Option ℕ

-- The payload of an event: what the caller gives, or one of those that the program builds.
pub data Payload : Type 0 where
  given : Value → Payload
  empty : Payload
  outcome : Status → (summary : Text) → Payload
  report : (status message : Option Text) (exit_code : Option ℕ) → Payload

-- The random id of the row itself is left out.
pub record TaskEvent : Type 0 where
  pub task_id : Text
  pub event_id : Text
  pub source : Source
  pub kind : Kind
  pub seq : Option ℕ
  pub payload : Option Payload
  pub occurred_at : ℕ
  pub created_at : ℕ

-- Both tables, the events in the order of their insertion.
pub record TaskDb : Type 0 where
  pub tasks : List Task
  pub events : List TaskEvent
