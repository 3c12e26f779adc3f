-- ===== src/Harness/World.antt =====
-- packages/computer/src/harness/supervisor.ts: the state of the task supervisor, and how it ends a
-- task (with packages/computer/src/harness/task-trace.ts).
use amby.Common.{
  ℕ, Bool, true, false, Option, none, some, List, [], ◌∷◌, any, filter, not, if◌then◌else◌,
}
use amby.Common.Text.{Text, text_eq, is_truthy}
use amby.Tasks.Rows.{Value, Task, TaskDb, Payload}
use amby.Tasks.Store.{TaskCompletion, TerminalStatus, complete_task, terminal_status}
use amby.Tasks.Queries.{get_by_id}
use amby.Ledger.{Runs, TaskEnd, append_terminal_event}
use amby.Harness.Codex

-- The handle of the sandbox is left out: what a sandbox does is an argument of each operation.
pub record ActiveTask : Type 0 where
  pub task_id : Text
  pub trace_id : Option Text
  pub session_id : Text
  pub command_id : Text
  pub started_at : ℕ
  pub timeout_seconds : ℕ
  pub consecutive_failures : ℕ
  pub has_callbacks : Bool

-- The two databases, the map `activeTasks` in the order of insertion, the login of the
-- user whose tasks these are, and the sessions that were deleted, the last one first.
pub record World : Type 0 where
  pub tasks : TaskDb
  pub traces : Runs
  pub active : List ActiveTask
  pub login : Codex.World
  pub deleted : List Text

abbrev pub is_entry : Text → ActiveTask → Bool
is_entry task_id a = text_eq a.task_id task_id

-- `activeTasks.has`, `.delete` and `.set`: an old key keeps its place.
abbrev pub has_active : Text → List ActiveTask → Bool
has_active task_id = any (is_entry task_id)

unfoldable pub remove_active : Text → List ActiveTask → List ActiveTask
remove_active task_id = filter (λ a. not (is_entry task_id a))

unfoldable pub set_active : ActiveTask → List ActiveTask → List ActiveTask
set_active new [] = new ∷ []
set_active new (a ∷ as_) =
    let rest = set_active new as_ in if is_entry new.task_id a then new ∷ as_ else a ∷ rest

unfoldable pub untrack : Text → World → World
unfolding remove_active
untrack task_id w = record w { active = remove_active task_id w.active }

unfoldable pub track : ActiveTask → World → World
unfolding set_active
track a w = record w { active = set_active a w.active }

-- A session without a name is left alone, and an error is ignored.
unfoldable pub delete_session : Text → World → World
delete_session session_id w =
    if is_truthy session_id then record w { deleted = session_id ∷ w.deleted } else w

-- The clock before and in a transaction, and the random id of the event that it inserts.
pub record Moment : Type 0 where
  pub now : ℕ
  pub later : ℕ
  pub fresh : Text

-- Why a task ends: its summary and what else is written.
pub record Ending : Type 0 where
  pub status : TerminalStatus
  pub summary : Text
  pub output : Option (Option Value)
  pub artifacts : Option (Option Value)
  pub error : Option Text
  pub exit_code : Option ℕ
  pub payload : Option Payload

-- The event of the trace has the message, the exit code and the reason that are given.
pub record Note : Type 0 where
  pub message : Option Text
  pub exit_code : Option ℕ
  pub reason : Option Text

abbrev pub completion_of : Text → Ending → TaskCompletion
completion_of task_id e = record {
  task_id = task_id;
  status = e.status;
  output = e.output;
  artifacts = e.artifacts;
  summary = e.summary;
  error = e.error;
  exit_code = e.exit_code;
  runtime_data = none;
  payload = e.payload;
}

abbrev pub or_same : Option Runs → Runs → Runs
or_same none traces = traces
or_same (some new) traces = new

-- The trace is written as far as it goes: an error is ignored.
unfoldable pub append_task_trace_terminal_event : TaskEnd → ℕ → Runs → Runs
append_task_trace_terminal_event p now traces = or_same (append_terminal_event p now traces) traces

abbrev pub end_of : Option Text → Text → Ending → Note → TaskEnd
end_of trace_id task_id e note = record {
  trace_id = trace_id;
  task_id = task_id;
  status = terminal_status e.status;
  message = note.message;
  exit_code = note.exit_code;
  reason = note.reason;
}

-- Whether a step threw, with the state that it leaves.
pub data Outcome : Type 0 where
  done threw : World → Outcome

abbrev pub state_of : Outcome → World
state_of (done w) = w
state_of (threw w) = w

-- What is done with the result of a transaction: the trace is written if it changed the row, and an
-- error is thrown on.
unfoldable pub settle : Moment → TaskEnd → Option (TaskDb × Bool) → World → Outcome
unfolding append_task_trace_terminal_event
settle m p none w = threw w
settle m p (some (db, false)) w = done (record w { tasks = db })
settle m p (some (db, true)) w =
    done (record w { tasks = db; traces = append_task_trace_terminal_event p m.now w.traces })

-- Completes the task and, if that changed its row, ends its trace.
unfoldable pub end_task : Moment → Option Text → Text → Ending → Note → World → Outcome
unfolding settle
end_task m trace_id task_id e note w =
    settle m (end_of trace_id task_id e note)
      (complete_task (completion_of task_id e) m.fresh m.now m.later w.tasks) w

-- Goes on unless the step threw.
abbrev pub then_ : Outcome → (World → World) → Outcome
then_ (done w) f = done (f w)
then_ (threw w) f = threw w

-- A task that is lost, or timed out, for a reason that its event names.
abbrev pub ending_for : TerminalStatus → (summary : Text) → (reason : Value) → Ending
ending_for status summary reason = record {
  status = status;
  summary = summary;
  output = none;
  artifacts = none;
  error = none;
  exit_code = none;
  payload = some (Payload.given reason);
}

abbrev pub note_for : (reason : Text) → Note
note_for reason = record { message = none; exit_code = none; reason = some reason }

-- `getById`, where an error reads as a missing row.
abbrev pub read_task : (reads : Bool) → Text → World → Option Task
read_task reads task_id w = if reads then get_by_id task_id w.tasks else none
