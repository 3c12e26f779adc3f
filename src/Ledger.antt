-- ===== src/Ledger.antt =====
-- The runs and their events: packages/db/src/schema/runs.ts (tables `runs` and `run_events`),
-- packages/agent/src/execution/ledger.ts (writers) and
-- packages/db/src/repositories/trace-store-live.ts. A JSON value is its text. The random id of an
-- event's row, its time of creation and the columns of a run that no operation here sets are left
-- out, and so are the foreign keys to other tables than these two.
pub mod Log
use amby.Common.{
  ℕ, suc, max, Bool, ◌||◌, Option, none, some, List, [], ◌∷◌, ◌++◌, map, any, if◌then◌else◌,
  or_else, or_option,
}
use amby.Common.Text.{Text, text_eq}
use amby.Tasks.Status.{Status, same_status, succeeded, partial, escalated}
use amby.Tasks.Rows.{Value}
use amby.Execution.Tasks.{SpecialistKind, RunnerKind, ExecutionMode}

pub data RunStatus : Type 0 where
  running completed failed : RunStatus

pub data RunEventKind : Type 0 where
  context_built router_decision skill_activated planner_output tool_call tool_result : RunEventKind
  task_spawned task_observed model_request model_response : RunEventKind
  delegation_start delegation_end error completed : RunEventKind

-- A payload that the caller gives, or that of a task's end.
pub data EventPayload : Type 0 where
  given : Value → EventPayload
  task_end :
      (task_id : Text) (status : Status) (message : Option Text) (exit_code : Option ℕ)
      (reason : Option Text)
      → EventPayload

pub record Run : Type 0 where
  pub id : Text
  pub conversation_id : Text
  pub thread_id : Option Text
  pub message_id : Option Text
  pub parent_run_id : Option Text
  pub root_run_id : Option Text
  pub task_id : Option Text
  pub specialist : SpecialistKind
  pub runner_kind : Option RunnerKind
  pub mode : ExecutionMode
  pub depth : ℕ
  pub metadata : Option Value
  pub status : RunStatus
  pub completed_at : Option ℕ

abbrev pub Entry : Type 0
Entry = RunEventKind × EventPayload

pub record RunEvent : Type 0 where
  pub run_id : Text
  pub seq : ℕ
  pub entry : Entry

-- Both tables, in the order of insertion.
pub record Runs : Type 0 where
  pub runs : List Run
  pub events : List RunEvent

abbrev pub is_run : Text → Run → Bool
is_run run_id r = text_eq r.id run_id

abbrev pub is_of : Text → RunEvent → Bool
is_of run_id e = text_eq e.run_id run_id

-- `ORDER BY seq DESC LIMIT 1` over the run's events.
unfoldable pub last_seq : Text → List RunEvent → Option ℕ
last_seq run_id [] = none
last_seq run_id (e ∷ es) =
    let rest = last_seq run_id es in
    if is_of run_id e then elim rest [ none ↦ some e.seq | some n ↦ some (max e.seq n) ] else rest

-- `(lastRows[0]?.seq ?? -1) + 1`.
unfoldable pub next_seq : Text → List RunEvent → ℕ
unfolding last_seq
next_seq run_id es = elim (last_seq run_id es) [ none ↦ 0 | some n ↦ suc n ]

-- `events.map(...)`, with `nextSeq++` for each.
unfoldable pub numbered : Text → ℕ → List Entry → List RunEvent
numbered run_id n [] = []
numbered run_id n (entry ∷ entries) =
    record { run_id = run_id; seq = n; entry = entry } ∷ numbered run_id (suc n) entries

-- The database refuses events of a run that is not there.
unfoldable pub insert_events : Text → List Entry → Runs → Option Runs
unfolding next_seq numbered
insert_events run_id entries db =
    if any (is_run run_id) db.runs
    then some
        (record db { events = db.events ++ numbered run_id (next_seq run_id db.events) entries })
    else none

unfoldable pub append_event : Text → RunEventKind → Value → Runs → Option Runs
unfolding insert_events
append_event run_id kind payload = insert_events run_id ((kind, given payload) ∷ [])

-- The two kinds with which a task ends its run.
unfoldable pub append_run_lifecycle_event : Text → (fails : Bool) → Value → Runs → Option Runs
unfolding insert_events
append_run_lifecycle_event run_id fails payload =
    insert_events run_id ((if fails then error else delegation_end, given payload) ∷ [])

unfoldable pub update_run : Text → (Run → Run) → Runs → Runs
update_run run_id set db = record db {
  runs = map (λ r. if is_run run_id r then set r else r) db.runs;
}

unfoldable pub set_mode : Text → ExecutionMode → Runs → Runs
unfolding update_run
set_mode run_id mode = update_run run_id (λ r. record r { mode = mode })

unfoldable pub update_metadata : Text → Value → Runs → Runs
unfolding update_run
update_metadata run_id metadata = update_run run_id (λ r. record r { metadata = some metadata })

unfoldable pub link_message : Text → Option Text → Runs → Runs
unfolding update_run
link_message run_id message_id = update_run run_id (λ r. record r { message_id = message_id })

-- Also `markRunComplete`: metadata that is not given is left as it is.
unfoldable pub complete_run : Text → RunStatus → Option Value → ℕ → Runs → Runs
unfolding update_run
complete_run run_id status metadata now = update_run run_id (λ r. record r {
  status = status;
  metadata = or_option metadata r.metadata;
  completed_at = some now;
})

-- `row.id` is the random id that the database gives; an id that is taken is refused.
unfoldable pub create_run : Run → Runs → Option Runs
create_run row db =
    if any (is_run row.id) db.runs
    then none
    else some (record db {
      runs = db.runs ++ (record row { status = RunStatus.running; completed_at = none } ∷ []);
    })

abbrev pub is_success : Status → Bool
is_success status =
    same_status status succeeded || same_status status partial || same_status status escalated

abbrev pub to_run_terminal_status : Status → RunStatus
to_run_terminal_status status = if is_success status then RunStatus.completed else RunStatus.failed

abbrev pub to_run_event_kind : Status → RunEventKind
to_run_event_kind status = if is_success status then delegation_end else error

pub record TaskEnd : Type 0 where
  pub trace_id : Option Text
  pub task_id : Text
  pub status : Status
  pub message : Option Text
  pub exit_code : Option ℕ
  pub reason : Option Text

-- One transaction: the event, then the run's status. An empty id counts as none.
unfoldable pub end_of_task : (run_id : Text) → TaskEnd → ℕ → Runs → Option Runs
unfolding insert_events update_run
end_of_task [] p now db = some db
end_of_task (c ∷ cs) p now db =
    let run_id = c ∷ cs in
    elim (insert_events run_id
      ((to_run_event_kind p.status, task_end p.task_id p.status p.message p.exit_code p.reason)
        ∷ [])
      db) [
        | none ↦ none
        | some db' ↦ some (
            update_run run_id
              (λ r. record r { status = to_run_terminal_status p.status; completed_at = some now })
              db')
      ]

unfoldable pub append_terminal_event : TaskEnd → ℕ → Runs → Option Runs
unfolding end_of_task
append_terminal_event p now db = end_of_task (or_else p.trace_id []) p now db
