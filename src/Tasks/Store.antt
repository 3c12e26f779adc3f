-- ===== src/Tasks/Store.antt =====
-- packages/db/src/repositories/task-store-live.ts: the operations that write. An operation that
-- the database refuses is rolled back and gives `none`. Fresh ids and times are arguments: `now`
-- is read before the transaction and `later` in it.
pub mod RuntimeData
use amby.Common.{
  ℕ, Bool, true, false, not, ◌&&◌, Option, none, some, List, [], ◌∷◌, ◌++◌, map, any, find?, ltb,
  if◌then◌else◌, or_else, or_option, is_some,
}
use amby.Common.Text.{Text, text_eq}
use amby.Tasks.Status.{
  Status, is_terminal, Kind, task_created, task_progress, task_completed, task_partial,
  task_escalated, task_failed, task_timed_out, task_lost, Source, server, runtime,
}
use amby.Tasks.Rows.{Value, Task, Payload, given, empty, outcome, TaskEvent, TaskDb}

-- `UPDATE tasks SET ... WHERE ...`; the rows that it returns are those that the test finds.
unfoldable pub update_where : (Task → Bool) → (Task → Task) → List Task → List Task
update_where hit set = map (λ t. if hit t then set t else t)

-- The unique index on the task's id and the event's.
abbrev pub is_event : Text → Text → TaskEvent → Bool
is_event task_id event_id e = text_eq e.task_id task_id && text_eq e.event_id event_id

-- Fails if the task is missing or the event is there already.
unfoldable pub insert_event : TaskEvent → TaskDb → Option TaskDb
insert_event e db =
    if any (λ t. text_eq t.id e.task_id) db.tasks
    then (if any (is_event e.task_id e.event_id) db.events
        then none
        else some (record db { events = db.events ++ (e ∷ []) }))
    else none

-- The new row has the defaults of its columns where the caller gave nothing.
unfoldable pub create_task :
    Task → Option Payload → (event_id : Text) → (now later : ℕ) → TaskDb → Option TaskDb
unfolding insert_event
create_task row payload event_id now later db =
    if any (λ t. text_eq t.id row.id) db.tasks
    then none
    else insert_event
        (record {
          task_id = row.id;
          event_id = event_id;
          source = server;
          kind = task_created;
          seq = none;
          payload = some (or_else payload empty);
          occurred_at = now;
          created_at = later;
        })
        (record db { tasks = db.tasks ++ (row ∷ []) })

-- `patch` sets the columns that the caller gave.
unfoldable pub update_task : Text → (Task → Task) → TaskDb → TaskDb
unfolding update_where
update_task task_id patch db = record db {
  tasks = update_where (λ t. text_eq t.id task_id) patch db.tasks;
}

pub record NewEvent : Type 0 where
  pub task_id : Text
  pub event_id : Option Text
  pub source : Source
  pub kind : Kind
  pub seq : Option ℕ
  pub payload : Option Payload
  pub occurred_at : Option ℕ

unfoldable pub append_event : NewEvent → (fresh : Text) → (now : ℕ) → TaskDb → Option TaskDb
unfolding insert_event
append_event e fresh now = insert_event (record {
  task_id = e.task_id;
  event_id = or_else e.event_id fresh;
  source = e.source;
  kind = e.kind;
  seq = e.seq;
  payload = e.payload;
  occurred_at = or_else e.occurred_at now;
  created_at = now;
})

pub record Progress : Type 0 where
  pub task_id : Text
  pub source : Option Source
  pub kind : Option Kind
  pub seq : ℕ
  pub payload : Option Payload
  pub occurred_at : Option ℕ
  pub status : Option Status

-- The result of a transaction that answers whether it changed a row.
abbrev pub committed : Option TaskDb → Option (TaskDb × Bool)
committed none = none
committed (some db) = some (db, true)

-- The rows that progress may change, and what it makes of them.
abbrev pub is_behind : Progress → Task → Bool
is_behind p t = text_eq t.id p.task_id && ltb t.last_event_seq p.seq && not (is_terminal t.status)

unfoldable pub progressed : Progress → (now later : ℕ) → Task → Task
progressed p now later t = record t {
  status = or_else p.status t.status;
  last_event_seq = p.seq;
  last_event_at = some (or_else p.occurred_at now);
  heartbeat_at = some (or_else p.occurred_at now);
  updated_at = later;
}

-- A conditional update and the insertion of an event, in one transaction.
unfoldable pub transact :
    (Task → Bool) → (Task → Task) → TaskEvent → TaskDb → Option (TaskDb × Bool)
unfolding update_where insert_event
transact hit set e db =
    if any hit db.tasks
    then committed (insert_event e (record db { tasks = update_where hit set db.tasks }))
    else some (db, false)

unfoldable pub append_progress_event :
    Progress → (fresh : Text) → (now later : ℕ) → TaskDb → Option (TaskDb × Bool)
unfolding transact progressed
append_progress_event p fresh now later = transact (is_behind p) (progressed p now later) (record {
  task_id = p.task_id;
  event_id = fresh;
  source = or_else p.source runtime;
  kind = or_else p.kind task_progress;
  seq = some p.seq;
  payload = p.payload;
  occurred_at = or_else p.occurred_at now;
  created_at = later;
})

-- `TaskTerminalStatus`: the statuses that `completeTask` takes.
pub data TerminalStatus : Type 0 where
  succeeded partial escalated failed timed_out lost : TerminalStatus

abbrev pub terminal_status : TerminalStatus → Status
terminal_status TerminalStatus.succeeded = Status.succeeded
terminal_status TerminalStatus.partial = Status.partial
terminal_status TerminalStatus.escalated = Status.escalated
terminal_status TerminalStatus.failed = Status.failed
terminal_status TerminalStatus.timed_out = Status.timed_out
terminal_status TerminalStatus.lost = Status.lost

abbrev pub terminal_event_kind : TerminalStatus → Kind
terminal_event_kind TerminalStatus.succeeded = task_completed
terminal_event_kind TerminalStatus.partial = task_partial
terminal_event_kind TerminalStatus.escalated = task_escalated
terminal_event_kind TerminalStatus.failed = task_failed
terminal_event_kind TerminalStatus.timed_out = task_timed_out
terminal_event_kind TerminalStatus.lost = task_lost

-- A field is `none` where it is `undefined`, and `some none` where it is `null`.
pub record TaskCompletion : Type 0 where
  pub task_id : Text
  pub status : TerminalStatus
  pub output : Option (Option Value)
  pub artifacts : Option (Option Value)
  pub summary : Text
  pub error : Option Text
  pub exit_code : Option ℕ
  pub runtime_data : Option (List (Text × Option Value))
  pub payload : Option Payload

abbrev pub lookup {ℓ} : {A : Type ℓ} → Text → List (Text × A) → Option A
lookup key [] = none
lookup key ((k, a) ∷ l) = if text_eq k key then some a else lookup key l

-- The keys of the old object, in their order, with the values that the new one gives them; a key
-- that it sets to `undefined` is dropped.
unfoldable pub overridden : List (Text × Option Value) → List (Text × Value) → List (Text × Value)
overridden new [] = []
overridden new ((k, v) ∷ old) =
    let rest = overridden new old in
    elim (lookup k new) [ none ↦ (k, v) ∷ rest | some none ↦ rest | some (some w) ↦ (k, w) ∷ rest ]

-- The keys that only the new object has.
unfoldable pub added : List (Text × Value) → List (Text × Option Value) → List (Text × Value)
added old [] = []
added old ((k, none) ∷ new) = added old new
added old ((k, some v) ∷ new) =
    let rest = added old new in if is_some (lookup k old) then rest else (k, v) ∷ rest

-- `{...current, ...params.runtimeData}` without the undefined values, and `null` if it is empty.
unfoldable pub merge_runtime_data :
    Option (List (Text × Value)) → List (Text × Option Value) → Option (List (Text × Value))
unfolding overridden added
merge_runtime_data current new =
    let old = or_else current [] in
    elim (overridden new old ++ added old new) [ [] ↦ none | entry ∷ rest ↦ some (entry ∷ rest) ]

-- The column is left alone if no value is given.
abbrev pub assigned {ℓ} : {A : Type ℓ} → Option (Option A) → Option A → Option A
assigned none old = old
assigned (some new) old = new

abbrev pub is_unfinished : TaskCompletion → Task → Bool
is_unfinished c t = text_eq t.id c.task_id && not (is_terminal t.status)

unfoldable pub completed : TaskCompletion → Option (List (Text × Value)) → ℕ → Task → Task
unfolding merge_runtime_data
completed c current now t = record t {
  status = terminal_status c.status;
  output = assigned c.output t.output;
  artifacts = assigned c.artifacts t.artifacts;
  output_summary = some c.summary;
  error = or_option c.error t.error;
  exit_code = or_option c.exit_code t.exit_code;
  completed_at = some now;
  updated_at = now;
  callback_secret_hash = none;
  runtime_data = elim c.runtime_data [
    | none ↦ t.runtime_data
    | some new ↦ merge_runtime_data current new
  ];
}

-- The runtime data of the task as it is before, of which a missing row has none.
abbrev pub current_runtime_data : Text → TaskDb → Option (List (Text × Value))
current_runtime_data task_id db = elim (find? (λ t. text_eq t.id task_id) db.tasks) [
  | none ↦ none
  | some t ↦ t.runtime_data
]

abbrev pub completion_event : TaskCompletion → (fresh : Text) → (now later : ℕ) → TaskEvent
completion_event c fresh now later = record {
  task_id = c.task_id;
  event_id = fresh;
  source = server;
  kind = terminal_event_kind c.status;
  seq = none;
  payload = some (or_else c.payload (outcome (terminal_status c.status) c.summary));
  occurred_at = now;
  created_at = later;
}

unfoldable pub complete_task :
    TaskCompletion → (fresh : Text) → (now later : ℕ) → TaskDb → Option (TaskDb × Bool)
unfolding transact completed
complete_task c fresh now later db =
    transact (is_unfinished c) (completed c (current_runtime_data c.task_id db) now)
      (completion_event c fresh now later) db

unfoldable pub heartbeat : Text → ℕ → TaskDb → TaskDb
unfolding update_task
heartbeat task_id now =
    update_task task_id (λ t. record t { heartbeat_at = some now; updated_at = now })

unfoldable pub touch_probe : Text → ℕ → TaskDb → TaskDb
unfolding update_task
touch_probe task_id now =
    update_task task_id (λ t. record t { last_probe_at = some now; updated_at = now })

unfoldable pub mark_notified : Text → Status → ℕ → TaskDb → TaskDb
unfolding update_task
mark_notified task_id status now = update_task task_id (λ t. record t {
  notified_status = some status;
  last_notification_at = some now;
  updated_at = now;
})
