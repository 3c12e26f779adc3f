-- ===== src/Tasks/Callback.antt =====
-- apps/api/src/handlers/task-events.ts: the callback over which a sandbox reports on its task. The
-- hash, the signature check, the parsing of numbers and of the body, and what the sandbox and the
-- storage of artifacts answer are parameters. The trace is left out: writing it never fails the
-- request and nothing here reads it.
pub mod Once
pub mod Auth
use amby.Common.{
  ℕ, ◌-◌, Bool, true, false, not, ◌&&◌, ◌||◌, Option, none, some, List, [], ◌∷◌, any, find?, take,
  drop, length, ltb, leb, if◌then◌else◌, or_else, is_some,
}
use amby.Common.Text.{Text, lit, text_eq, starts_with, trim, is_truthy}
use amby.Tasks.Status.{
  Status, running, succeeded, partial, escalated, failed, is_terminal, is_legal_transition, Kind,
  task_created, task_started, task_progress, task_heartbeat, task_completed, task_partial,
  task_escalated, task_failed, task_timed_out, task_lost, task_notification_sent, backend_notify,
  maintenance_probe, Source, runtime, backend,
}
use amby.Tasks.Rows.{Value, Task, Payload, given, report, TaskEvent, TaskDb}
use amby.Tasks.Store.{update_where, insert_event}

-- A field is `none` where it is missing or `null`. A `seq` that is no natural number has no place
-- here: the sandbox counts up from one.
pub record Body : Type 0 where
  pub event_id : Text
  pub event_type : Text
  pub task_id : Text
  pub status : Option Text
  pub message : Option Text
  pub seq : Option ℕ
  pub exit_code : Option ℕ
  pub sent_at : Option ℕ
  pub payload : Option Value

pub record Request : Type 0 where
  pub callback_id : Option Text
  pub timestamp : Option Text
  pub signature : Option Text
  pub authorization : Option Text
  pub body : Text

-- `hashSecret`, `verifyHmacSignature` (the body, the secret, the timestamp, the signature),
-- `Number` with `none` for what is not finite, and `JSON.parse`.
pub record Platform : Type 0 where
  pub hash_secret : Text → Text
  pub verify_signature : Text → Text → Text → Text → Bool
  pub parse_number : Text → Option ℕ
  pub parse_body : Text → Option Body

-- What `getTaskExecutionData` answers, as the columns take it: the output within `{ result }`, and
-- the artifacts as `publishTaskArtifacts` leaves them.
pub record ExecutionData : Type 0 where
  pub output : Option Value
  pub summary : Text
  pub artifacts : Option Value

pub data Response : Type 0 where
  ack unauthorized not_found not_accepting invalid_json task_mismatch unknown_kind : Response

abbrev pub timestamp_tolerance_ms : ℕ
timestamp_tolerance_ms = 300000

-- `|now - at| <= tolerance`.
abbrev pub is_timestamp_valid : ℕ → Option ℕ → Bool
is_timestamp_valid now none = false
is_timestamp_valid now (some at) =
    leb (now - at) timestamp_tolerance_ms && leb (at - now) timestamp_tolerance_ms

abbrev pub source_from_event_type : Text → Source
source_from_event_type event_type =
    if text_eq event_type (lit "codex.notify") || text_eq event_type (lit "backend.notify")
    then backend
    else runtime

abbrev pub known_event_kinds : List (Text × Kind)
known_event_kinds =
    (lit "task.created", task_created)
    ∷ (lit "task.started", task_started)
    ∷ (lit "task.progress", task_progress)
    ∷ (lit "task.heartbeat", task_heartbeat)
    ∷ (lit "task.completed", task_completed)
    ∷ (lit "task.partial", task_partial)
    ∷ (lit "task.escalated", task_escalated)
    ∷ (lit "task.failed", task_failed)
    ∷ (lit "task.timed_out", task_timed_out)
    ∷ (lit "task.lost", task_lost)
    ∷ (lit "task.notification_sent", task_notification_sent)
    ∷ (lit "backend.notify", backend_notify)
    ∷ (lit "maintenance.probe", maintenance_probe)
    ∷ []

abbrev pub kind_named : Text → List (Text × Kind) → Option Kind
kind_named event_type [] = none
kind_named event_type ((name, kind) ∷ kinds) =
    if text_eq event_type name then some kind else kind_named event_type kinds

unfoldable pub normalize_event_kind : Text → Option Kind
normalize_event_kind event_type =
    if text_eq event_type (lit "codex.notify")
    then some backend_notify
    else (if text_eq event_type (lit "reconciler.probe")
        then some maintenance_probe
        else kind_named event_type known_event_kinds)

unfoldable pub map_harness_event_to_status : Text → Option Status
map_harness_event_to_status event_type =
    if text_eq event_type (lit "task.started")
    then some running
    else (if text_eq event_type (lit "task.heartbeat") || text_eq event_type (lit "task.progress")
        then some running
        else (if text_eq event_type (lit "task.completed")
            then some succeeded
            else (if text_eq event_type (lit "task.partial")
                then some partial
                else (if text_eq event_type (lit "task.escalated")
                    then some escalated
                    else (if text_eq event_type (lit "task.failed") then some failed else none)))))

-- What the checks before the body's content come to.
pub data Admission : Type 0 where
  rejected : Response → Admission
  admitted : Task → Body → Admission

abbrev pub has_callback : Text → Task → Bool
has_callback callback_id t = elim t.callback_id [ none ↦ false | some id ↦ text_eq id callback_id ]

abbrev pub bearer_prefix : Text
bearer_prefix = lit "Bearer "

-- The checks that need a task: its status, the secret, the time, the signature and the body.
unfoldable pub check_task : Platform → ℕ → Text → Text → Text → Text → Task → Admission
check_task p now timestamp signature bearer raw task =
    if is_terminal task.status then rejected not_accepting else elim task.callback_secret_hash [
      | none ↦ rejected unauthorized
      | some hash ↦
          if is_truthy hash
            && text_eq (p.hash_secret bearer) hash
            && is_timestamp_valid now (p.parse_number timestamp)
            && p.verify_signature raw bearer timestamp signature
          then elim (p.parse_body raw) [
            | none ↦ rejected invalid_json
            | some body ↦
                if text_eq body.task_id task.id then admitted task body else rejected task_mismatch
          ]
          else rejected unauthorized
    ]

-- A header that is missing or empty is falsy.
abbrev pub header : Option Text → Text
header h = or_else h []

-- The four headers are there, and the last is a bearer token.
abbrev pub has_headers : Request → Bool
has_headers r =
    is_truthy (header r.callback_id)
    && is_truthy (header r.timestamp)
    && is_truthy (header r.signature)
    && starts_with bearer_prefix (header r.authorization)

abbrev pub bearer : Request → Text
bearer r = trim (drop (length bearer_prefix) (header r.authorization))

unfoldable pub admit : Platform → ℕ → Request → TaskDb → Admission
unfolding check_task
admit p now r db =
    if has_headers r
    then elim (find? (has_callback (header r.callback_id)) db.tasks) [
      | none ↦ rejected not_found
      | some task ↦
          check_task p now (header r.timestamp) (header r.signature) (bearer r) r.body task
    ]
    else rejected unauthorized

abbrev pub event_payload : Body → Payload
event_payload body = elim body.payload [
  | none ↦ report body.status body.message body.exit_code
  | some value ↦ given value
]

abbrev pub event_of : Task → Body → Kind → Option ℕ → ℕ → TaskEvent
event_of task body kind seq now = record {
  task_id = task.id;
  event_id = body.event_id;
  source = source_from_event_type body.event_type;
  kind = kind;
  seq = seq;
  payload = some (event_payload body);
  occurred_at = or_else body.sent_at now;
  created_at = now;
}

-- A transaction that fails is rolled back, and the failure is only logged.
abbrev pub or_unchanged : Option TaskDb → TaskDb → TaskDb
or_unchanged none db = db
or_unchanged (some db') db = db'

unfoldable pub notify_backend : Task → Body → ℕ → TaskDb → TaskDb
unfolding update_where insert_event
notify_backend task body now db =
    let occurred_at = or_else body.sent_at now in
    elim (insert_event (event_of task body backend_notify none now) db) [
      | none ↦ db
      | some db' ↦ record db' {
        tasks =
            update_where (λ t. text_eq t.id task.id && not (is_terminal t.status))
              (λ t. record t { last_event_at = some occurred_at; updated_at = now }) db'.tasks;
      }
    ]

abbrev pub is_completion : Kind → Bool
is_completion task_completed = true
is_completion task_partial = true
is_completion task_escalated = true
is_completion task_failed = true
is_completion _ = false

abbrev pub is_failure : Kind → Bool
is_failure task_failed = true
is_failure _ = false

-- The columns that a final event sets, over those that every event sets.
unfoldable pub completed_row : Body → Kind → Option ExecutionData → (occurred_at : ℕ) → Task → Task
completed_row body kind data_ occurred_at t =
    let done : Task = record t {
      completed_at = some occurred_at;
      exit_code = some (or_else body.exit_code (if is_failure kind then 1 else 0));
      callback_secret_hash = none;
    } in
    elim data_ [
      | some d ↦ record done {
        output = d.output;
        artifacts = d.artifacts;
        output_summary = some (take 2000 d.summary);
        error = if is_failure kind then some (take 4000 d.summary) else t.error;
      }
      | none ↦
          if is_truthy (header body.message)
          then record done {
            output_summary = some (take 2000 (header body.message));
            error = if is_failure kind then some (take 4000 (header body.message)) else t.error;
          }
          else done
    ]

-- Whether the transition from the row as it was read, if there is one, is legal.
abbrev pub is_status_ok : Task → Body → Bool
is_status_ok task body = elim (map_harness_event_to_status body.event_type) [
  | none ↦ true
  | some status ↦ is_legal_transition task.status status
]

-- The columns that every event sets. `task` is the row as it was read before the checks.
unfoldable pub bumped : Task → Body → ℕ → Task → Task
unfolding is_legal_transition map_harness_event_to_status
bumped task body now t = record t {
  last_event_seq = or_else body.seq task.last_event_seq;
  last_event_at = some (or_else body.sent_at now);
  heartbeat_at = some now;
  updated_at = now;
  status =
      if is_status_ok task body
      then or_else (map_harness_event_to_status body.event_type) t.status
      else t.status;
}

-- The patch.
unfoldable pub patched : Task → Body → Kind → Option ExecutionData → ℕ → Task → Task
unfolding completed_row bumped is_legal_transition map_harness_event_to_status
patched task body kind data_ now t =
    let row = bumped task body now t in
    if is_status_ok task body && is_completion kind
    then completed_row body kind data_ (or_else body.sent_at now) row
    else row

-- The rows that the update may change.
abbrev pub is_open_for : Task → Body → Task → Bool
is_open_for task body t =
    text_eq t.id task.id
    && not (is_terminal t.status)
    && elim body.seq [ none ↦ true | some seq ↦ ltb t.last_event_seq seq ]

unfoldable pub report_event : Task → Body → Kind → Option ExecutionData → ℕ → TaskDb → TaskDb
unfolding update_where insert_event patched
report_event task body kind data_ now db =
    if any (is_open_for task body) db.tasks
    then or_unchanged
        (insert_event (event_of task body kind body.seq now) (record db {
          tasks = update_where (is_open_for task body) (patched task body kind data_ now) db.tasks;
        }))
        db
    else db

-- A sequence number that the row as it was read has already reached.
abbrev pub is_replayed : Task → Body → Bool
is_replayed task body = elim body.seq [ none ↦ false | some seq ↦ leb seq task.last_event_seq ]

-- From the row that was read on: between the checks and the transaction other writes may happen,
-- so `db` need not be the tables that `task` was read from.
unfoldable pub accept : Task → Body → Option ExecutionData → ℕ → TaskDb → TaskDb × Response
unfolding notify_backend report_event normalize_event_kind
accept task body data_ now db =
    if is_replayed task body then (db, ack) else elim (normalize_event_kind body.event_type) [
      | none ↦ (db, unknown_kind)
      | some backend_notify ↦ (notify_backend task body now db, ack)
      | some kind ↦ (report_event task body kind data_ now db, ack)
    ]

unfoldable pub handle_task_event_post :
    Platform → ℕ → Request → Option ExecutionData → TaskDb → TaskDb × Response
unfolding admit accept
handle_task_event_post p now r data_ db = elim (admit p now r db) [
  | rejected response ↦ (db, response)
  | admitted task body ↦ accept task body data_ now db
]
