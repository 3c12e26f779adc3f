-- ===== src/Harness/Probe.antt =====
-- packages/computer/src/harness/reconciliation.ts: the probe of one task. What the sandbox shows and
-- how the JSON values are spelled are arguments.
pub mod Fresh
pub mod Rows
use amby.Common.{
  ℕ, ◌*◌, ◌-◌, ◌==◌, ltb, leb, Bool, true, false, not, ◌&&◌, ◌||◌, Option, none, some, List, [],
  ◌∷◌, take, if◌then◌else◌, or_else,
}
use amby.Common.Text.{Text, lit, text_eq, is_truthy}
use amby.Tasks.Status.{Status, is_terminal, maintenance_probe, maintenance}
use amby.Tasks.Rows.{Value, Task, TaskDb, Payload}
use amby.Tasks.Store
use amby.Tasks.Store.{TerminalStatus, NewEvent, complete_task}
use amby.Harness.RuntimeData.{
  TaskExecutionData, get_artifact_root, read_sandbox_runtime_data, SandboxRuntimeData,
  is_sandbox_task,
}
use amby.Harness.World.{
  World, Moment, Ending, Note, Outcome, done, threw, state_of, note_for, completion_of, end_of,
  append_task_trace_terminal_event,
}
use amby.Harness.Recovery.{session_of}

abbrev pub stale_heartbeat_ms : ℕ
stale_heartbeat_ms = 180000

-- Callbacks have come, the last one not long ago.
unfoldable pub should_skip_probe_finalize : Task → (at : ℕ) → Bool
should_skip_probe_finalize t at = elim t.last_event_at [
  | none ↦ false
  | some last ↦ ltb 0 t.last_event_seq && ltb (at - last) (2 * stale_heartbeat_ms)
]

-- What `status.json` says, where it can be read and parsed.
pub record StatusJson : Type 0 where
  pub status : Option Text
  pub exit_code : Option ℕ

-- What the events of a probe say, as JSON values.
pub data Finding : Type 0 where
  session_missing exit_seen status_seen status_ignored still_running : Finding
  exit_skipped : (exit_code last_event_seq : ℕ) → Finding

pub record Spelling : Type 0 where
  pub finding : Finding → (exit_code : Option ℕ) → Value
  pub lost_reason : Value
  pub result : Text → Value
  pub outcome : Finding → (exit_code : ℕ) → (summary : Text) → Value

-- What a probe meets: whether there is a sandbox, the exit code of the command (none while it runs),
-- `status.json`, what can be collected, whether the probe can be noted, the clock, and the random id
-- of the event that it adds.
pub record ProbeSight : Type 0 where
  pub ensures : Bool
  pub command : Option (Option ℕ)
  pub status_json : Option StatusJson
  pub collect : Text → Option TaskExecutionData
  pub touches : Bool
  pub at : ℕ
  pub fresh : Text

-- The errors of these two are ignored.
unfoldable pub touch : Moment → ProbeSight → Text → World → World
touch m o task_id w =
    if o.touches then record w { tasks = Store.touch_probe task_id m.now w.tasks } else w

abbrev pub probe_event : Text → Value → NewEvent
probe_event task_id value = record {
  task_id = task_id;
  event_id = none;
  source = maintenance;
  kind = maintenance_probe;
  seq = none;
  payload = some (Payload.given value);
  occurred_at = none;
}

abbrev pub or_same_db : Option TaskDb → TaskDb → TaskDb
or_same_db none db = db
or_same_db (some new) db = new

unfoldable pub log_probe : Moment → ProbeSight → Text → Value → World → World
log_probe m o task_id value w = record w {
  tasks = or_same_db (Store.append_event (probe_event task_id value) o.fresh m.now w.tasks) w.tasks;
}

-- A completion that changed the row also ends the trace and adds an event.
unfoldable pub settle_probe :
    Moment → ProbeSight → Task → Ending → Note → Value → Option (TaskDb × Bool) → World → Outcome
unfolding append_task_trace_terminal_event log_probe
settle_probe m o t e note value none w = threw w
settle_probe m o t e note value (some (db, false)) w = done (record w { tasks = db })
settle_probe m o t e note value (some (db, true)) w = done (
    log_probe m o t.id value (record w {
      tasks = db;
      traces = append_task_trace_terminal_event (end_of t.trace_id t.id e note) m.now w.traces;
    }))

unfoldable pub end_probed : Moment → ProbeSight → Task → Ending → Note → Value → World → Outcome
unfolding settle_probe
end_probed m o t e note value w =
    settle_probe m o t e note value
      (complete_task (completion_of t.id e) m.fresh m.now m.later w.tasks) w

abbrev pub missing_ending : Spelling → Ending
missing_ending s = record {
  status = TerminalStatus.lost;
  summary = lit "Task lost because session metadata is missing.";
  output = none;
  artifacts = none;
  error = none;
  exit_code = none;
  payload = some (Payload.given s.lost_reason);
}

abbrev pub result_ending :
    Spelling → Finding → (succeeds : Bool) → (exit_code : ℕ) → TaskExecutionData → Ending
result_ending s finding succeeds exit_code result = record {
  status = if succeeds then TerminalStatus.succeeded else TerminalStatus.failed;
  summary = take 2000 result.summary;
  output = some (if is_truthy result.output then some (s.result result.output) else none);
  artifacts = some (some result.artifacts);
  error = if succeeds then none else some (take 4000 result.summary);
  exit_code = some exit_code;
  payload = some (Payload.given (s.outcome finding exit_code result.summary));
}

abbrev pub result_note : (exit_code : ℕ) → TaskExecutionData → Note
result_note exit_code result = record {
  message = some result.summary;
  exit_code = some exit_code;
  reason = none;
}

-- What is collected ends the task; an error in collecting is thrown.
unfoldable pub end_collected :
    Spelling
    → Moment
    → ProbeSight
    → Task
    → Finding
    → (succeeds : Bool) → (exit_code : ℕ) → Option TaskExecutionData
    → World
    → Outcome
unfolding end_probed
end_collected s m o t finding succeeds exit_code none w = threw w
end_collected s m o t finding succeeds exit_code (some result) w =
    end_probed m o t (result_ending s finding succeeds exit_code result)
      (result_note exit_code result) (s.finding finding (some exit_code)) w

abbrev pub artifact_root_of : Text → Option SandboxRuntimeData → Text
artifact_root_of task_id none = get_artifact_root task_id
artifact_root_of task_id (some found) = or_else found.artifact_root (get_artifact_root task_id)

-- The probe is noted, and nothing else happens.
abbrev pub note_probe : Moment → ProbeSight → Task → Value → World → World
note_probe m o t value w = log_probe m o t.id value (touch m o t.id w)

unfoldable pub probe_exited :
    Spelling → Moment → ProbeSight → Task → (root : Text) → (exit_code : ℕ) → World → Outcome
unfolding should_skip_probe_finalize end_collected touch log_probe
probe_exited s m o t root exit_code w =
    let skipped = s.finding (exit_skipped exit_code t.last_event_seq) (some exit_code) in
    let ended = end_collected s m o t exit_seen (exit_code == 0) exit_code (o.collect root) w in
    if should_skip_probe_finalize t o.at then done (note_probe m o t skipped w) else ended

-- Whether `status.json` says that the task succeeded, or that it failed.
abbrev pub verdict : Option StatusJson → Option Bool
verdict none = none
verdict (some j) = elim j.status [
  | none ↦ none
  | some status ↦
      if text_eq status (lit "succeeded")
      then some true
      else (if text_eq status (lit "failed") then some false else none)
]

abbrev pub code_of : Option StatusJson → (succeeds : Bool) → ℕ
code_of none succeeds = if succeeds then 0 else 1
code_of (some j) succeeds = or_else j.exit_code (if succeeds then 0 else 1)

-- The command runs. `status.json` counts only if no callback ever came.
unfoldable pub probe_running :
    Spelling → Moment → ProbeSight → Task → (root : Text) → Option Bool → World → Outcome
unfolding end_collected touch log_probe
probe_running s m o t root none w = done (note_probe m o t (s.finding still_running none) w)
probe_running s m o t root (some succeeds) w =
    let ended =
      end_collected s m o t status_seen succeeds (code_of o.status_json succeeds) (o.collect root)
        w in
    if t.last_event_seq == 0
    then ended
    else done (note_probe m o t (s.finding status_ignored none) w)

unfoldable pub probe_command :
    Spelling → Moment → ProbeSight → Task → (root : Text) → Option (Option ℕ) → World → Outcome
unfolding probe_exited probe_running
probe_command s m o t root none w = threw w
probe_command s m o t root (some (some exit_code)) w = probe_exited s m o t root exit_code w
probe_command s m o t root (some none) w = probe_running s m o t root (verdict o.status_json) w

-- Inside the `try`: an error is noted.
unfoldable pub caught : Moment → ProbeSight → Task → Outcome → Outcome
unfolding touch
caught m o t (done w) = done w
caught m o t (threw w) = done (touch m o t.id w)

unfoldable pub probe_session :
    Spelling → Moment → ProbeSight → Task → (root : Text) → Option (Text × Text) → World → Outcome
unfolding caught probe_command end_probed
probe_session s m o t root none w =
    end_probed m o t (missing_ending s) (note_for (lit "missing_session"))
      (s.finding session_missing none) w
probe_session s m o t root (some session) w = caught m o t (probe_command s m o t root o.command w)

-- `t` is the row as it was read before.
unfoldable pub probe_single_task :
    (Value → Option Text) → Spelling → Moment → ProbeSight → Task → World → Outcome
unfolding probe_session
probe_single_task read s m o t w =
    let found = read_sandbox_runtime_data read t in
    let probed = probe_session s m o t (artifact_root_of t.id found) (session_of found) w in
    if is_sandbox_task t
    then (if o.ensures then (if is_terminal t.status then done w else probed) else threw w)
    else done w
