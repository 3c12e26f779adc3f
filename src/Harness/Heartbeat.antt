-- ===== src/Harness/Heartbeat.antt =====
-- packages/computer/src/harness/supervisor.ts: the heartbeat of the tasks that the supervisor
-- tracks, and how it finalizes a task or lets it time out. An exit code is a number from 0 on.
pub mod Loss
pub mod Silence
use amby.Common.{
  ℕ, zero, suc, ◌+◌, ◌-◌, ◌*◌, ◌==◌, ltb, leb, Bool, true, false, not, Option, none, some, List, [],
  ◌∷◌, map, if◌then◌else◌, or_else, or_option, take, is_some,
}
use amby.Common.Text.{Text, lit, text_eq, is_truthy}
use amby.Tasks.Status.{Status, is_terminal}
use amby.Tasks.Rows.{Value, Task, Payload}
use amby.Tasks.Store
use amby.Tasks.Store.{TerminalStatus}
use amby.Harness.RuntimeData.{
  TaskExecutionData, get_artifact_root, read_sandbox_runtime_data, SandboxRuntimeData,
}
use amby.Harness.World.{
  ActiveTask, World, Moment, Ending, Note, Outcome, done, threw, state_of, then_, end_task,
  ending_for, note_for, read_task, has_active, untrack, delete_session, is_entry,
}

-- How the JSON values that the supervisor writes are spelled, and how a string is read from one.
pub record Json : Type 0 where
  pub read : Value → Option Text
  pub reason : Text → Value
  pub result : Text → Value
  pub exit : ℕ → (summary : Text) → Value

-- What a heartbeat meets: whether the sandbox and the two calls of the database answer, the exit
-- code of the command (none while it runs), what can be collected under a root, and the clock.
pub record Sight : Type 0 where
  pub refreshes : Bool
  pub command : Option (Option ℕ)
  pub reads : Bool
  pub writes : Bool
  pub collect : Text → Option TaskExecutionData
  pub at : ℕ

abbrev pub max_heartbeat_failures : ℕ
max_heartbeat_failures = 3

-- `elapsed > task.timeoutSeconds`, the times in milliseconds.
abbrev pub is_overdue : ActiveTask → ℕ → Bool
is_overdue a at = ltb (a.timeout_seconds * 1000) (at - a.started_at)

abbrev pub is_ended : Option Task → Bool
is_ended none = false
is_ended (some t) = is_terminal t.status

abbrev pub trace_of : Option Task → Option Text
trace_of none = none
trace_of (some t) = t.trace_id

abbrev pub nothing_collected : Value → TaskExecutionData
nothing_collected no_artifacts = record {
  output = [];
  summary = lit "Task completed";
  artifacts = no_artifacts;
}

-- The root that the row names, or the one that the id gives.
abbrev pub root_of : Json → Text → Option Task → Text
root_of json task_id none = get_artifact_root task_id
root_of json task_id (some t) = elim (read_sandbox_runtime_data json.read t) [
  | none ↦ get_artifact_root task_id
  | some found ↦ or_else found.artifact_root (get_artifact_root task_id)
]

abbrev pub exit_status : ℕ → TerminalStatus
exit_status exit_code = if exit_code == 0 then TerminalStatus.succeeded else TerminalStatus.failed

abbrev pub exit_ending : Json → ℕ → TaskExecutionData → Ending
exit_ending json exit_code result = record {
  status = exit_status exit_code;
  summary = take 2000 result.summary;
  output = some (if is_truthy result.output then some (json.result result.output) else none);
  artifacts = some (some result.artifacts);
  error = if exit_code == 0 then none else some (take 4000 result.summary);
  exit_code = some exit_code;
  payload = some (Payload.given (json.exit exit_code result.summary));
}

abbrev pub exit_note : ℕ → TaskExecutionData → Note
exit_note exit_code result = record {
  message = some result.summary;
  exit_code = some exit_code;
  reason = none;
}

abbrev pub empty_artifacts : Value
empty_artifacts = lit "[]"

-- Deletes the session and stops tracking.
abbrev pub release : ActiveTask → World → World
release a w = untrack a.task_id (delete_session a.session_id w)

-- Only a task that is tracked is finalized.
unfoldable pub finalize_task : Json → Moment → Sight → ActiveTask → ℕ → World → Outcome
unfolding untrack delete_session
finalize_task json m o a exit_code w =
    let current = read_task o.reads a.task_id w in
    let result =
      or_else (o.collect (root_of json a.task_id current)) (nothing_collected empty_artifacts) in
    let ended =
      then_
        (end_task m (or_option a.trace_id (trace_of current)) a.task_id
          (exit_ending json exit_code result) (exit_note exit_code result) w)
        (release a) in
    if not (has_active a.task_id w.active)
    then done w
    else (if is_ended current then done (release a w) else ended)

unfoldable pub timeout_task : Json → Moment → Sight → ActiveTask → World → Outcome
unfolding untrack delete_session
timeout_task json m o a w =
    let w' = delete_session a.session_id w in
    let current = read_task o.reads a.task_id w' in
    let ended =
      then_
        (end_task m (or_option a.trace_id (trace_of current)) a.task_id
          (ending_for TerminalStatus.timed_out (lit "Task timed out.")
            (json.reason (lit "task_timeout")))
          (note_for (lit "task_timeout")) w')
        (untrack a.task_id) in
    if is_some current
    then (if is_ended current then done (untrack a.task_id w') else ended)
    else done (untrack a.task_id w')

-- The entry is an object, which the map shares.
unfoldable pub count_failures : Text → ℕ → World → World
count_failures task_id n w = record w {
  active =
      map
        (λ (a : ActiveTask).
          if is_entry task_id a then record a { consecutive_failures = n } else a)
        w.active;
}

-- A task that failed too often is lost and no longer tracked, unless it is over or gone. It throws if
-- the database refuses to end the task.
unfoldable pub give_up : Json → Moment → Sight → ActiveTask → World → Outcome
unfolding untrack
give_up json m o a w =
    let current = read_task o.reads a.task_id w in
    let ended =
      then_
        (end_task m (or_option a.trace_id (trace_of current)) a.task_id
          (ending_for TerminalStatus.lost (lit "Task lost after repeated heartbeat failures.")
            (json.reason (lit "heartbeat_failures")))
          (note_for (lit "heartbeat_failures")) w)
        (untrack a.task_id) in
    if is_some current
    then (if is_ended current then done (untrack a.task_id w) else ended)
    else done (untrack a.task_id w)

-- What becomes of a task whose heartbeat failed; `failures` counts those in a row, this one included.
unfoldable pub failed_beat : Json → Moment → Sight → ActiveTask → (failures : ℕ) → World → Outcome
unfolding count_failures give_up
failed_beat json m o a failures w =
    let w' = count_failures a.task_id failures w in
    let given_up = give_up json m o a w' in
    if leb max_heartbeat_failures failures then given_up else done w'

-- A step inside the `try`: what it throws counts as a failure after so many others.
unfoldable pub catching : Json → Moment → Sight → ActiveTask → (failures : ℕ) → Outcome → Outcome
unfolding failed_beat
catching json m o a failures (done w) = done w
catching json m o a failures (threw w) = failed_beat json m o a (suc failures) w

abbrev pub or_timeout : Json → Moment → Sight → ActiveTask → World → Outcome
or_timeout json m o a w = if is_overdue a o.at then timeout_task json m o a w else done w

-- The command was seen: the row's heartbeat is written and the failures are forgotten.
unfoldable pub seen : Moment → Sight → ActiveTask → World → World
unfolding count_failures
seen m o a w =
    count_failures a.task_id 0
      (if o.writes then record w { tasks = Store.heartbeat a.task_id m.now w.tasks } else w)

unfoldable pub polled : Json → Moment → Sight → ActiveTask → Option (Option ℕ) → World → Outcome
unfolding failed_beat finalize_task timeout_task seen
polled json m o a none w = failed_beat json m o a (suc a.consecutive_failures) w
polled json m o a (some (some exit_code)) w =
    catching json m o a 0 (finalize_task json m o a exit_code (seen m o a w))
polled json m o a (some none) w = catching json m o a 0 (or_timeout json m o a (seen m o a w))

-- The heartbeat of one task.
unfoldable pub beat : Json → Moment → Sight → ActiveTask → World → Outcome
unfolding polled failed_beat
beat json m o a w =
    if o.refreshes
    then (if a.has_callbacks
        then catching json m o a a.consecutive_failures (or_timeout json m o a w)
        else polled json m o a o.command w)
    else failed_beat json m o a (suc a.consecutive_failures) w

-- The tasks of a snapshot, in order; the first that throws ends the heartbeat.
unfoldable pub beat_all : Json → (Text → Moment × Sight) → List ActiveTask → World → Outcome
unfolding beat
beat_all json sight [] w = done w
beat_all json sight (a ∷ as_) w =
    let (m, o) = sight a.task_id in
    elim (beat json m o a w) [ done w' ↦ beat_all json sight as_ w' | threw w' ↦ threw w' ]

unfoldable pub heartbeat : Json → (Text → Moment × Sight) → World → Outcome
unfolding beat_all
heartbeat json sight w = beat_all json sight w.active w
