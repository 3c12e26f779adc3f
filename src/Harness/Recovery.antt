-- ===== src/Harness/Recovery.antt =====
-- packages/computer/src/harness/supervisor.ts: what a new supervisor does about the tasks that the
-- last one left, and how a task is looked up.
use amby.Common.{
  ℕ, zero, suc, ◌+◌, ◌*◌, ◌-◌, min, Bool, false, not, ◌&&◌, Option, none, some, List, [], ◌∷◌,
  if◌then◌else◌, or_else,
}
use amby.Common.Text.{Text, lit, is_truthy}
use amby.Tasks.Status.{running, same_status, is_terminal}
use amby.Tasks.Rows.{Task}
use amby.Tasks.Store.{TerminalStatus}
use amby.Tasks.Queries.{
  find_running_sandbox_tasks, find_stale_preparing_sandbox_tasks, get_by_id_and_user,
}
use amby.Harness.RuntimeData.{read_sandbox_runtime_data, SandboxRuntimeData, is_sandbox_task}
use amby.Harness.World.{
  ActiveTask, World, Moment, Ending, Outcome, done, threw, state_of, end_task, ending_for, note_for,
  track, has_active,
}
use amby.Harness.Heartbeat.{Json, Sight, finalize_task}

abbrev pub default_task_timeout_seconds : ℕ
default_task_timeout_seconds = 300

abbrev pub preparing_timeout_ms : ℕ
preparing_timeout_ms = 600000

-- The session and the command of a task, where both are named and not empty.
abbrev pub both : Option Text → Option Text → Option (Text × Text)
both none command_id = none
both (some session_id) none = none
both (some session_id) (some command_id) =
    if is_truthy session_id && is_truthy command_id then some (session_id, command_id) else none

abbrev pub session_of : Option SandboxRuntimeData → Option (Text × Text)
session_of none = none
session_of (some found) = both found.session_id found.command_id

abbrev pub has_sandbox : Option SandboxRuntimeData → Bool
has_sandbox none = false
has_sandbox (some found) = is_truthy (or_else found.sandbox_id [])

abbrev pub entry_of : Task → (session_id command_id : Text) → (now : ℕ) → ActiveTask
entry_of t session_id command_id now = record {
  task_id = t.id;
  trace_id = t.trace_id;
  session_id = session_id;
  command_id = command_id;
  started_at = or_else t.started_at now;
  timeout_seconds = default_task_timeout_seconds;
  consecutive_failures = 0;
  has_callbacks = is_truthy (or_else t.callback_secret_hash []);
}

abbrev pub late_ending : Json → Ending
late_ending json =
    record (ending_for TerminalStatus.lost (lit "Task did not start in time.")
      (json.reason (lit "preparing_timeout"))) { error = some (lit "Task did not start in time.") }

-- An error is ignored for each task that did not start.
unfoldable pub lose_preparing : Json → Moment → Text × Option Text → World → World
unfolding end_task
lose_preparing json m (task_id, trace_id) w =
    state_of (end_task m trace_id task_id (late_ending json) (note_for (lit "preparing_timeout")) w)

unfoldable pub lose_all_preparing :
    Json → (Text → Moment) → List (Text × Option Text) → World → World
unfolding lose_preparing
lose_all_preparing json moments [] w = w
lose_all_preparing json moments (row ∷ rows) w =
    lose_all_preparing json moments rows (lose_preparing json (moments row.0) row w)

-- `answers`: whether the sandbox still has the session. It throws if the database refuses to end
-- the task.
unfoldable pub resume : Json → Moment → (answers : Bool) → Task → Text × Text → World → Outcome
unfolding end_task track
resume json m answers t (session_id, command_id) w =
    let lost_ =
      end_task m t.trace_id t.id
        (ending_for TerminalStatus.lost (lit "Task lost because sandbox recovery failed.")
          (json.reason (lit "sandbox_recovery_failed")))
        (note_for (lit "sandbox_recovery_failed")) w in
    if answers then done (track (entry_of t session_id command_id m.now) w) else lost_

unfoldable pub lose_sessionless : Json → Moment → Task → World → Outcome
unfolding end_task
lose_sessionless json m t w =
    end_task m t.trace_id t.id
      (ending_for TerminalStatus.lost
        (lit "Task lost because the sandbox session metadata is missing.")
        (json.reason (lit "missing_session")))
      (note_for (lit "missing_session")) w

unfoldable pub recover_session :
    Json → Moment → (answers named : Bool) → Task → Option (Text × Text) → World → Outcome
unfolding resume lose_sessionless
recover_session json m answers named t none w = lose_sessionless json m t w
recover_session json m answers named t (some session) w =
    let resumed = resume json m answers t session w in
    let sessionless = lose_sessionless json m t w in if named then resumed else sessionless

-- A task without a sandbox, a session or a command is lost.
unfoldable pub recover_task : Json → Moment → (answers : Bool) → Task → World → Outcome
unfolding recover_session
recover_task json m answers t w =
    let found = read_sandbox_runtime_data json.read t in
    recover_session json m answers (has_sandbox found) t (session_of found) w

-- The first that throws ends the recovery.
unfoldable pub recover_tasks : Json → (Text → Moment × Bool) → List Task → World → Outcome
unfolding recover_task
recover_tasks json sight [] w = done w
recover_tasks json sight (t ∷ ts) w =
    let (m, answers) = sight t.id in
    elim (recover_task json m answers t w) [
      | done w' ↦ recover_tasks json sight ts w'
      | threw w' ↦ threw w'
    ]

-- The rows are those at the start; `running_found` and `stale_found` say whether the two queries
-- succeed.
unfoldable pub recover_running :
    Json → (Text → Moment × Bool) → (now : ℕ) → (running_found stale_found : Bool) → World → Outcome
unfolding recover_tasks lose_all_preparing
recover_running json sight now running_found stale_found w =
    let stale = find_stale_preparing_sandbox_tasks (now - preparing_timeout_ms) w.tasks in
    let cleaned = lose_all_preparing json (λ id. (sight id).0) stale w in
    let start = if stale_found then cleaned else w in
    let recovered = recover_tasks json sight (find_running_sandbox_tasks w.tasks) start in
    if running_found then recovered else done w

abbrev pub max_wait_seconds : ℕ
max_wait_seconds = 15

abbrev pub poll_interval_ms : ℕ
poll_interval_ms = 2000

-- `waitSeconds ? Math.min(waitSeconds, MAX_WAIT_SECONDS) : 0`.
abbrev pub capped_wait : Option ℕ → ℕ
capped_wait none = 0
capped_wait (some seconds) = min seconds max_wait_seconds

-- The rows that the looks at the database find, one by one, until one is terminal or missing or the
-- time is over. `left` is the time to the deadline in milliseconds, and a look and the pause after
-- it take at least the pause.
unfoldable pub poll : (left : ℕ) → (last : Option Task) → List (ℕ × Option Task) → Option Task
poll zero last looks = last
poll (suc left) last [] = last
poll (suc left) last ((delay, none) ∷ looks) = none
poll (suc left) last ((delay, some t) ∷ looks) =
    let rest = poll (suc left - (poll_interval_ms + delay)) last looks in
    if is_terminal t.status then some t else rest

-- The live check: whether the sandbox answers, and the command's exit code.
pub record Check : Type 0 where
  pub ensures : Bool
  pub command : Option (Option ℕ)
  pub refetched : Bool

-- The row after what the command showed, `none` for a command that cannot be seen.
unfoldable pub live_check :
    Json
    → Moment
    → Sight
    → Option (Option ℕ)
    → (refetches : Bool) → (user_id : Text) → Task
    → Text × Text
    → World
    → World × Option Task
unfolding finalize_task track
live_check json m o none refetches user_id t session w = (w, some t)
live_check json m o (some (some exit_code)) refetches user_id t (session_id, command_id) w =
    elim (finalize_task json m o (entry_of t session_id command_id m.now) exit_code w) [
      | threw w' ↦ (w', some t)
      | done w' ↦ (w', if refetches then get_by_id_and_user t.id user_id w'.tasks else none)
    ]
live_check json m o (some none) refetches user_id t (session_id, command_id) w =
    (track (entry_of t session_id command_id m.now) w, some t)

-- Whether the row is checked against its session.
abbrev pub is_checked : Task → World → Bool
is_checked t w = same_status t.status running && is_sandbox_task t && not (has_active t.id w.active)

-- Other handlers run while the sandbox and its command are asked: `meanwhile` is what they do.
unfoldable pub check_task :
    Json
    → Moment
    → Sight
    → Check
    → (meanwhile : World → World) → (user_id : Text) → Task
    → World
    → World × Option Task
unfolding live_check
check_task json m o c meanwhile user_id t w =
    elim (session_of (read_sandbox_runtime_data json.read t)) [
      | none ↦ (w, some t)
      | some session ↦
          let checked = live_check json m o c.command c.refetched user_id t session (meanwhile w) in
          if is_checked t w
          then (if c.ensures then checked else (meanwhile w, some t))
          else (w, some t)
    ]

-- The row that is found: at once, or by looking until it is terminal, and once more at the end.
unfoldable pub found_task : Option ℕ → Option Task → List (ℕ × Option Task) → Option Task
unfolding poll
found_task wait_seconds last looks = poll (capped_wait wait_seconds * 1000) last looks

unfoldable pub check_found :
    Json
    → Moment
    → Sight
    → Check
    → (meanwhile : World → World) → (user_id : Text) → Option Task
    → World
    → World × Option Task
unfolding check_task
check_found json m o c meanwhile user_id none w = (w, none)
check_found json m o c meanwhile user_id (some t) w = check_task json m o c meanwhile user_id t w

-- The rows that the looks and the last one find are arguments, since others write meanwhile; `w` is
-- the state after them.
unfoldable pub get_task :
    Json
    → Moment
    → Sight
    → Check
    → (meanwhile : World → World) → (user_id : Text) → Option ℕ
    → Option Task
    → List (ℕ × Option Task)
    → World
    → World × Option Task
unfolding found_task check_found
get_task json m o c meanwhile user_id wait_seconds last looks w =
    check_found json m o c meanwhile user_id (found_task wait_seconds last looks) w
