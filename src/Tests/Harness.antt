-- ===== src/Tests/Harness.antt =====
-- The harness at concrete inputs.
mod Login
mod Starts
use amby.Common.{
  ℕ, ◌≡◌, ◌≤◌, ◌⊎◌, refl, max, Bool, true, false, Option, none, some, List, [], ◌∷◌, map, take, All,
  any, find?,
}
use mathlib.Core.List.{Memᴰ}
use amby.Common.Text.{Text, lit, text_eq}
use amby.Tasks.Status.{Status}
use amby.Tasks.Rows.{Task, TaskRuntime, TaskProvider, TaskDb, Payload}
use amby.Tasks.Store
use amby.Tasks.Queries
use amby.Tasks.Runs.{Evolve}
use amby.Tasks.Runs.Writes.{Write}
use amby.Harness.Codex
use amby.Harness.AuthState.{HarnessAuthConfig}
use amby.Harness.RuntimeData
use amby.Harness.World.{World, ActiveTask, Moment, has_active, is_entry}
use amby.Harness.Heartbeat.{Json, Sight}
use amby.Harness.Heartbeat.Loss.{map_status, IsSilent}
use amby.Harness.Heartbeat.Silence
use amby.Harness.Heartbeat.Silence.{beat_tracked}
use amby.Harness.Recovery.{Check, get_task, found_task}
use amby.Harness.Lookup
use amby.Harness.Lookup.{Leaves}
use amby.Harness.Sequence
use amby.Harness.Sequence.{Step, steps}
use amby.Harness.Steps.{rows}
use amby.Harness.Probe
use amby.Harness.Probe.{ProbeSight, Spelling, probe_single_task}
use amby.Harness.Probe.Fresh
use amby.Harness.Probe.Fresh.{statuses}
use amby.Harness.Notify
use amby.Harness.Notify.{RawTarget, ChatNumber, parse_reply_target, Channel, notify_pending}
use amby.Harness.Notify.Told
use amby.Harness.Notify.Told.{is_pending, Waits}
use amby.Harness.World.{state_of}

abbrev task : Text → Status → Task
task id status = record {
  id = id;
  user_id = lit "u";
  runtime = TaskRuntime.sandbox;
  provider = TaskProvider.codex;
  status = status;
  thread_id = none;
  trace_id = some (lit "r");
  parent_task_id = none;
  root_task_id = none;
  specialist = none;
  runner_kind = none;
  input = none;
  output = none;
  artifacts = none;
  confirmation_state = none;
  prompt = lit "p";
  requires_browser = false;
  runtime_data =
      some
        ((lit "sandboxId", lit "b") ∷ (lit "sessionId", lit "s") ∷ (lit "commandId", lit "c") ∷ []);
  output_summary = none;
  error = none;
  exit_code = none;
  started_at = some 5;
  heartbeat_at = none;
  completed_at = none;
  created_at = 1;
  updated_at = 1;
  metadata = none;
  conversation_id = none;
  reply_target = some (lit "7");
  callback_id = some (lit "k");
  callback_secret_hash = some (lit "h");
  last_event_seq = 2;
  last_event_at = some 900;
  last_probe_at = none;
  notified_status = none;
  last_notification_at = none;
}

abbrev db : TaskDb
db = record {
  tasks = task (lit "t1") Status.running ∷ task (lit "t2") Status.partial ∷ [];
  events = [];
}

abbrev entry : ActiveTask
entry = record {
  task_id = lit "t1";
  trace_id = none;
  session_id = lit "s";
  command_id = lit "c";
  started_at = 5;
  timeout_seconds = 300;
  consecutive_failures = 0;
  has_callbacks = false;
}

abbrev world : World
world = record {
  tasks = db;
  traces = record { runs = []; events = [] };
  active = entry ∷ [];
  login = Login.world;
  deleted = [];
}

abbrev untracked : World
untracked = record world { active = [] }

abbrev json : Json
json = record {
  read = λ v. some v;
  reason = λ text. text;
  result = λ text. text;
  exit = λ exit_code summary. summary;
}

abbrev spelling : Spelling
spelling = record {
  finding = λ finding exit_code. lit "finding";
  lost_reason = lit "lost";
  result = λ text. text;
  outcome = λ finding exit_code summary. summary;
}

abbrev moment : Text → Moment
moment fresh = record { now = 1000; later = 1001; fresh = fresh }

abbrev silence : Sight
silence = record {
  refreshes = false;
  command = none;
  reads = true;
  writes = true;
  collect = λ root. none;
  at = 1000;
}

abbrev ended : Sight
ended = record silence { refreshes = true; command = some (some 0) }

abbrev glance : ProbeSight
glance = record {
  ensures = true;
  command = some (some 0);
  status_json = none;
  collect = λ root. none;
  touches = true;
  at = 1000;
  fresh = lit "p";
}

abbrev sequence : List Step
sequence =
    Step.heartbeat (λ id. (moment (lit "f1"), ended))
    ∷ Step.probe (moment (lit "f2")) glance (task (lit "t1") Status.running)
    ∷ Step.table_write 1 2 (Write.heartbeat (lit "t1"))
    ∷ Step.recover (λ id. (moment (lit "f3"), true)) 1000 true true
    ∷ []

steps-Evolve_example : Evolve (rows world) (rows (steps json spelling sequence world))
steps-Evolve_example = Sequence.steps-Evolve json spelling sequence world (tt, (tt, (tt, (tt, tt))))

abbrev check : Check
check = record { ensures = true; command = some (some 0); refetched = true }

-- A heartbeat that comes while the sandbox is asked.
abbrev beats : World → World
beats w = record w { tasks = Store.heartbeat (lit "t1") 9 w.tasks }

get_task-tasks_example : Leaves untracked (beats untracked) (
    get_task json
      (moment (lit "f"))
      ended
      check
      beats
      (lit "u")
      (some 30)
      (some (task (lit "t1") Status.running))
      []
      untracked)
get_task-tasks_example =
    Lookup.get_task-tasks json (moment (lit "f")) ended check beats (lit "u") (some 30)
      (some (task (lit "t1") Status.running)) [] untracked (λ id h. h)

abbrev looks : List (ℕ × Option Task)
looks = (0, some (task (lit "t1") Status.running)) ∷ (9, none) ∷ []

found_task_bound_example :
    found_task (some 60) none (take 8 looks) ≡ found_task (some 60) none looks
found_task_bound_example = Lookup.found_task_bound (some 60) none looks

abbrev silent : IsSilent silence
silent = record { refreshes = refl; reads = refl }

abbrev three_beats : World
three_beats = beat_tracked json (moment (lit "f3")) silence (lit "t1") (
    beat_tracked json (moment (lit "f2")) silence (lit "t1")
      (beat_tracked json (moment (lit "f1")) silence (lit "t1") world))

three_beats_lose_example :
    (has_active (lit "t1") three_beats.active ≡ false)
    × (map_status (Queries.get_by_id (lit "t1") three_beats.tasks) ≡ some Status.lost)
unfolding Queries.get_by_id text_eq
three_beats_lose_example =
    Silence.three_beats_lose json (moment (lit "f1")) (moment (lit "f2")) (moment (lit "f3"))
      silence silence silence entry world (task (lit "t1") Status.running) silent silent silent refl
      refl refl refl refl

probe_single_task-statuses_example :
    statuses (
      state_of (
        probe_single_task json.read spelling
          (moment (lit "f"))
          glance
          (task (lit "t1") Status.running)
          world))
    ≡ statuses world
unfolding Probe.should_skip_probe_finalize RuntimeData.read_sandbox_runtime_data text_eq
probe_single_task-statuses_example =
    Fresh.probe_single_task-statuses json.read spelling (moment (lit "f")) glance
      (task (lit "t1") Status.running) world refl refl

abbrev channel : Channel
channel = record {
  raw_of = λ raw. RawTarget.object (some (lit "telegram")) (some (ChatNumber.finite raw));
  sends = λ chat. true;
  saves = λ id. true;
}

notify_pending-Waits_example :
    All (λ t. (is_pending t ≡ true) → Waits channel t) (notify_pending channel 9 db).0.tasks
    × ((x : Task)
        → Memᴰ x db.tasks
        → Waits channel x
        → Memᴰ x (notify_pending channel 9 db).0.tasks)
unfolding text_eq
notify_pending-Waits_example =
    Told.notify_pending-Waits channel 9 db (record { sends = λ chat. refl; saves = λ id. refl })
      (
        ((λ h. (refl, refl)), ((λ h. absurd (cc h)), tt)),
        (((λ h. absurd (cc h)), ((λ h. (refl, refl)), tt)), tt),
      )

-- A target of another channel, or without a number, names no chat.
no_chat :
    (parse_reply_target (RawTarget.object (some (lit "web")) (some (ChatNumber.finite (lit "7"))))
      ≡ none)
    × (parse_reply_target (RawTarget.object (some (lit "telegram")) none) ≡ none)
unfolding parse_reply_target text_eq
no_chat = (refl, refl)
