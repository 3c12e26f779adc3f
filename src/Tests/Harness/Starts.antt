-- ===== src/Tests/Harness/Starts.antt =====
-- Starts of tasks that overlap.
use amby.Common.{◌+◌, ◌≡◌, ◌<◌, refl, true, false, none, some, List, [], ◌∷◌, arith}
use amby.Common.Text.{Text, lit, text_eq, trim, is_space}
use amby.Tasks.Status.{Status}
use amby.Tasks.Rows.{Task, TaskRuntime, TaskProvider, Payload}
use amby.Tasks.Store
use amby.Tasks.Queries
use amby.Harness.AuthState
use amby.Harness.Codex
use amby.Harness.World.{World, Moment}
use amby.Harness.Start
use amby.Harness.Start.{Params, Drawn, Directory, Prepared, Launch}
use amby.Harness.Start.Bounds
use amby.Harness.Start.Bounds.{Step, System, IsAllowedRun, count_of, run}
use amby.Tests.Harness.Login

abbrev task : Text → Status → Task
task id status = record {
  id = id;
  user_id = lit "u";
  runtime = TaskRuntime.sandbox;
  provider = TaskProvider.codex;
  status = status;
  thread_id = none;
  trace_id = some (lit "r");
  parent_task_id = none;
  root_task_id = none;
  specialist = none;
  runner_kind = none;
  input = none;
  output = none;
  artifacts = none;
  confirmation_state = none;
  prompt = lit "p";
  requires_browser = false;
  runtime_data =
      some
        ((lit "sandboxId", lit "b") ∷ (lit "sessionId", lit "s") ∷ (lit "commandId", lit "c") ∷ []);
  output_summary = none;
  error = none;
  exit_code = none;
  started_at = some 5;
  heartbeat_at = none;
  completed_at = none;
  created_at = 1;
  updated_at = 1;
  metadata = none;
  conversation_id = none;
  reply_target = some (lit "7");
  callback_id = some (lit "k");
  callback_secret_hash = some (lit "h");
  last_event_seq = 2;
  last_event_at = some 900;
  last_probe_at = none;
  notified_status = none;
  last_notification_at = none;
}

abbrev moment : Text → Moment
moment fresh = record { now = 1000; later = 1001; fresh = fresh }

abbrev params : Params
params = record {
  task_id = some (lit "t3");
  user_id = lit "u";
  prompt = lit "p";
  needs_browser = none;
  conversation_id = none;
  thread_id = none;
  trace_id = none;
  parent_task_id = none;
  root_task_id = none;
  specialist = none;
  runner_kind = none;
  input = none;
  metadata = none;
  confirmation_state = none;
}

abbrev drawn : Drawn
drawn = record {
  task_id = lit "x";
  callback_id = lit "y";
  secret_hash = lit "z";
  sandbox_id = lit "b";
  event_id = lit "e";
}

abbrev directory : Directory
directory = record {
  platform = some none;
  chat_id = some none;
  telegram_target = λ chat_id. [];
  mode = λ mode. lit "mode";
  string = λ text. text;
  event_payload = λ p id. Payload.empty;
  failure = λ text. text;
}

abbrev prepared : Prepared
prepared = record { ensures = true; installs = true; counts = true; mints = true }

-- Four tasks run.
abbrev world : World
world = record {
  tasks = record {
    tasks =
        task (lit "a") Status.running
        ∷ task (lit "b") Status.running
        ∷ task (lit "c") Status.preparing
        ∷ task (lit "d") Status.running
        ∷ [];
    events = [];
  };
  traces = record { runs = []; events = [] };
  active = [];
  login = Login.world;
  deleted = [];
}

abbrev start : System
start = record { world = world; waiting = [] }

abbrev drawn_next : Drawn
drawn_next = record drawn { event_id = lit "e2" }

abbrev params_next : Params
params_next = record params { task_id = some (lit "t4") }

-- Both are counted before either is inserted.
abbrev overlap : List Step
overlap =
    Step.check Login.surroundings params prepared
    ∷ Step.check Login.surroundings params_next prepared
    ∷ Step.insert 1 directory drawn (moment (lit "f"))
    ∷ Step.insert 0 directory drawn_next (moment (lit "g"))
    ∷ Step.launch directory Codex.api_key params drawn (moment (lit "h"))
        (Launch.launched (lit "c"))
    ∷ []

is_allowed : IsAllowedRun 2 (lit "u") overlap start
unfolding Bounds.step Start.check_start Start.check_authorized Start.check_ready
    Queries.count_active_sandbox_tasks Codex.require_codex_auth Codex.sync_codex_auth_status
    Codex.load_auth_config Codex.sync_at Codex.sync_with_file Codex.parse_codex_auth_file
    Codex.api_key_cache Codex.judge AuthState.summarize_codex_auth
    AuthState.read_harness_auth_config AuthState.set_codex_authenticated
    AuthState.write_codex_config text_eq trim is_space Bounds.insert_admitted Start.insert_start
    Start.insert_row Start.reply_target_of Start.new_row Store.create_task Store.insert_event
is_allowed = (
  omega arith,
  (
    omega arith,
    (
      tt,
      (
        tt,
        (
          (
            (λ h. refl),
            ((λ h. refl), ((λ h. refl), ((λ h. refl), ((λ h. refl), ((λ h. refl), tt))))),
          ),
          tt,
        ),
      ),
    ),
  ),
)

four : Queries.count_active_sandbox_tasks (lit "u") world.tasks ≡ 4
unfolding Queries.count_active_sandbox_tasks text_eq
four = refl

run_bound_example : count_of (lit "u") (run overlap start) < Start.max_active_tasks_per_user + 2
run_bound_example = Bounds.run_bound 2 (lit "u") overlap world is_allowed (rw four (omega arith))

-- The bound is reached: six tasks are active.
six : count_of (lit "u") (run overlap start) ≡ 6
unfolding Bounds.run Bounds.step Start.check_start Start.check_authorized Start.check_ready
    Queries.count_active_sandbox_tasks Codex.require_codex_auth Codex.sync_codex_auth_status
    Codex.load_auth_config Codex.sync_at Codex.sync_with_file Codex.parse_codex_auth_file
    Codex.api_key_cache Codex.judge AuthState.summarize_codex_auth
    AuthState.read_harness_auth_config AuthState.set_codex_authenticated
    AuthState.write_codex_config text_eq trim is_space Bounds.insert_admitted Start.insert_start
    Start.insert_row Start.reply_target_of Start.new_row Store.create_task Store.insert_event
    Start.launch Start.set_running Store.update_task Store.update_where
six = refl
