-- ===== src/Harness/Start.antt =====
-- packages/computer/src/harness/supervisor.ts: how a task is started. The steps of the sandbox, the
-- other tables and the random values are arguments.
pub mod Rows
pub mod Bounds
use amby.Common.{
  ℕ, leb, Bool, true, false, Option, none, some, List, [], ◌∷◌, ◌++◌, if◌then◌else◌, or_else,
  is_some, or_option,
}
use amby.Common.Text.{Text, lit, text_eq, is_truthy}
use amby.Tasks.Status.{Status, preparing, running}
use amby.Tasks.Rows.{Value, Task, TaskDb, Payload, sandbox, codex}
use amby.Tasks.Store
use amby.Tasks.Store.{TerminalStatus, merge_runtime_data, update_task, complete_task}
use amby.Tasks.Queries.{count_active_sandbox_tasks}
use amby.Harness.Codex
use amby.Harness.Codex.{AuthMode, chatgpt_account, api_key, AuthFailure, ready, failed}
use amby.Harness.RuntimeData.{get_artifact_root, task_session_id}
use amby.Harness.World.{
  ActiveTask, World, Moment, Ending, Outcome, done, threw, track, delete_session, completion_of,
}
use amby.Harness.Heartbeat.{Json}
use amby.Harness.Recovery.{default_task_timeout_seconds}

abbrev pub max_active_tasks_per_user : ℕ
max_active_tasks_per_user = 5

-- What the caller of `startTask` gives, apart from what only the sandbox is told.
pub record Params : Type 0 where
  pub task_id : Option Text
  pub user_id : Text
  pub prompt : Text
  pub needs_browser : Option Bool
  pub conversation_id : Option Text
  pub thread_id : Option Text
  pub trace_id : Option Text
  pub parent_task_id : Option Text
  pub root_task_id : Option Text
  pub specialist : Option Text
  pub runner_kind : Option Text
  pub input : Option Value
  pub metadata : Option Value
  pub confirmation_state : Option Text

-- The ids and the callback's secret that are drawn, and the id of the sandbox.
pub record Drawn : Type 0 where
  pub task_id : Text
  pub callback_id : Text
  pub secret_hash : Text
  pub sandbox_id : Text
  pub event_id : Text

-- The platform of a conversation and the chat of the user, where the tables have them, and how the
-- JSON values of a new row are spelled.
pub record Directory : Type 0 where
  pub platform : Option (Option Text)
  pub chat_id : Option (Option ℕ)
  pub telegram_target : ℕ → Value
  pub mode : AuthMode → Value
  pub string : Text → Value
  pub event_payload : Params → (task_id : Text) → Payload
  pub failure : (text : Text) → Value

-- A failed lookup is an error.
unfoldable pub reply_target_of : Directory → Option Text → Option (Option Value)
reply_target_of d conversation_id = elim (or_else conversation_id []) [
  | [] ↦ some none
  | c ∷ cs ↦ elim d.platform [
    | none ↦ none
    | some platform ↦ elim (text_eq (or_else platform []) (lit "telegram")) [
      | false ↦ some none
      | true ↦ elim d.chat_id [
        | none ↦ none
        | some none ↦ some none
        | some (some chat_id) ↦ some (some (d.telegram_target chat_id))
      ]
    ]
  ]
]

abbrev pub id_of : Params → Drawn → Text
id_of p r = or_else p.task_id r.task_id

unfoldable pub first_runtime_data : Directory → AuthMode → Drawn → Option (List (Text × Value))
unfolding merge_runtime_data
first_runtime_data d mode r =
    merge_runtime_data none
      ((lit "authMode", some (d.mode mode)) ∷ (lit "sandboxId", some (d.string r.sandbox_id)) ∷ [])

unfoldable pub new_row :
    Directory → AuthMode → Params → Drawn → (reply_target : Option Value) → ℕ → Task
unfolding first_runtime_data
new_row d mode p r reply_target now = record {
  id = id_of p r;
  user_id = p.user_id;
  runtime = sandbox;
  provider = codex;
  status = preparing;
  thread_id = p.thread_id;
  trace_id = p.trace_id;
  parent_task_id = p.parent_task_id;
  root_task_id = some (or_else p.root_task_id (id_of p r));
  specialist = p.specialist;
  runner_kind = p.runner_kind;
  input = p.input;
  output = none;
  artifacts = none;
  confirmation_state = p.confirmation_state;
  prompt = p.prompt;
  requires_browser = or_else p.needs_browser false;
  runtime_data = first_runtime_data d mode r;
  output_summary = none;
  error = none;
  exit_code = none;
  started_at = none;
  heartbeat_at = none;
  completed_at = none;
  created_at = now;
  updated_at = now;
  metadata = p.metadata;
  conversation_id = p.conversation_id;
  reply_target = reply_target;
  callback_id = some r.callback_id;
  callback_secret_hash = some r.secret_hash;
  last_event_seq = 0;
  last_event_at = none;
  last_probe_at = none;
  notified_status = none;
  last_notification_at = none;
}

-- What the steps come to: an error before or after the session has its name (where the row cannot be
-- updated too), or the id of the command that was started.
pub data Launch : Type 0 where
  unprepared unstarted : (text : Text) → Launch
  launched : (command_id : Text) → Launch

pub data StartError : Type 0 where
  no_sandbox not_installed no_secret : StartError
  no_auth : AuthFailure → StartError
  not_counted not_looked_up not_created : StartError
  too_many : (active : ℕ) → StartError
  startup_failed : (text : Text) → StartError

pub data Started : Type 0 where
  started : (task_id : Text) → Started
  refused : StartError → Started

-- The columns that the launch sets.
unfoldable pub set_running :
    Directory → AuthMode → Drawn → (task_id command_id : Text) → ℕ → Task → Task
unfolding merge_runtime_data
set_running d mode r task_id command_id now t = record t {
  status = running;
  started_at = some now;
  heartbeat_at = some now;
  updated_at = now;
  runtime_data =
      merge_runtime_data
        (some ((lit "authMode", d.mode mode) ∷ (lit "sandboxId", d.string r.sandbox_id) ∷ []))
        ((lit "sessionId", some (d.string (task_session_id task_id)))
          ∷ (lit "commandId", some (d.string command_id))
          ∷ (lit "artifactRoot", some (d.string (get_artifact_root task_id)))
          ∷ []);
}

abbrev pub failure_ending : Directory → Text → Ending
failure_ending d text = record {
  status = TerminalStatus.failed;
  summary = text;
  output = none;
  artifacts = none;
  error = some text;
  exit_code = none;
  payload = some (Payload.given (d.failure text));
}

-- The row was written, or the database refused: then the session stays.
unfoldable pub rolled_back : (session_id : Option Text) → Option (TaskDb × Bool) → World → World
unfolding delete_session
rolled_back session_id none w = w
rolled_back session_id (some (db, changed)) w =
    delete_session (or_else session_id []) (record w { tasks = db })

-- Marks the task as failed and deletes the session, if it has its name by now.
unfoldable pub roll_back :
    Directory → Moment → (task_id : Text) → (session_id : Option Text) → Text → World → World
unfolding rolled_back
roll_back d m task_id session_id text w =
    rolled_back session_id
      (complete_task (completion_of task_id (failure_ending d text)) m.fresh m.now m.later w.tasks)
      w

abbrev pub new_entry : Params → (task_id command_id : Text) → ℕ → ActiveTask
new_entry p task_id command_id now = record {
  task_id = task_id;
  trace_id = p.trace_id;
  session_id = task_session_id task_id;
  command_id = command_id;
  started_at = now;
  timeout_seconds = default_task_timeout_seconds;
  consecutive_failures = 0;
  has_callbacks = true;
}

-- The part after the row was inserted.
unfoldable pub launch :
    Directory → AuthMode → Params → Drawn → Moment → Launch → World → World × Started
unfolding roll_back set_running update_task track
launch d mode p r m (Launch.unprepared text) w =
    (roll_back d m (id_of p r) none text w, refused (startup_failed text))
launch d mode p r m (Launch.unstarted text) w = (
  roll_back d m (id_of p r) (some (task_session_id (id_of p r))) text w,
  refused (startup_failed text),
)
launch d mode p r m (Launch.launched command_id) w =
    let id = id_of p r in
    (
      track (new_entry p id command_id m.now)
          (record w { tasks = update_task id (set_running d mode r id command_id m.now) w.tasks }),
      started id,
    )

-- What stands before the row is inserted: whether the sandbox, the installer, the count and the
-- secret are there.
pub record Prepared : Type 0 where
  pub ensures : Bool
  pub installs : Bool
  pub counts : Bool
  pub mints : Bool

pub data Inserted : Type 0 where
  inserted : World → Inserted
  rejected : StartError → Inserted

unfoldable pub insert_row :
    Directory → AuthMode → Params → Drawn → Moment → Option (Option Value) → World → Inserted
unfolding new_row Store.create_task
insert_row d mode p r m none w = rejected not_looked_up
insert_row d mode p r m (some reply_target) w =
    elim (Store.create_task (new_row d mode p r reply_target m.now)
      (some (d.event_payload p (id_of p r))) r.event_id m.now m.later w.tasks) [
        | none ↦ rejected not_created
        | some db ↦ inserted (record w { tasks = db })
      ]

unfoldable pub run_inserted :
    Directory
    → AuthMode
    → Params
    → Drawn
    → Moment
    → Launch
    → (before_launch : World → World) → Inserted
    → World
    → World × Started
unfolding launch
run_inserted d mode p r m l before_launch (rejected error) w = (w, refused error)
run_inserted d mode p r m l before_launch (inserted w') w = launch d mode p r m l (before_launch w')

pub data Checked : Type 0 where
  admitted : AuthMode → Checked
  turned_away : StartError → Checked

-- The checks after the login was found ready: the count of the active tasks stands among them.
unfoldable pub check_ready : AuthMode → Params → Prepared → World → Checked
check_ready mode p ready_ w =
    let active = count_active_sandbox_tasks p.user_id w.tasks in
    if ready_.installs
    then (if ready_.counts
        then (if leb max_active_tasks_per_user active
            then turned_away (too_many active)
            else (if ready_.mints then admitted mode else turned_away no_secret))
        else turned_away not_counted)
    else turned_away not_installed

unfoldable pub check_authorized : Params → Prepared → Codex.Required → World → Checked
unfolding check_ready
check_authorized p ready_ (failed failure) w = turned_away (no_auth failure)
check_authorized p ready_ (ready mode) w = check_ready mode p ready_ w

-- What stands before the row is inserted.
unfoldable pub check_start : Codex.Surroundings → Params → Prepared → World → World × Checked
unfolding check_authorized
check_start s p ready_ w =
    let (login, required) = Codex.require_codex_auth s w.login in
    let checked : World = record w { login = login } in
    if ready_.ensures
    then (checked, check_authorized p ready_ required checked)
    else (w, turned_away no_sandbox)

-- The insertion, over tables that may have changed since the count.
unfoldable pub insert_start : Directory → AuthMode → Params → Drawn → Moment → World → Inserted
unfolding reply_target_of insert_row
insert_start d mode p r m w = insert_row d mode p r m (reply_target_of d p.conversation_id) w

unfoldable pub start_checked :
    Directory
    → Params
    → Drawn
    → Moment
    → Launch
    → (before_launch : World → World) → Checked
    → World
    → World × Started
unfolding insert_start run_inserted
start_checked d p r m l before_launch (turned_away error) w = (w, refused error)
start_checked d p r m l before_launch (admitted mode) w =
    run_inserted d mode p r m l before_launch (insert_start d mode p r m w) w

-- Other handlers run while this one waits: `before_insert` is what they do between the count and the
-- insertion of the row, `before_launch` between the insertion and the end of the launch.
unfoldable pub start_task :
    Codex.Surroundings
    → Directory
    → Params
    → Drawn
    → Moment
    → Prepared
    → Launch
    → (before_insert before_launch : World → World) → World
    → World × Started
unfolding check_start start_checked
start_task s d p r m ready_ l before_insert before_launch w =
    let (checked, result) = check_start s p ready_ w in
    start_checked d p r m l before_launch result (before_insert checked)
