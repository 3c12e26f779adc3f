-- ===== src/Execution/Persist.antt =====
-- packages/agent/src/execution/task-persistence.ts: the rows that the execution of a plan leaves in
-- the task store. How JSON values are spelled is an argument, and so is the input of a task apart
-- from the task, which has it as text.
use amby.Common.{ℕ, Bool, true, false, Option, none, some, List, [], ◌∷◌, if◌then◌else◌, or_else}
use amby.Common.Text.{Text, lit}
use amby.Tasks.Status.{running}
use amby.Tasks.Rows.{Value, Task, TaskDb, Payload}
use amby.Tasks.Store
use amby.Tasks.Store.{TerminalStatus, TaskCompletion}
use amby.Execution.Tasks.{ExecutionTask, ExecutionTaskResult, ResultStatus, RunnerKind, Issue}
use amby.Execution.Reducer.{specialist_name}
use amby.Execution.Plan.{
  TaskInput, specialist, browser_task, background_task, BrowserTaskMode, SideEffectLevel,
}
use amby.Harness.RuntimeData.{derive_runtime_for_runner, map_execution_result_status}

pub record Spelling : Type 0 where
  pub mode : BrowserTaskMode → Value
  pub level : SideEffectLevel → Value
  pub optional : Option Text → Value
  pub settings : TaskInput → Value
  pub metadata : ExecutionTask → Value
  pub created : ExecutionTask → Payload
  pub completed : ExecutionTaskResult → Payload

abbrev pub instructions : Text
instructions = lit "Work autonomously to completion and write final results into artifacts."

-- The settings tasks are their own JSON text.
unfoldable pub derive_prompt : Spelling → TaskInput → Text
derive_prompt s (specialist goal path_hints) = goal
derive_prompt s (browser_task mode instruction start_url level) = instruction
derive_prompt s (background_task prompt needs_browser) = prompt
derive_prompt s settings_input = s.settings settings_input

unfoldable pub build_runtime_data : Spelling → TaskInput → Option (List (Text × Value))
build_runtime_data s (specialist goal path_hints) = none
build_runtime_data s (browser_task mode instruction start_url level) = some (
    (lit "mode", s.mode mode)
    ∷ (lit "startUrl", s.optional start_url)
    ∷ (lit "sideEffectLevel", s.level level)
    ∷ [])
build_runtime_data s (background_task prompt needs_browser) =
    some
      ((lit "instructions", s.optional (some instructions)) ∷ (lit "context", s.optional none) ∷ [])
build_runtime_data s settings_input = some ((lit "settingsTask", s.settings settings_input) ∷ [])

abbrev pub needs_browser_of : TaskInput → Bool
needs_browser_of (background_task prompt needs_browser) = needs_browser
needs_browser_of input = false

abbrev pub runner_name : RunnerKind → Text
runner_name RunnerKind.toolloop = lit "toolloop"
runner_name RunnerKind.browser_service = lit "browser_service"
runner_name RunnerKind.background_handoff = lit "background_handoff"

pub record Origin : Type 0 where
  pub user_id : Text
  pub conversation_id : Text
  pub thread_id : Option Text
  pub trace_id : Text

unfoldable pub created_row : Spelling → Origin → TaskInput → ExecutionTask → ℕ → Task
unfolding derive_runtime_for_runner derive_prompt build_runtime_data
created_row s o input t now =
    let (runtime, (provider, requires_browser)) =
      derive_runtime_for_runner (some t.runner_kind) (needs_browser_of input) in
    record {
      id = t.id;
      user_id = o.user_id;
      runtime = runtime;
      provider = provider;
      status = running;
      thread_id = o.thread_id;
      trace_id = some o.trace_id;
      parent_task_id = t.parent_task_id;
      root_task_id = some t.root_task_id;
      specialist = some (specialist_name t.specialist);
      runner_kind = some (runner_name t.runner_kind);
      input = some t.input;
      output = none;
      artifacts = none;
      confirmation_state =
          some (if t.requires_confirmation then lit "required" else lit "not_required");
      prompt = derive_prompt s input;
      requires_browser = requires_browser;
      runtime_data = build_runtime_data s input;
      output_summary = none;
      error = none;
      exit_code = none;
      started_at = some now;
      heartbeat_at = none;
      completed_at = none;
      created_at = now;
      updated_at = now;
      metadata = some (s.metadata t);
      conversation_id = some o.conversation_id;
      reply_target = none;
      callback_id = none;
      callback_secret_hash = none;
      last_event_seq = 0;
      last_event_at = none;
      last_probe_at = none;
      notified_status = none;
      last_notification_at = none;
    }

-- Whether it was written; an error changes nothing.
abbrev pub persisted : Option TaskDb → TaskDb → TaskDb × Bool
persisted none db = (db, false)
persisted (some new) db = (new, true)

unfoldable pub persist_task_created :
    Spelling
    → Origin
    → TaskInput
    → ExecutionTask
    → (event_id : Text) → (now later : ℕ) → TaskDb
    → TaskDb × Bool
unfolding created_row
persist_task_created s o input t event_id now later db =
    persisted
      (Store.create_task (created_row s o input t now) (some (s.created t)) event_id now later db)
      db

abbrev pub first_issue : Option (List Issue) → Option Text
first_issue none = none
first_issue (some []) = none
first_issue (some (i ∷ is)) = some i.message

-- A field that is `undefined` leaves its column alone.
abbrev pub given : Option Value → Option (Option Value)
given none = none
given (some v) = some (some v)

-- Only a failure is an error. `entries` reads the fields of an object.
unfoldable pub completion_of :
    Spelling
    → (entries : Text → List (Text × Option Value)) → Text
    → ExecutionTaskResult
    → TaskCompletion
unfolding map_execution_result_status
completion_of s entries task_id r = record {
  task_id = task_id;
  status = map_execution_result_status r.status;
  output = given r.data_;
  artifacts = given r.artifacts;
  summary = r.summary;
  error = elim r.status [
    | ResultStatus.failed ↦ some (or_else (first_issue r.issues) r.summary)
    | _ ↦ none
  ];
  exit_code = none;
  runtime_data = elim r.runtime_data [ none ↦ none | some text ↦ some (entries text) ];
  payload = some (s.completed r);
}

-- It counts as written although another may have completed the task before.
abbrev pub completed_or : Option (TaskDb × Bool) → TaskDb → TaskDb × Bool
completed_or none db = (db, false)
completed_or (some (new, changed)) db = (new, true)

unfoldable pub persist_task_completed :
    Spelling
    → (entries : Text → List (Text × Option Value)) → Text
    → ExecutionTaskResult
    → (fresh : Text) → (now later : ℕ) → TaskDb
    → TaskDb × Bool
unfolding completion_of
persist_task_completed s entries task_id r fresh now later db =
    completed_or (Store.complete_task (completion_of s entries task_id r) fresh now later db) db
