-- ===== src/Harness/RuntimeData.antt =====
-- packages/computer/src/harness/task-store.ts, apart from its second copy of the merge of runtime
-- data, and the parts of task-execution-data.ts, codex-provider.ts and config.ts that name
-- and measure what a task left in its sandbox. A JSON value is its text: whether it is a string is
-- asked of `read`.
use amby.Common.{
  ℕ, ◌==◌, Bool, true, false, ◌&&◌, Option, none, some, List, [], ◌∷◌, ◌++◌, take, if◌then◌else◌,
}
use amby.Common.Text.{Text, lit, text_eq, trim, is_truthy}
use amby.Tasks.Rows.{
  Value, Task, TaskRuntime, in_process, browser, sandbox, TaskProvider, internal, stagehand, codex,
}
use amby.Tasks.Store.{TerminalStatus, lookup}
use amby.Execution.Tasks.{RunnerKind, ResultStatus}

abbrev pub is_sandbox_runtime : TaskRuntime → Bool
is_sandbox_runtime sandbox = true
is_sandbox_runtime runtime = false

abbrev pub is_codex : TaskProvider → Bool
is_codex codex = true
is_codex provider = false

unfoldable pub is_sandbox_task : Task → Bool
is_sandbox_task t = is_sandbox_runtime t.runtime && is_codex t.provider

pub record SandboxRuntimeData : Type 0 where
  pub auth_mode : Option Text
  pub sandbox_id : Option Text
  pub session_id : Option Text
  pub command_id : Option Text
  pub artifact_root : Option Text

abbrev pub string_at : (Value → Option Text) → Text → List (Text × Value) → Option Text
string_at read key entries = elim (lookup key entries) [ none ↦ none | some v ↦ read v ]

abbrev pub known_mode : Option Text → Option Text
known_mode none = none
known_mode (some m) =
    if text_eq m (lit "api_key")
    then some m
    else (if text_eq m (lit "chatgpt_account") then some m else none)

abbrev pub entries_of : Option (List (Text × Value)) → List (Text × Value)
entries_of none = []
entries_of (some entries) = entries

unfoldable pub read_sandbox_runtime_data : (Value → Option Text) → Task → Option SandboxRuntimeData
read_sandbox_runtime_data read t =
    let entries = entries_of t.runtime_data in
    let found : SandboxRuntimeData = record {
      auth_mode = known_mode (string_at read (lit "authMode") entries);
      sandbox_id = string_at read (lit "sandboxId") entries;
      session_id = string_at read (lit "sessionId") entries;
      command_id = string_at read (lit "commandId") entries;
      artifact_root = string_at read (lit "artifactRoot") entries;
    } in
    if is_sandbox_runtime t.runtime then some found else none

-- Where a task runs, by whom, and whether it needs a browser.
unfoldable pub derive_runtime_for_runner :
    Option RunnerKind → (requires_browser : Bool) → TaskRuntime × (TaskProvider × Bool)
derive_runtime_for_runner none requires_browser = (in_process, (internal, false))
derive_runtime_for_runner (some RunnerKind.toolloop) requires_browser =
    (in_process, (internal, false))
derive_runtime_for_runner (some RunnerKind.browser_service) requires_browser =
    (browser, (stagehand, true))
derive_runtime_for_runner (some RunnerKind.background_handoff) requires_browser =
    (sandbox, (codex, requires_browser))

unfoldable pub map_execution_result_status : ResultStatus → TerminalStatus
map_execution_result_status ResultStatus.completed = TerminalStatus.succeeded
map_execution_result_status ResultStatus.partial = TerminalStatus.partial
map_execution_result_status ResultStatus.escalate = TerminalStatus.escalated
map_execution_result_status ResultStatus.failed = TerminalStatus.failed

abbrev pub task_base : Text
task_base = lit "/home/agent/.tasks"

abbrev pub get_artifact_root : Text → Text
get_artifact_root task_id = task_base ++ lit "/" ++ task_id ++ lit "/artifacts"

abbrev pub task_session_id : Text → Text
task_session_id task_id = lit "task-" ++ task_id

-- What is collected from a sandbox; the files as the JSON value of their list.
pub record TaskExecutionData : Type 0 where
  pub output : Text
  pub summary : Text
  pub artifacts : Value

unfoldable pub preview_task_output : Text → (max_chars : ℕ) → Option Text
preview_task_output output max_chars =
    let trimmed = trim output in if is_truthy trimmed then some (take max_chars trimmed) else none

-- The text up to the first blank line.
unfoldable pub first_paragraph : Text → Text
first_paragraph [] = []
first_paragraph (c ∷ []) = c ∷ []
first_paragraph (c ∷ d ∷ s) =
    let rest = first_paragraph (d ∷ s) in if c == 10 && d == 10 then [] else c ∷ rest

-- The summary of what a task wrote: its result, or its errors.
unfoldable pub summary_of : (output stderr : Text) → Text
unfolding first_paragraph
summary_of (c ∷ cs) stderr = first_paragraph (take 500 (c ∷ cs))
summary_of [] [] = lit "No output produced"
summary_of [] (c ∷ cs) = lit "Task failed: " ++ take 200 (c ∷ cs)
