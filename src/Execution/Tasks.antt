-- ===== src/Execution/Tasks.antt =====
-- packages/agent/src/types/execution.ts: the tasks of a plan and their results. A JSON value is its
-- text.
use amby.Common.{ℕ, Bool, Option, none, some, List, [], ◌∷◌, if◌then◌else◌}
use amby.Common.Text.{Text, text_eq}

pub data SpecialistKind : Type 0 where
  conversation planner research builder integration computer browser memory settings validator :
      SpecialistKind

pub data RunnerKind : Type 0 where
  toolloop browser_service background_handoff : RunnerKind

pub data ExecutionMode : Type 0 where
  direct sequential parallel background : ExecutionMode

-- A value that a task gets from a dependency: its data, or `{ summary }` if it has none.
pub data Binding : Type 0 where
  given summary_of : Text → Binding

pub record ExecutionTask : Type 0 where
  pub id : Text
  pub root_task_id : Text
  pub parent_task_id : Option Text
  pub depth : ℕ
  pub spawned_by_specialist : Option SpecialistKind
  pub specialist : SpecialistKind
  pub runner_kind : RunnerKind
  pub mode : ExecutionMode
  pub input : Text
  pub dependencies : List Text
  pub input_bindings : List (Text × Binding)
  pub resource_locks : List Text
  pub mutates : Bool
  pub writes_external : Bool
  pub requires_confirmation : Bool
  pub requires_validation : Bool

pub data ResultStatus : Type 0 where
  completed partial failed escalate : ResultStatus

-- What an issue adds: given as JSON, or the dependency that blocks a task.
pub data IssueMetadata : Type 0 where
  json : Text → IssueMetadata
  dependency : (task_id : Text) → ResultStatus → IssueMetadata

pub record Issue : Type 0 where
  pub code : Text
  pub message : Text
  pub metadata : Option IssueMetadata

pub record ExecutionTaskResult : Type 0 where
  pub task_id : Text
  pub root_task_id : Text
  pub parent_task_id : Option Text
  pub depth : ℕ
  pub specialist : SpecialistKind
  pub status : ResultStatus
  pub summary : Text
  pub data_ : Option Text
  pub artifacts : Option Text
  pub issues : Option (List Issue)
  pub metrics : Option Text
  pub runtime_data : Option Text
  pub trace_id : Text
  pub background_ref : Option (Text × Text)

-- `Map<string, ExecutionTaskResult>`, in the order of insertion.
abbrev pub Results : Type 0
Results = List (Text × ExecutionTaskResult)

abbrev pub get : Text → Results → Option ExecutionTaskResult
get id [] = none
get id ((k, r) ∷ rs) = if text_eq k id then some r else get id rs

-- `map.set`: an old key keeps its place.
abbrev pub put : Text → ExecutionTaskResult → Results → Results
put id result [] = (id, result) ∷ []
put id result ((k, r) ∷ rs) = if text_eq k id then (k, result) ∷ rs else (k, r) ∷ put id result rs
