-- ===== src/Tests/Planning.antt =====
-- The plans and the tools at concrete inputs.
use amby.Common.{ℕ, ◌≡◌, ◌&&◌, refl, true, false, none, some, List, [], ◌∷◌, map, any}
use amby.Common.Text.{Text, lit, starts_with}
use amby.Execution.Tasks.{SpecialistKind, ExecutionMode, ExecutionTask}
use amby.Execution.Registry
use amby.Execution.Registry.{
  Config, ToolGroupKey, ToolSet, has_tool, resolve_visible_tools, allows, is_enabled,
  tool_groups_of, memory_read, sandbox_read,
}
use amby.Execution.Registry.Access
use amby.Execution.Registry.Access.{may_use, all_groups}
use amby.Execution.Plan
use amby.Execution.Plan.{
  RouterTask, RouterOutput, TaskInput, Choice, materialize_plan, materialize_router_output,
}

abbrev config : Config
config = record {
  default_model_id = lit "m";
  high_reasoning_model_id = none;
  validator_model_id = none;
  sandbox_enabled = false;
  cua_enabled = true;
  integration_enabled = true;
  allowed_tool_groups = some (memory_read ∷ sandbox_read ∷ []);
  max_subagent_steps = λ kind. none;
}

abbrev groups : ToolGroupKey → ToolSet ℕ
groups memory_read = (lit "recall", 1) ∷ []
groups sandbox_read = (lit "read", 2) ∷ []
groups group = []

resolve_visible_tools_example :
    has_tool (lit "read") (resolve_visible_tools SpecialistKind.research config groups)
    ≡ any
        (λ g. may_use config SpecialistKind.research g && has_tool (lit "read") (groups g))
        all_groups
resolve_visible_tools_example =
    Access.resolve_visible_tools_lem (lit "read") SpecialistKind.research config groups

-- A sandbox that is not enabled takes its tools away.
unseen : resolve_visible_tools SpecialistKind.research config groups ≡ (lit "recall", 1) ∷ []
unfolding resolve_visible_tools Registry.allowed_groups Registry.policy_groups Registry.is_enabled
    Registry.gather Registry.assign Registry.set_tool
unseen = refl

abbrev router_task : Choice → List Text → RouterTask
router_task choice dependencies = record {
  chosen = choice;
  goal = lit "g";
  dependencies = dependencies;
  start_url = none;
  browser_mode = none;
  side_effect_level = none;
  settings_kind = none;
  timezone_name = none;
  writes_externally = some true;
}

abbrev output : RouterOutput
output = record {
  strategy = ExecutionMode.sequential;
  rationale = lit "r";
  tasks =
      router_task Choice.to_research []
      ∷ router_task Choice.to_integration (lit "task-0" ∷ lit "task-9" ∷ [])
      ∷ [];
  needs_validation = true;
}

abbrev tasks : List ExecutionTask
tasks =
    materialize_plan (λ input. []) (lit "x" ∷ lit "y" ∷ []) (materialize_router_output output [])

-- A reference to the first task becomes its id; one to a task that is not there stays.
resolved :
    map (λ (t : ExecutionTask). t.dependencies) tasks ≡ [] ∷ (lit "x" ∷ lit "task-9" ∷ []) ∷ []
unfolding materialize_plan materialize_router_output Plan.materialize_strategy Plan.materialize_task
    Plan.materialize_as Plan.materialize_integration Plan.create_specialist_task Plan.make_tasks
    Plan.make_task Plan.resolve_dependency Plan.task_number Plan.number_of starts_with
resolved = refl
