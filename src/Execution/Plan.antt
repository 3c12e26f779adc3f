-- ===== src/Execution/Plan.antt =====
-- packages/agent/src/execution/planner.ts: how the router's output becomes a plan, and
-- packages/agent/src/execution/coordinator.ts: how the plan becomes tasks. The router itself, its
-- prompt and the search for URLs and paths in the request are left out; the JSON text of a task's
-- input is an argument.
use amby.Common.{
  ℕ, ◌+◌, ◌*◌, ◌-◌, leb, Bool, true, false, not, ◌&&◌, Option, none, some, List, [], ◌∷◌, ◌++◌, map,
  drop, head?, get_elem?, if◌then◌else◌, or_else,
}
use amby.Common.Text.{Text, lit, starts_with}
use amby.Execution.Tasks.{
  SpecialistKind, research, builder, integration, computer, browser, memory, settings, RunnerKind,
  background_handoff, ExecutionMode, direct, sequential, background, ExecutionTask,
}
use amby.Execution.Registry.{runner_of}

pub data BrowserTaskMode : Type 0 where
  extract act agent : BrowserTaskMode

pub data SideEffectLevel : Type 0 where
  read soft_write hard_write : SideEffectLevel

pub data SettingsKind : Type 0 where
  timezone schedule codex_auth : SettingsKind

-- `ExecutionTaskInput`, with the fields that the planner sets.
pub data TaskInput : Type 0 where
  specialist : (goal : Text) (path_hints : Option (List Text)) → TaskInput
  browser_task :
      (mode : BrowserTaskMode) (instruction : Text) (start_url : Option Text)
      (level : SideEffectLevel)
      → TaskInput
  set_timezone : (zone : Text) → TaskInput
  set_schedule : (description : Text) → TaskInput
  codex_auth_status : TaskInput
  background_task : (prompt : Text) (needs_browser : Bool) → TaskInput

-- The specialists that the router may choose.
pub data Choice : Type 0 where
  to_browser to_computer to_research to_builder to_integration to_memory to_settings : Choice

pub record RouterTask : Type 0 where
  pub chosen : Choice
  pub goal : Text
  pub dependencies : List Text
  pub start_url : Option Text
  pub browser_mode : Option BrowserTaskMode
  pub side_effect_level : Option SideEffectLevel
  pub settings_kind : Option SettingsKind
  pub timezone_name : Option Text
  pub writes_externally : Option Bool

pub record RouterOutput : Type 0 where
  pub strategy : ExecutionMode
  pub rationale : Text
  pub tasks : List RouterTask
  pub needs_validation : Bool

-- A planned task has no parent and no bindings.
pub record PlannedTask : Type 0 where
  pub kind : SpecialistKind
  pub runner_kind : RunnerKind
  pub mode : ExecutionMode
  pub input : TaskInput
  pub dependencies : List Text
  pub resource_locks : List Text
  pub mutates : Bool
  pub writes_external : Bool
  pub requires_confirmation : Bool
  pub requires_validation : Bool

pub data Reducing : Type 0 where
  by_conversation by_validator : Reducing

pub record ExecutionPlan : Type 0 where
  pub strategy : ExecutionMode
  pub rationale : Text
  pub tasks : List PlannedTask
  pub reducer : Reducing

abbrev pub is_background_runner : RunnerKind → Bool
is_background_runner background_handoff = true
is_background_runner runner = false

-- The defaults of the options are empty and false.
unfoldable pub create_specialist_task : SpecialistKind → TaskInput → PlannedTask
create_specialist_task kind input = record {
  kind = kind;
  runner_kind = runner_of kind;
  mode = if is_background_runner (runner_of kind) then background else sequential;
  input = input;
  dependencies = [];
  resource_locks = [];
  mutates = false;
  writes_external = false;
  requires_confirmation = false;
  requires_validation = false;
}

abbrev pub is_read : SideEffectLevel → Bool
is_read read = true
is_read level = false

abbrev pub is_hard_write : SideEffectLevel → Bool
is_hard_write hard_write = true
is_hard_write level = false

unfoldable pub create_browser_task :
    (instruction : Text) → Option Text → BrowserTaskMode → SideEffectLevel → PlannedTask
unfolding create_specialist_task
create_browser_task instruction start_url mode level =
    record (create_specialist_task browser (browser_task mode instruction start_url level)) {
      mutates = not (is_read level);
      writes_external = is_hard_write level;
      requires_confirmation = is_hard_write level;
    }

abbrev pub workdir_lock : Text
workdir_lock = lit "sandbox-workdir:/"

unfoldable pub create_background_task : (prompt : Text) → (needs_browser : Bool) → PlannedTask
unfolding create_specialist_task
create_background_task prompt needs_browser =
    record (create_specialist_task builder (background_task prompt needs_browser)) {
      resource_locks = workdir_lock ∷ [];
      mutates = true;
      runner_kind = background_handoff;
      mode = background;
    }

unfoldable pub materialize_settings_input : RouterTask → TaskInput
materialize_settings_input t = elim t.settings_kind [
  | some timezone ↦ set_timezone (or_else t.timezone_name t.goal)
  | some schedule ↦ set_schedule t.goal
  | some codex_auth ↦ codex_auth_status
  | none ↦ specialist t.goal none
]

-- The paths that the request names are locked, or the working directory.
abbrev pub builder_locks : List Text → List Text
builder_locks [] = workdir_lock ∷ []
builder_locks (p ∷ ps) = map (λ path. lit "fs-write:" ++ path) (p ∷ ps)

unfoldable pub materialize_computer : RouterTask → PlannedTask
unfolding create_specialist_task
materialize_computer t =
    let writes = or_else t.writes_externally false in
    record (create_specialist_task computer (specialist t.goal none)) {
      dependencies = t.dependencies;
      resource_locks = lit "computer-desktop" ∷ [];
      mutates = true;
      writes_external = writes;
      requires_confirmation = writes;
    }

unfoldable pub materialize_builder : RouterTask → List Text → PlannedTask
unfolding create_specialist_task
materialize_builder t path_hints =
    record (create_specialist_task builder (specialist t.goal (some path_hints))) {
      dependencies = t.dependencies;
      resource_locks = builder_locks path_hints;
      mutates = true;
      requires_validation = true;
    }

unfoldable pub materialize_integration : RouterTask → PlannedTask
unfolding create_specialist_task
materialize_integration t =
    let writes = or_else t.writes_externally false in
    record (create_specialist_task integration (specialist t.goal none)) {
      dependencies = t.dependencies;
      resource_locks = lit "integration-write:external" ∷ [];
      mutates = writes;
      writes_external = writes;
      requires_confirmation = writes;
      requires_validation = writes;
    }

unfoldable pub materialize_as : Choice → RouterTask → List Text → PlannedTask
unfolding create_browser_task materialize_computer materialize_builder materialize_integration
    materialize_settings_input
materialize_as to_browser t path_hints =
    record (create_browser_task t.goal t.start_url (or_else t.browser_mode agent)
      (or_else t.side_effect_level read)) { dependencies = t.dependencies }
materialize_as to_computer t path_hints = materialize_computer t
materialize_as to_research t path_hints =
    record (create_specialist_task research (specialist t.goal none)) {
      dependencies = t.dependencies;
    }
materialize_as to_builder t path_hints = materialize_builder t path_hints
materialize_as to_integration t path_hints = materialize_integration t
materialize_as to_memory t path_hints =
    record (create_specialist_task memory (specialist t.goal none)) {
      dependencies = t.dependencies;
      resource_locks = lit "memory-write" ∷ [];
      mutates = true;
    }
materialize_as to_settings t path_hints =
    record (create_specialist_task settings (materialize_settings_input t)) {
      dependencies = t.dependencies;
      mutates = true;
    }

unfoldable pub materialize_task : List Text → RouterTask → PlannedTask
unfolding materialize_as
materialize_task path_hints t = materialize_as t.chosen t path_hints

abbrev pub direct_plan : RouterOutput → ExecutionPlan
direct_plan output = record {
  strategy = direct;
  rationale = output.rationale;
  tasks = [];
  reducer = by_conversation;
}

abbrev pub is_browser : Choice → Bool
is_browser to_browser = true
is_browser choice = false

-- A plan in the background is its first task only.
unfoldable pub materialize_strategy :
    ExecutionMode → RouterOutput → RouterTask → List RouterTask → List Text → ExecutionPlan
unfolding create_background_task materialize_task
materialize_strategy direct output t ts path_hints = direct_plan output
materialize_strategy background output t ts path_hints = record {
  strategy = background;
  rationale = output.rationale;
  tasks = create_background_task t.goal (is_browser t.chosen) ∷ [];
  reducer = by_conversation;
}
materialize_strategy strategy output t ts path_hints = record {
  strategy = strategy;
  rationale = output.rationale;
  tasks = map (materialize_task path_hints) (t ∷ ts);
  reducer = if output.needs_validation then by_validator else by_conversation;
}

unfoldable pub materialize_router_output : RouterOutput → List Text → ExecutionPlan
unfolding materialize_strategy
materialize_router_output output path_hints = elim output.tasks [
  | [] ↦ direct_plan output
  | t ∷ ts ↦ materialize_strategy output.strategy output t ts path_hints
]

-- What is done if the router fails.
unfoldable pub fallback_plan : (request : Text) → ExecutionPlan
unfolding create_specialist_task
fallback_plan request = record {
  strategy = sequential;
  rationale = lit "Router fallback " ++ (8212 ∷ lit " defaulting to research specialist.");
  tasks = create_specialist_task research (specialist request none) ∷ [];
  reducer = by_conversation;
}

-- The number that some digits name, all of them digits.
unfoldable pub number_of : ℕ → Text → Option ℕ
number_of n [] = some n
number_of n (c ∷ cs) =
    let rest = number_of (n * 10 + (c - 48)) cs in if leb 48 c && leb c 57 then rest else none

abbrev pub some_number : Text → Option ℕ
some_number [] = none
some_number (c ∷ cs) = number_of 0 (c ∷ cs)

-- `/^task-(\d+)$/`: at least one digit.
unfoldable pub task_number : Text → Option ℕ
unfolding number_of starts_with
task_number s = if starts_with (lit "task-") s then some_number (drop 5 s) else none

-- A reference to a task by its place becomes its id; any other text stays.
unfoldable pub resolve_dependency : List Text → Text → Text
unfolding task_number
resolve_dependency ids dependency = elim (task_number dependency) [
  | none ↦ dependency
  | some n ↦ or_else (get_elem? ids n) dependency
]

unfoldable pub make_task :
    (TaskInput → Text) → (ids : List Text) → (id : Text) → PlannedTask → ExecutionTask
unfolding resolve_dependency
make_task spell ids id p = record {
  id = id;
  root_task_id = or_else (head? ids) id;
  parent_task_id = none;
  depth = 1;
  spawned_by_specialist = none;
  specialist = p.kind;
  runner_kind = p.runner_kind;
  mode = p.mode;
  input = spell p.input;
  dependencies = map (resolve_dependency ids) p.dependencies;
  input_bindings = [];
  resource_locks = p.resource_locks;
  mutates = p.mutates;
  writes_external = p.writes_external;
  requires_confirmation = p.requires_confirmation;
  requires_validation = p.requires_validation;
}

-- There is one id for each task.
unfoldable pub make_tasks :
    (TaskInput → Text) → (all ids : List Text) → List PlannedTask → List ExecutionTask
unfolding make_task
make_tasks spell all_ids [] ps = []
make_tasks spell all_ids (id ∷ ids) [] = []
make_tasks spell all_ids (id ∷ ids) (p ∷ ps) =
    make_task spell all_ids id p ∷ make_tasks spell all_ids ids ps

-- `ids` are the random ids that are drawn, as many as there are tasks.
unfoldable pub materialize_plan :
    (TaskInput → Text) → (ids : List Text) → ExecutionPlan → List ExecutionTask
unfolding make_tasks
materialize_plan spell ids plan = make_tasks spell ids ids plan.tasks
