-- ===== src/Execution/Registry.antt =====
-- packages/agent/src/execution/registry.ts and packages/core/src/policies/tool-groups.ts: the
-- specialists, and the tools that one of them sees.
-- The prompts and the schemas of a specialist are left out.
pub mod Access
use amby.Common.{
  ℕ, ◌≡◌, refl, ap, ◌∙◌, inl, inr, Bool, true, ◌&&◌, ◌||◌, Option, none, some, List, [], ◌∷◌, any,
  any-filter, filter, ◌==◌, arith, if◌then◌else◌, or_else, Bool-cases,
}
use amby.Common.Text.{Text, text_eq, text_eq_iff}
use amby.Execution.Tasks.{
  SpecialistKind, conversation, planner, research, builder, integration, computer, browser, memory,
  settings, validator, RunnerKind, toolloop, browser_service,
}

pub data ToolGroupKey : Type 0 where
  memory_read memory_write sandbox_read sandbox_write settings_group automation : ToolGroupKey
  cua integration_group browser_group : ToolGroupKey

abbrev pub group_index : ToolGroupKey → ℕ
group_index memory_read = 0
group_index memory_write = 1
group_index sandbox_read = 2
group_index sandbox_write = 3
group_index settings_group = 4
group_index automation = 5
group_index cua = 6
group_index integration_group = 7
group_index browser_group = 8

abbrev pub same_group : ToolGroupKey → ToolGroupKey → Bool
same_group a b = group_index a == group_index b

-- The parts of `AgentRunConfig` that the registry reads.
pub record Config : Type 0 where
  pub default_model_id : Text
  pub high_reasoning_model_id : Option Text
  pub validator_model_id : Option Text
  pub sandbox_enabled : Bool
  pub cua_enabled : Bool
  pub integration_enabled : Bool
  pub allowed_tool_groups : Option (List ToolGroupKey)
  pub max_subagent_steps : SpecialistKind → Option ℕ

abbrev pub runner_of : SpecialistKind → RunnerKind
runner_of browser = browser_service
runner_of kind = toolloop

abbrev pub tool_groups_of : SpecialistKind → List ToolGroupKey
tool_groups_of research = memory_read ∷ sandbox_read ∷ []
tool_groups_of builder = memory_read ∷ sandbox_read ∷ sandbox_write ∷ []
tool_groups_of integration = integration_group ∷ []
tool_groups_of computer = cua ∷ []
tool_groups_of memory = memory_read ∷ memory_write ∷ []
tool_groups_of settings = settings_group ∷ automation ∷ []
tool_groups_of kind = []

-- The steps of a specialist for which the configuration names none.
abbrev pub default_steps : SpecialistKind → ℕ
default_steps conversation = 8
default_steps planner = 3
default_steps research = 8
default_steps builder = 10
default_steps integration = 10
default_steps computer = 16
default_steps browser = 24
default_steps memory = 5
default_steps settings = 6
default_steps validator = 4

unfoldable pub max_steps : SpecialistKind → Config → ℕ
max_steps kind config = or_else (config.max_subagent_steps kind) (default_steps kind)

abbrev pub high_reasoning_model : (fallback : Text) → Config → Text
high_reasoning_model fallback config = or_else config.high_reasoning_model_id fallback

unfoldable pub select_model : (fallback : Text) → SpecialistKind → Config → Text
select_model fallback planner config = high_reasoning_model fallback config
select_model fallback research config = high_reasoning_model fallback config
select_model fallback integration config = high_reasoning_model fallback config
select_model fallback validator config =
    or_else config.validator_model_id (high_reasoning_model fallback config)
select_model fallback kind config = config.default_model_id

-- `allowedToolGroups?.length ? ...`: a list that is missing or empty allows all.
unfoldable pub policy_groups : Option (List ToolGroupKey) → List ToolGroupKey → List ToolGroupKey
policy_groups none groups = groups
policy_groups (some []) groups = groups
policy_groups (some (a ∷ as_)) groups = filter (λ g. any (same_group g) (a ∷ as_)) groups

unfoldable pub is_enabled : Config → ToolGroupKey → Bool
is_enabled config integration_group = config.integration_enabled
is_enabled config cua = config.cua_enabled
is_enabled config sandbox_read = config.sandbox_enabled
is_enabled config sandbox_write = config.sandbox_enabled
is_enabled config group = true

unfoldable pub allowed_groups : SpecialistKind → Config → List ToolGroupKey
unfolding policy_groups is_enabled
allowed_groups kind config =
    filter (is_enabled config) (policy_groups config.allowed_tool_groups (tool_groups_of kind))

-- `ToolSet`, in the order of insertion.
abbrev pub ToolSet {ℓ} : Type ℓ → Type ℓ
ToolSet A = List (Text × A)

module _ {ℓ} {A : Type ℓ} where
  abbrev pub has_tool : Text → ToolSet A → Bool
  has_tool name tools = any (λ t. text_eq t.0 name) tools

  -- An old key keeps its place.
  unfoldable pub set_tool : Text → A → ToolSet A → ToolSet A
  set_tool name tool [] = (name, tool) ∷ []
  set_tool name tool ((k, old) ∷ tools) =
      let rest = set_tool name tool tools in
      if text_eq k name then (k, tool) ∷ tools else (k, old) ∷ rest

  -- `Object.assign(tools, more)`.
  unfoldable pub assign : ToolSet A → ToolSet A → ToolSet A
  unfolding set_tool
  assign tools [] = tools
  assign tools ((name, tool) ∷ more) = assign (set_tool name tool tools) more

  -- A group that is missing has no tools.
  unfoldable pub gather : (ToolGroupKey → ToolSet A) → List ToolGroupKey → ToolSet A → ToolSet A
  unfolding assign
  gather groups [] tools = tools
  gather groups (g ∷ gs) tools = gather groups gs (assign tools (groups g))

  unfoldable pub resolve_visible_tools :
      SpecialistKind → Config → (ToolGroupKey → ToolSet A) → ToolSet A
  unfolding allowed_groups gather
  resolve_visible_tools kind config groups = gather groups (allowed_groups kind config) []

  has_tool-set_tool :
      (name n : Text) (tool : A) (tools : ToolSet A)
      → has_tool name (set_tool n tool tools) ≡ (has_tool name tools || text_eq n name)
  unfolding set_tool
  has_tool-set_tool name n tool [] = ground arith
  has_tool-set_tool name n tool ((k, old) ∷ tools) = elim (Bool-cases (text_eq k n)) [
    | inl e ↦
        let same : k ≡ n = (text_eq_iff k n).0 e in
        rw e (ground (arith, ap (λ m. text_eq m name) same))
    | inr e ↦ rw e (ground (arith, has_tool-set_tool name n tool tools))
  ]

  has_tool-assign :
      (name : Text) (tools more : ToolSet A)
      → has_tool name (assign tools more) ≡ (has_tool name tools || has_tool name more)
  unfolding assign
  has_tool-assign name tools [] = ground arith
  has_tool-assign name tools ((n, tool) ∷ more) =
      let step = has_tool-assign name (set_tool n tool tools) more in
      let first = has_tool-set_tool name n tool tools in ground (arith, step, first)

  has_tool-gather :
      (name : Text) (groups : ToolGroupKey → ToolSet A) (gs : List ToolGroupKey) (tools : ToolSet A)
      → has_tool name (gather groups gs tools)
        ≡ (has_tool name tools || any (λ g. has_tool name (groups g)) gs)
  unfolding gather
  has_tool-gather name groups [] tools = ground arith
  has_tool-gather name groups (g ∷ gs) tools =
      let step = has_tool-gather name groups gs (assign tools (groups g)) in
      let first = has_tool-assign name tools (groups g) in ground (arith, step, first)

-- Whether the policy lets a group through: it names none, or this one.
abbrev pub allows : Option (List ToolGroupKey) → ToolGroupKey → Bool
allows none g = true
allows (some []) g = true
allows (some (a ∷ as_)) g = any (same_group g) (a ∷ as_)

policy_groups_lem :
    (q : ToolGroupKey → Bool) (policy : Option (List ToolGroupKey)) (gs : List ToolGroupKey)
    → any q (policy_groups policy gs) ≡ any (λ g. allows policy g && q g) gs
unfolding policy_groups
policy_groups_lem q none gs = refl
policy_groups_lem q (some []) gs = refl
policy_groups_lem q (some (a ∷ as_)) gs = any-filter q (λ g. any (same_group g) (a ∷ as_)) gs

pub has_tool-resolve_visible_tools {ℓ} :
    {A : Type ℓ} (name : Text) (kind : SpecialistKind) (config : Config)
    (groups : ToolGroupKey → ToolSet A)
    → has_tool name (resolve_visible_tools kind config groups)
      ≡ any
          (λ g.
            allows config.allowed_tool_groups g
            && (is_enabled config g && has_tool name (groups g)))
          (tool_groups_of kind)
unfolding resolve_visible_tools allowed_groups
has_tool-resolve_visible_tools name kind config groups =
    let own : ToolGroupKey → Bool = λ g. has_tool name (groups g) in
    has_tool-gather name groups (allowed_groups kind config) []
    ∙ any-filter own (is_enabled config)
        (policy_groups config.allowed_tool_groups (tool_groups_of kind))
    ∙ policy_groups_lem (λ g. is_enabled config g && own g) config.allowed_tool_groups
        (tool_groups_of kind)
