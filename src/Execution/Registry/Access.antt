-- ===== src/Execution/Registry/Access.antt =====
-- Which specialists may use a group of tools, and what a run must have enabled for it: the same
-- access as in packages/agent/src/execution/registry.ts, written down from the side of the groups.
use amby.Common.{◌≡◌, ◌∙◌, Bool, true, false, ◌&&◌, List, [], ◌∷◌, any, arith}
use amby.Common.Text.{Text}
use amby.Execution.Tasks.{
  SpecialistKind, conversation, planner, research, builder, integration, computer, browser, memory,
  settings, validator,
}
use amby.Execution.Registry.{
  ToolGroupKey, memory_read, memory_write, sandbox_read, sandbox_write, settings_group, automation,
  cua, integration_group, browser_group, Config, ToolSet, has_tool, allows, tool_groups_of,
  resolve_visible_tools, has_tool-resolve_visible_tools, is_enabled,
}

abbrev pub all_groups : List ToolGroupKey
all_groups =
    memory_read ∷ memory_write ∷ sandbox_read ∷ sandbox_write ∷ settings_group ∷ automation ∷ cua
    ∷ integration_group ∷ browser_group ∷ []

-- The specialists that a group is meant for; nobody is given the tools of the browser.
abbrev pub is_for : ToolGroupKey → SpecialistKind → Bool
is_for memory_read kind = elim kind [ research ↦ true | builder ↦ true | memory ↦ true | _ ↦ false ]
is_for memory_write kind = elim kind [ memory ↦ true | _ ↦ false ]
is_for sandbox_read kind = elim kind [ research ↦ true | builder ↦ true | _ ↦ false ]
is_for sandbox_write kind = elim kind [ builder ↦ true | _ ↦ false ]
is_for settings_group kind = elim kind [ settings ↦ true | _ ↦ false ]
is_for automation kind = elim kind [ settings ↦ true | _ ↦ false ]
is_for cua kind = elim kind [ computer ↦ true | _ ↦ false ]
is_for integration_group kind = elim kind [ integration ↦ true | _ ↦ false ]
is_for browser_group kind = false

-- What a run must have for the tools of a group to work.
pub data Need : Type 0 where
  nothing sandbox desktop accounts : Need

abbrev pub need_of : ToolGroupKey → Need
need_of sandbox_read = Need.sandbox
need_of sandbox_write = Need.sandbox
need_of cua = Need.desktop
need_of integration_group = Need.accounts
need_of group = Need.nothing

abbrev pub has : Config → Need → Bool
has config Need.nothing = true
has config Need.sandbox = config.sandbox_enabled
has config Need.desktop = config.cua_enabled
has config Need.accounts = config.integration_enabled

-- Whether a specialist may use a group in a run.
abbrev pub may_use : Config → SpecialistKind → ToolGroupKey → Bool
may_use config kind g =
    is_for g kind && (allows config.allowed_tool_groups g && has config (need_of g))

by_group :
    (kind : SpecialistKind) (config : Config) (own : ToolGroupKey → Bool)
    → any
        (λ g. allows config.allowed_tool_groups g && (is_enabled config g && own g))
        (tool_groups_of kind)
      ≡ any (λ g. may_use config kind g && own g) all_groups
unfolding is_enabled
by_group conversation config own = ground arith
by_group planner config own = ground arith
by_group research config own = ground arith
by_group builder config own = ground arith
by_group integration config own = ground arith
by_group computer config own = ground arith
by_group browser config own = ground arith
by_group memory config own = ground arith
by_group settings config own = ground arith
by_group validator config own = ground arith

-- A specialist sees a tool of a name exactly if a group with such a tool is meant for it, the policy
-- names no groups or this one, and the run has what the group needs: a sandbox for reading and
-- writing in it, a desktop for operating it, and accounts for the integrations.
pub resolve_visible_tools_lem {ℓ} :
    {A : Type ℓ} (name : Text) (kind : SpecialistKind) (config : Config)
    (groups : ToolGroupKey → ToolSet A)
    → has_tool name (resolve_visible_tools kind config groups)
      ≡ any (λ g. may_use config kind g && has_tool name (groups g)) all_groups
resolve_visible_tools_lem name kind config groups =
    has_tool-resolve_visible_tools name kind config groups
    ∙ by_group kind config (λ g. has_tool name (groups g))
