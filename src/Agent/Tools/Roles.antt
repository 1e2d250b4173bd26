-- ===== src/Agent/Tools/Roles.antt =====
-- The tools that a role is offered.
use mathlib.Core.List.{map}
use workspaces.Common.{Text, text_eq, ◌≡◌, refl, Bool-cases, inl, inr}
use workspaces.Agent.Role.{Role, reviewer, pr_agent, tool_names_for_role}
use workspaces.Agent.Ollama.{ToolDef}
use workspaces.Agent.Tools.{defs_for_role}
use workspaces.Agent.Catalog.{new_tool_registry}

abbrev pub def_name : ToolDef → Text
def_name d = d.function.name

-- For every role, known or not, the model is offered exactly the tools that the role names, in
-- their order: every one of them is registered.
map-defs_for_role :
    (W : Type 0) (r : Role)
    → map def_name (defs_for_role (new_tool_registry W) r) ≡ tool_names_for_role r
unfolding defs_for_role new_tool_registry tool_names_for_role
map-defs_for_role W r = elim (Bool-cases (text_eq pr_agent r)) [
  | inl p ↦ rw p refl
  | inr p ↦ elim (Bool-cases (text_eq reviewer r)) [
    | inl q ↦ rw (p, q) refl
    | inr q ↦ rw (p, q) refl
  ]
]
