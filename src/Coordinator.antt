-- ===== src/Coordinator.antt =====
-- internal/coordinator/coordinator.go: the parts that the coordinator is given, and its methods,
-- which are stubs that return an error.
use workspaces.Common.{Text, text, Option, some, Error, message}
use workspaces.Sandbox.Driver.{Driver}
use workspaces.Agent.Engine.{Engine}
use workspaces.Context.{Manager}
use workspaces.Github.{Client}

not_implemented : Error
not_implemented = message (text "coordinator: not implemented")

pub record Coordinator (W : Type 0) : Type 0 where
  pub agent : Engine W
  pub context : Manager
  pub github : Client
  pub sandbox : Driver W

module _ {W : Type 0} (c : Coordinator W) where
  unfoldable pub run_pipeline : Text → Option Error
  unfolding not_implemented
  run_pipeline task_id = some not_implemented

  unfoldable pub run_fix_loop : Manager → Option Error
  unfolding not_implemented
  run_fix_loop m = some not_implemented

  unfoldable pub merge : Text → Option Error
  unfolding not_implemented
  merge task_id = some not_implemented
