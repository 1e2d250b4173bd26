-- ===== src/Types.antt =====
-- internal/types/types.go: the shared domain types.
use workspaces.Common.{Text, text, List, Bool}
use workspaces.Common.Int.{ℤ}
use workspaces.Sandbox.Driver.{ExecResult}
use workspaces.Sandbox.Registry.Sql.{Time}

-- An open string type.
abbrev pub TaskStatus : Type 0
TaskStatus = Text

unfoldable pub pending : TaskStatus
pending = text "pending"

unfoldable pub running : TaskStatus
running = text "running"

unfoldable pub finished : TaskStatus
finished = text "done"

unfoldable pub failed : TaskStatus
failed = text "failed"

unfoldable pub canceled : TaskStatus
canceled = text "canceled"

pub record Subtask : Type 0 where
  pub id : Text
  pub task_id : Text
  pub description : Text
  pub status : TaskStatus
  pub result : ExecResult

pub record Task : Type 0 where
  pub id : Text
  pub title : Text
  pub description : Text
  pub status : TaskStatus
  pub subtasks : List Subtask
  pub pr_number : ℤ
  pub pr_status : Text
  pub created_at : Time
  pub updated_at : Time

-- An open string type.
abbrev pub NotificationType : Type 0
NotificationType = Text

unfoldable pub info : NotificationType
info = text "info"

unfoldable pub success : NotificationType
success = text "success"

unfoldable pub warning : NotificationType
warning = text "warning"

unfoldable pub error : NotificationType
error = text "error"

pub record Notification : Type 0 where
  pub id : Text
  pub kind : NotificationType
  pub message : Text
  pub task_id : Text
  pub created_at : Time

pub record ReviewComment : Type 0 where
  pub id : ℤ
  pub body : Text
  pub path : Text
  pub line : ℤ
  pub resolved : Bool

pub record TestResult : Type 0 where
  pub passed : Bool
  pub output : Text
  pub elapsed : Text

pub record Config : Type 0 where
  pub port : Text
  pub sandbox_driver : Text
  pub github_token : Text
  pub ollama_url : Text
