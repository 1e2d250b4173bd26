-- ===== src/Context.antt =====
-- internal/context: the state of a task, and its manager, which is a stub without state. A Go map is
-- an association list, a slice or map that is nil the empty list.
use workspaces.Common.{Text, text, List, [], Option, some, Error, message}
use workspaces.Common.Int.{ℤ, pos}
use workspaces.Types.{Subtask, TestResult, ReviewComment}

pub record ProjectContext : Type 0 where
  pub repo_url : Text
  pub branch : Text
  pub task_id : Text
  pub pr_number : ℤ
  pub pr_status : Text
  pub last_commit : Text
  pub file_tree : List Text
  pub subtasks : List Subtask
  pub completed_work : List Text
  pub test_results : List TestResult
  pub lint_results : List Text
  pub build_status : Text
  pub review_comments : List ReviewComment
  pub decisions : List (Text × Text)
  pub patterns : List Text
  pub failed_approaches : List Text

pub record Delta : Type 0 where
  pub completed_work : List Text
  pub new_subtasks : List Subtask
  pub test_results : List TestResult
  pub lint_results : List Text
  pub build_status : Text
  pub new_decisions : List (Text × Text)
  pub new_patterns : List Text
  pub failed_approach : Text
  pub pr_number : ℤ
  pub pr_status : Text

pub record Event : Type 0 where
  pub task_id : Text
  pub delta : Delta

-- A struct without fields.
pub data Manager : Type 0 where
  manager : Manager

-- A closed channel with the values that it still holds.
pub data Channel (A : Type 0) : Type 0 where
  closed : List A → Channel A

unfoldable pub apply : Manager → Delta → Option Error
apply m delta = some (message (text "context manager: not implemented"))

unfoldable pub snapshot : Manager → ProjectContext
snapshot m = record {
  repo_url = [];
  branch = [];
  task_id = [];
  pr_number = pos 0;
  pr_status = [];
  last_commit = [];
  file_tree = [];
  subtasks = [];
  completed_work = [];
  test_results = [];
  lint_results = [];
  build_status = [];
  review_comments = [];
  decisions = [];
  patterns = [];
  failed_approaches = [];
}

unfoldable pub subscribe : Manager → Channel Event
subscribe m = closed []
