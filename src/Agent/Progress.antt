-- ===== src/Agent/Progress.antt =====
-- The variables of `Run` in internal/agent/agent.go, before, in and behind its loop.
use workspaces.Common.{
  ℕ, ◌+◌, Text, text, is_empty, List, [], ◌∷◌, ◌++◌, ◌&&◌, if◌then◌else◌, decimal, leb,
}
use workspaces.Common.Int.{pos, sub_ℕ, add64}
use workspaces.Types.{Task, Subtask}
use workspaces.Sandbox.Registry.Sql.{Time}
use workspaces.Agent.Role.{Role, model_for_role, role_system_prompt}
use workspaces.Agent.Ollama.{ChatMessage, ChatResponse}
use workspaces.Agent.Accounting.{RunStats, Accounting, record_run}

abbrev pub max_iterations : ℕ
max_iterations = 50

-- What `Run` writes about a subtask.
subtask_lines : ℕ → List Subtask → Text
subtask_lines i [] = []
subtask_lines i (st ∷ sts) =
    (decimal (i + 1) ++ text ". [" ++ st.status ++ text "] " ++ st.description ++ text "\n")
    ++ subtask_lines (i + 1) sts

unfoldable pub build_user_prompt : Task → Text
unfolding subtask_lines
build_user_prompt task =
    text "## Task: "
    ++ task.title
    ++ text "\n\n"
    ++ task.description
    ++ (elim task.subtasks [
      | [] ↦ []
      | st ∷ sts ↦ text "\n\n### Subtasks:\n" ++ subtask_lines 0 (st ∷ sts)
    ])
    ++ text
        "\n\nWork through this step by step. Use the tools to read files, write code, run commands, and commit your changes. When you are done, provide a summary of what you accomplished."

-- The variables of `Run` that its loop changes.
pub record Progress : Type 0 where
  pub messages : List ChatMessage
  pub stats : RunStats

-- The tokens of a response, and its message.
unfoldable pub observe : ChatResponse → Progress → Progress
observe resp p = record {
  messages = p.messages ++ resp.reply ∷ [];
  stats = record p.stats {
    prompt_tokens = add64 p.stats.prompt_tokens resp.prompt_eval_count;
    completion_tokens = add64 p.stats.completion_tokens resp.eval_count;
    total_tokens = add64 p.stats.total_tokens (add64 resp.prompt_eval_count resp.eval_count);
  };
}

unfoldable pub no_answer : Text
no_answer = text "agent reached maximum iterations without a final answer"

-- The variables before the loop.
unfoldable pub initial : Task → Role → Time → Progress
initial task role started = record {
  messages =
      (record { role = text "system"; content = role_system_prompt role; tool_calls = [] })
      ∷ (record { role = text "user"; content = build_user_prompt task; tool_calls = [] })
      ∷ [];
  stats = record {
    role = role;
    model = model_for_role role;
    iterations = 0;
    prompt_tokens = pos 0;
    completion_tokens = pos 0;
    total_tokens = pos 0;
    tool_calls = 0;
    wall_time = pos 0;
    started_at = started;
    finished_at = 0;
  };
}

-- What follows the loop.
unfoldable pub finish : Time → Text × Progress → Accounting → Text × Accounting
unfolding no_answer
finish finished (answer, p) runs = (
  if is_empty answer && leb max_iterations p.stats.iterations then no_answer else answer,
  record_run
      (record p.stats { finished_at = finished; wall_time = sub_ℕ finished p.stats.started_at })
      runs,
)
