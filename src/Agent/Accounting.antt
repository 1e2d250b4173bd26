-- ===== src/Agent/Accounting.antt =====
-- internal/agent/accounting.go. The mutex makes each method one step.
use workspaces.Common.{ℕ, ◌+◌, Text, List, [], ◌∷◌, ◌++◌, ◌≡◌, refl}
use workspaces.Common.Int.{ℤ, pos, add64}
use workspaces.Sandbox.Registry.Sql.{Time}
use workspaces.Agent.Role.{Role}

-- Tokens and durations are the program's `int` and `time.Duration`, and wrap; the other counts stay
-- far below the width.
pub record RunStats : Type 0 where
  pub role : Role
  pub model : Text
  pub iterations : ℕ
  pub prompt_tokens : ℤ
  pub completion_tokens : ℤ
  pub total_tokens : ℤ
  pub tool_calls : ℕ
  pub wall_time : ℤ
  pub started_at : Time
  pub finished_at : Time

abbrev pub Accounting : Type 0
Accounting = List RunStats

unfoldable pub new_accounting : Accounting
new_accounting = []

unfoldable pub record_run : RunStats → Accounting → Accounting
record_run s runs = runs ++ s ∷ []

-- A copy of the slice.
unfoldable pub runs_of : Accounting → List RunStats
runs_of runs = runs

abbrev pub zero_stats : RunStats
zero_stats = record {
  role = [];
  model = [];
  iterations = 0;
  prompt_tokens = pos 0;
  completion_tokens = pos 0;
  total_tokens = pos 0;
  tool_calls = 0;
  wall_time = pos 0;
  started_at = 0;
  finished_at = 0;
}

-- One round of the loop of `Summary`.
unfoldable pub add_run : RunStats → RunStats → RunStats
add_run s r = record s {
  iterations = s.iterations + r.iterations;
  prompt_tokens = add64 s.prompt_tokens r.prompt_tokens;
  completion_tokens = add64 s.completion_tokens r.completion_tokens;
  total_tokens = add64 s.total_tokens r.total_tokens;
  tool_calls = s.tool_calls + r.tool_calls;
  wall_time = add64 s.wall_time r.wall_time;
}

summary_loop : List RunStats → RunStats → RunStats
summary_loop [] s = s
summary_loop (r ∷ runs) s = summary_loop runs (add_run s r)

unfoldable pub summary : Accounting → RunStats
unfolding summary_loop add_run
summary runs = summary_loop runs zero_stats

summary_loop-append :
    (xs : List RunStats) (r s : RunStats)
    → summary_loop (xs ++ r ∷ []) s ≡ add_run (summary_loop xs s) r
unfolding summary_loop
summary_loop-append [] r s = refl
summary_loop-append (x ∷ xs) r s = summary_loop-append xs r (add_run s x)

-- Recording a run adds its counts to the summary, and nothing else.
summary-record_run :
    (s : RunStats) (runs : Accounting) → summary (record_run s runs) ≡ add_run (summary runs) s
unfolding summary record_run
summary-record_run s runs = summary_loop-append runs s zero_stats
