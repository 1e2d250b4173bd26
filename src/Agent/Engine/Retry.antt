-- ===== src/Agent/Engine/Retry.antt =====
-- How often a tool runs for one call of the model.
use workspaces.Common.{
  ℕ, zero, suc, ◌+◌, ◌*◌, ◌≤◌, Text, ◌≡◌, some, Error, message, [], arith, Result-cases, inl, inr,
}
use workspaces.Sandbox.Driver.{Context}
use workspaces.Agent.Ollama.{Arguments}
use workspaces.Agent.Tools.{Tool, get}
use workspaces.Agent.Engine.{Engine, retry_loop, execute_tool_with_retry, max_tool_retries}

module _ {W : Type 0} (E : Engine W) (tool : Tool W) (runs : W → ℕ) where
  -- A count of what the tool has done: a run adds one at most, and waiting adds nothing.
  record IsCount : Type 0 where
    pub execute_adds :
        (ctx : Context W) (id : Text) (args : Arguments) (w : W)
        → runs (tool.execute ctx id E.sandbox args w).1 ≤ runs w + 1
    pub wait_keeps : (ctx : Context W) (ms : ℕ) (w : W) → runs (E.wait ctx ms w).1 ≤ runs w

  retry_loop-count :
      IsCount
      → (left n : ℕ) (ctx : Context W) (id : Text) (args : Arguments) (last : Error) (w : W)
      → runs (retry_loop E left n ctx id tool args last w).1 ≤ runs w + left
  unfolding retry_loop
  retry_loop-count I zero n ctx id args last w = omega arith
  retry_loop-count I (suc left) n ctx id args last w =
      let r = tool.execute ctx id E.sandbox args w in
      let v = (E.wait ctx (n * 500) r.1).1 in
      elim (Result-cases r.0) [
        | inl (s, e) ↦ ground (arith, e, I.execute_adds ctx id args w)
        | inr (e, h) ↦ ground (
          arith,
          h,
          I.execute_adds ctx id args w,
          I.wait_keeps ctx (n * 500) r.1,
          retry_loop-count I left (n + 1) ctx id args e r.1,
          retry_loop-count I left (n + 1) ctx id args e v,
        )
      ]

  -- With a count that a run of the tool raises by one at most and waiting does not raise, a call
  -- of a registered tool raises it by three at most.
  execute_tool_with_retry-le :
      IsCount
      → (ctx : Context W) (id name : Text) (args : Arguments) (w : W) → get E.tools name ≡ some tool
      → runs (execute_tool_with_retry E ctx id name args w).1 ≤ runs w + max_tool_retries
  unfolding execute_tool_with_retry
  execute_tool_with_retry-le I ctx id name args w found =
      rw (found, execute_tool_with_retry)
        (retry_loop-count I max_tool_retries 1 ctx id args (message []) w)
