-- ===== src/Forge/Threads/Loop.antt =====
-- The ReAct loop of internal/agent/agent.go as a thread: a look at the context, a chat with the model,
-- an attempt at a tool and a back-off are one action each.
pub mod Alone
use workspaces.Common.{
  ℕ, zero, suc, ◌+◌, ◌*◌, Text, text, List, [], ◌∷◌, ◌++◌, Option, none, some, Result, ok, err,
  Error, message, wrapped, decimal, leb, if◌then◌else◌, ◌≡◌, refl, ◌∙◌, ap, Result-cases,
  Option-cases, Bool-cases, inl, inr,
}
use workspaces.Sandbox.Driver.{Context}
use workspaces.Agent.Ollama.{Arguments, ToolCall, ToolDef, ChatResponse}
use workspaces.Agent.Tools.{Tool, get}
use workspaces.Agent.Progress.{Progress, observe}
use workspaces.Agent.Engine.{
  Engine, max_tool_retries, tool_message, request, in_round, retry_loop, execute_tool_with_retry,
  call_tools, react_loop,
}
use workspaces.Forge.Threads.{Thread, done, act, call, followed_by, alone}

module _ {W : Type 0} (E : Engine W) where
  waited_thread : Thread W (Result Text) → Result (Unit {0}) → Thread W (Result Text)
  waited_thread again (ok _) = again
  waited_thread again (err e) = done (err e)

  -- What follows attempt `n`, from what follows a back-off.
  tried_thread :
      (Error → Thread W (Result Text)) → ℕ → Context W → Result Text → Thread W (Result Text)
  unfolding waited_thread
  tried_thread again n ctx (ok result) = done (ok result)
  tried_thread again n ctx (err e) =
      if leb max_tool_retries n
      then again e
      else call (E.wait ctx (n * 500)) (waited_thread (again e))

  unfoldable pub retry_thread :
      ℕ → ℕ → Context W → Text → Tool W → Arguments → Error → Thread W (Result Text)
  unfolding tried_thread
  retry_thread zero n ctx id tool args last = done (
      err (
        wrapped
          (text "tool "
            ++ tool.name
            ++ text " failed after "
            ++ decimal max_tool_retries
            ++ text " attempts: ")
          last))
  retry_thread (suc left) n ctx id tool args last =
      call (tool.execute ctx id E.sandbox args)
        (tried_thread (retry_thread left (n + 1) ctx id tool args) n ctx)

  unfoldable pub tool_thread : Context W → Text → Text → Arguments → Thread W (Result Text)
  unfolding retry_thread
  tool_thread ctx id name args = elim (get E.tools name) [
    | none ↦ done (err (message (text "unknown tool: " ++ name)))
    | some tool ↦ retry_thread max_tool_retries 1 ctx id tool args (message [])
  ]

  -- The loop over the tool calls of a message.
  unfoldable pub calls_thread : Context W → Text → List ToolCall → Progress → Thread W Progress
  unfolding tool_thread
  calls_thread ctx id [] p = done p
  calls_thread ctx id (tc ∷ tcs) p = followed_by (tool_thread ctx id tc.name tc.arguments) (λ r.
      calls_thread ctx id tcs (record {
        messages = p.messages ++ tool_message tc.name r ∷ [];
        stats = record p.stats { tool_calls = p.stats.tool_calls + 1 };
      }))

  -- The rest of a round behind the model's reply.
  replied_thread :
      (Progress → Thread W (Result (Text × Progress)))
      → Context W
      → Text
      → ChatResponse
      → List ToolCall
      → Progress
      → Thread W (Result (Text × Progress))
  replied_thread continue ctx id resp [] q = done (ok (resp.reply.content, q))
  replied_thread continue ctx id resp (tc ∷ tcs) q =
      followed_by (calls_thread ctx id (tc ∷ tcs) q) continue

  chatted_thread :
      (Progress → Thread W (Result (Text × Progress)))
      → ℕ
      → Context W
      → Text
      → Progress
      → Result ChatResponse
      → Thread W (Result (Text × Progress))
  unfolding replied_thread
  chatted_thread continue i ctx id q (err e) =
      done
        (err (wrapped (text "agent: ollama chat error at iteration " ++ decimal i ++ text ": ") e))
  chatted_thread continue i ctx id q (ok resp) =
      replied_thread continue ctx id resp resp.reply.tool_calls (observe resp q)

  -- Round `i`, from what the context says.
  round_thread :
      (Progress → Thread W (Result (Text × Progress)))
      → ℕ
      → Context W
      → Text
      → Text
      → List ToolDef
      → Progress
      → Option Error
      → Thread W (Result (Text × Progress))
  unfolding chatted_thread
  round_thread continue i ctx id model defs p (some e) =
      done
        (err (wrapped (text "agent: context cancelled at iteration " ++ decimal i ++ text ": ") e))
  round_thread continue i ctx id model defs p none =
      call (E.chat ctx (request model defs p.messages))
        (chatted_thread continue i ctx id (in_round E i p))

  -- The loop from round `i` on, with the rounds left.
  unfoldable pub loop_thread :
      ℕ
      → ℕ
      → Context W
      → Text
      → Text
      → List ToolDef
      → Progress
      → Thread W (Result (Text × Progress))
  unfolding round_thread
  loop_thread zero i ctx id model defs p = done (ok ([], p))
  loop_thread (suc left) i ctx id model defs p =
      call (λ w. (ctx w, w))
        (round_thread (loop_thread left (i + 1) ctx id model defs) i ctx id model defs p)
