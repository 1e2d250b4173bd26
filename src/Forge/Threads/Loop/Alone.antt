-- ===== src/Forge/Threads/Loop/Alone.antt =====
-- The ReAct loop of internal/agent/agent.go as a thread, with nobody in between.
use workspaces.Common.{
  ℕ, zero, suc, ◌+◌, ◌*◌, Text, List, [], ◌∷◌, Option, none, some, Result, ok, err, message, arith,
  leb, Error, Step, pure, ◌>>◌, if◌then◌else◌, ◌≡◌, refl, ◌∙◌, Result-cases, Option-cases,
  Bool-cases, inl, inr,
}
use workspaces.Sandbox.Driver.{Context}
use workspaces.Agent.Ollama.{Arguments, ToolCall, ToolDef, ChatResponse}
use workspaces.Agent.Tools.{Tool, get}
use workspaces.Agent.Progress.{Progress, observe}
use workspaces.Agent.Engine.{
  Engine, max_tool_retries, in_round, retry_loop, execute_tool_with_retry, call_tools, after_reply,
  after_chat, round, react_loop,
}
use workspaces.Forge.Threads.{Thread, done, act, followed_by, alone}
use workspaces.Forge.Threads.Loop.{
  waited_thread, tried_thread, retry_thread, tool_thread, calls_thread, replied_thread,
  chatted_thread, round_thread, loop_thread,
}

pub followed_by-alone :
    {X A B : Type 0} (t : Thread X A) (k : A → Thread X B) (x : X)
    → alone (followed_by t k) x ≡ alone (k (alone t x).0) (alone t x).1
unfolding alone
followed_by-alone (done a) k x = refl
followed_by-alone (act f g) k x = followed_by-alone (g x) k (f x)

module _ {W : Type 0} (E : Engine W) where
  -- What `retry_loop` does with the result of attempt `n`.
  abbrev tried : (Error → Step W Text) → ℕ → Context W → Result Text → Step W Text
  tried loop n ctx (ok result) = pure result
  tried loop n ctx (err e) =
      if leb max_tool_retries n then loop e else E.wait ctx (n * 500) >> loop e

  tried_thread-alone :
      (again : Error → Thread W (Result Text)) (loop : Error → Step W Text)
      → ((e : Error) (w : W) → alone (again e) w ≡ loop e w)
      → (n : ℕ) (ctx : Context W) (r : Result Text) (w : W)
      → alone (tried_thread E again n ctx r) w ≡ tried loop n ctx r w
  unfolding alone tried_thread waited_thread
  tried_thread-alone again loop same n ctx (ok result) w = refl
  tried_thread-alone again loop same n ctx (err e) w = elim (Bool-cases (leb max_tool_retries n)) [
    | inl g ↦ rw g (same e w)
    | inr g ↦ elim (Result-cases (E.wait ctx (n * 500) w).0) [
      | inl (_, h) ↦ ground (arith, g, h, same e (E.wait ctx (n * 500) w).1)
      | inr (d, h) ↦ ground (arith, g, h)
    ]
  ]

  retry_thread-alone :
      (left n : ℕ) (ctx : Context W) (id : Text) (tool : Tool W) (args : Arguments) (last : Error)
      (w : W)
      → alone (retry_thread E left n ctx id tool args last) w
        ≡ retry_loop E left n ctx id tool args last w
  unfolding alone retry_thread retry_loop
  retry_thread-alone zero n ctx id tool args last w = refl
  retry_thread-alone (suc left) n ctx id tool args last w =
      tried_thread-alone (retry_thread E left (n + 1) ctx id tool args)
        (retry_loop E left (n + 1) ctx id tool args)
        (retry_thread-alone left (n + 1) ctx id tool args) n ctx _ _

  tool_thread-alone :
      (ctx : Context W) (id name : Text) (args : Arguments) (w : W)
      → alone (tool_thread E ctx id name args) w ≡ execute_tool_with_retry E ctx id name args w
  unfolding alone tool_thread execute_tool_with_retry
  tool_thread-alone ctx id name args w = elim (Option-cases (get E.tools name)) [
    | inl e ↦ rw (tool_thread, execute_tool_with_retry, alone, e) refl
    | inr (tool, e) ↦
        rw (tool_thread, execute_tool_with_retry, e)
          (retry_thread-alone max_tool_retries 1 ctx id tool args (message []) w)
  ]

  calls_thread-alone :
      (ctx : Context W) (id : Text) (tcs : List ToolCall) (p : Progress) (w : W)
      → alone (calls_thread E ctx id tcs p) w ≡ call_tools E ctx id tcs p w
  unfolding alone calls_thread call_tools
  calls_thread-alone ctx id [] p w = refl
  calls_thread-alone ctx id (tc ∷ tcs) p w =
      followed_by-alone (tool_thread E ctx id tc.name tc.arguments) _ w
      ∙ rw (tool_thread-alone ctx id tc.name tc.arguments w) (calls_thread-alone ctx id tcs _ _)

  module _ (continue : Progress → Thread W (Result (Text × Progress)))
      (loop : Progress → W → Result (Text × Progress) × W)
      (same : (p : Progress) (w : W) → alone (continue p) w ≡ loop p w) where
    replied_thread-alone :
        (ctx : Context W) (id : Text) (resp : ChatResponse) (tcs : List ToolCall) (q : Progress)
        (w : W)
        → alone (replied_thread E continue ctx id resp tcs q) w
          ≡ after_reply E loop ctx id resp tcs q w
    unfolding alone replied_thread after_reply
    replied_thread-alone ctx id resp [] q w = refl
    replied_thread-alone ctx id resp (tc ∷ tcs) q w =
        followed_by-alone (calls_thread E ctx id (tc ∷ tcs) q) continue w
        ∙ rw (calls_thread-alone ctx id (tc ∷ tcs) q w) (same _ _)

    chatted_thread-alone :
        (i : ℕ) (ctx : Context W) (id : Text) (q : Progress) (r : Result ChatResponse) (w : W)
        → alone (chatted_thread E continue i ctx id q r) w ≡ after_chat E loop i ctx id q r w
    unfolding alone chatted_thread after_chat
    chatted_thread-alone i ctx id q (err e) w = refl
    chatted_thread-alone i ctx id q (ok resp) w =
        replied_thread-alone ctx id resp resp.reply.tool_calls (observe resp q) w

    round_thread-alone :
        (i : ℕ) (ctx : Context W) (id model : Text) (defs : List ToolDef) (p : Progress)
        (o : Option Error) (w : W)
        → alone (round_thread E continue i ctx id model defs p o) w
          ≡ round E loop i ctx id model defs p o w
    unfolding alone round_thread round
    round_thread-alone i ctx id model defs p (some e) w = refl
    round_thread-alone i ctx id model defs p none w =
        chatted_thread-alone i ctx id (in_round E i p) _ _

  pub loop_thread-alone :
      (left i : ℕ) (ctx : Context W) (id model : Text) (defs : List ToolDef) (p : Progress) (w : W)
      → alone (loop_thread E left i ctx id model defs p) w
        ≡ react_loop E left i ctx id model defs p w
  unfolding alone loop_thread react_loop
  loop_thread-alone zero i ctx id model defs p w = refl
  loop_thread-alone (suc left) i ctx id model defs p w =
      round_thread-alone (loop_thread E left (i + 1) ctx id model defs)
        (react_loop E left (i + 1) ctx id model defs)
        (loop_thread-alone left (i + 1) ctx id model defs) i ctx id model defs p (ctx w) w
