-- ===== src/Agent/Engine/Chats.antt =====
-- How often a run of internal/agent/agent.go asks the model.
use workspaces.Common.{
  ℕ, zero, suc, ◌+◌, ◌*◌, ◌≤◌, Text, List, [], ◌∷◌, ◌≡◌, refl, Option, none, some, Result, ok, err,
  Error, Step, message, arith, Result-cases, Option-cases, inl, inr,
}
use workspaces.Types.{Task}
use workspaces.Sandbox.Driver.{Context}
use workspaces.Sandbox.Registry.Sql.{Time}
use workspaces.Agent.Role.{Role, model_for_role}
use workspaces.Agent.Accounting.{Accounting}
use workspaces.Agent.Ollama.{Arguments, ToolCall, ChatRequest, ChatResponse, ToolDef}
use workspaces.Agent.Tools.{Tool, get, defs_for_role}
use workspaces.Agent.Progress.{Progress, observe, max_iterations, initial}
use workspaces.Agent.Engine.{
  Engine, retry_loop, execute_tool_with_retry, max_tool_retries, request, round, after_chat,
  after_reply, after_loop, in_round, call_tools, react_loop, run,
}

module _ {W : Type 0} (E : Engine W) (chats : W → ℕ) where
  -- A count of what the model is asked: a call of `Chat` adds one at most, and neither the tools nor
  -- waiting adds anything.
  pub record IsMeter : Type 0 where
    pub chat_adds :
        (ctx : Context W) (req : ChatRequest) (w : W) → chats (E.chat ctx req w).1 ≤ chats w + 1
    pub tool_keeps :
        (name : Text) {tool : Tool W}
        → get E.tools name ≡ some tool
        → (ctx : Context W) (id : Text) (args : Arguments) (w : W)
        → chats (tool.execute ctx id E.sandbox args w).1 ≤ chats w
    pub wait_keeps : (ctx : Context W) (ms : ℕ) (w : W) → chats (E.wait ctx ms w).1 ≤ chats w

  module _ (I : IsMeter) where
    retry_loop-chats :
        (name : Text) (tool : Tool W)
        → get E.tools name ≡ some tool
        → (left n : ℕ) (ctx : Context W) (id : Text) (args : Arguments) (last : Error) (w : W)
        → chats (retry_loop E left n ctx id tool args last w).1 ≤ chats w
    unfolding retry_loop
    retry_loop-chats name tool found zero n ctx id args last w = omega arith
    retry_loop-chats name tool found (suc left) n ctx id args last w =
        let r = tool.execute ctx id E.sandbox args w in
        let v = (E.wait ctx (n * 500) r.1).1 in
        let runs = I.tool_keeps name found ctx id args w in
        elim (Result-cases r.0) [
          | inl (s, e) ↦ ground (arith, e, runs)
          | inr (e, h) ↦ ground (
            arith,
            h,
            runs,
            I.wait_keeps ctx (n * 500) r.1,
            retry_loop-chats name tool found left (n + 1) ctx id args e r.1,
            retry_loop-chats name tool found left (n + 1) ctx id args e v,
          )
        ]

    execute_tool_with_retry-chats :
        (ctx : Context W) (id name : Text) (args : Arguments) (w : W)
        → chats (execute_tool_with_retry E ctx id name args w).1 ≤ chats w
    unfolding execute_tool_with_retry
    execute_tool_with_retry-chats ctx id name args w = elim (Option-cases (get E.tools name)) [
      | inl e ↦ rw (e, execute_tool_with_retry) (omega arith)
      | inr (tool, e) ↦
          rw (e, execute_tool_with_retry)
            (retry_loop-chats name tool e max_tool_retries 1 ctx id args (message []) w)
    ]

    call_tools-chats :
        (ctx : Context W) (id : Text) (tcs : List ToolCall) (p : Progress) (w : W)
        → chats (call_tools E ctx id tcs p w).1 ≤ chats w
    unfolding call_tools
    call_tools-chats ctx id [] p w = omega arith
    call_tools-chats ctx id (tc ∷ tcs) p w = omega (
      arith,
      execute_tool_with_retry-chats ctx id tc.name tc.arguments w,
      call_tools-chats ctx id tcs _ (execute_tool_with_retry E ctx id tc.name tc.arguments w).1,
    )

    after_reply-chats :
        (left : ℕ) (continue : Progress → Step W (Text × Progress)) (ctx : Context W) (id : Text)
        (resp : ChatResponse) (tcs : List ToolCall) (p : Progress) (w : W)
        → ((q : Progress) (v : W) → chats (continue q v).1 ≤ chats v + left)
        → chats (after_reply E continue ctx id resp tcs p w).1 ≤ chats w + left
    unfolding after_reply
    after_reply-chats left continue ctx id resp [] p w h = omega arith
    after_reply-chats left continue ctx id resp (tc ∷ tcs) p w h =
        let s = call_tools E ctx id (tc ∷ tcs) p w in
        omega (arith, call_tools-chats ctx id (tc ∷ tcs) p w, h s.0 s.1)

    round-chats :
        (left : ℕ) (continue : Progress → Step W (Text × Progress)) (i : ℕ) (ctx : Context W)
        (id model : Text) (defs : List ToolDef) (p : Progress) (o : Option Error) (w : W)
        → ((q : Progress) (v : W) → chats (continue q v).1 ≤ chats v + left)
        → chats (round E continue i ctx id model defs p o w).1 ≤ chats w + suc left
    unfolding round after_chat
    round-chats left continue i ctx id model defs p (some e) w h = omega arith
    round-chats left continue i ctx id model defs p none w h =
        let req = request model defs p.messages in
        let r = E.chat ctx req w in
        elim (Result-cases r.0) [
          | inl (resp, e) ↦
              rw (e, after_chat)
                (omega (
                  arith,
                  I.chat_adds ctx req w,
                  after_reply-chats left continue ctx id resp resp.reply.tool_calls
                      (observe resp (in_round E i p)) r.1 h,
                ))
          | inr (x, e) ↦ rw (e, after_chat) (omega (arith, I.chat_adds ctx req w))
        ]

    react_loop-chats :
        (left i : ℕ) (ctx : Context W) (id model : Text) (defs : List ToolDef) (p : Progress)
        (w : W)
        → chats (react_loop E left i ctx id model defs p w).1 ≤ chats w + left
    unfolding react_loop
    react_loop-chats zero i ctx id model defs p w = omega arith
    react_loop-chats (suc left) i ctx id model defs p w =
        round-chats left (react_loop E left (i + 1) ctx id model defs) i ctx id model defs p (ctx w)
          w (λ q v. react_loop-chats left (i + 1) ctx id model defs q v)

    after_loop-world :
        (finished : Time) (r : Result (Text × Progress)) (runs : Accounting) (w : W)
        → (after_loop E finished r runs w).1.1 ≡ w
    unfolding after_loop
    after_loop-world finished (err e) runs w = refl
    after_loop-world finished (ok out) runs w = refl

    -- With a count that a call of `Chat` raises by one at most and that neither the tools nor waiting
    -- raise, a run raises it by fifty at most, however it ends: the model is asked no more often.
    pub run-chats :
        (started finished : Time) (ctx : Context W) (task : Task) (role : Role) (id : Text)
        (runs : Accounting) (w : W)
        → chats (run E started finished ctx task role id (runs, w)).1.1 ≤ chats w + max_iterations
    unfolding run
    run-chats started finished ctx task role id runs w =
        let model = model_for_role role in
        let defs = defs_for_role E.tools role in
        let p = initial task role started in
        let r = react_loop E max_iterations 0 ctx id model defs p w in
        rw (after_loop-world finished r.0 runs r.1)
          (react_loop-chats max_iterations 0 ctx id model defs p w)
