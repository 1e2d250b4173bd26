-- ===== src/Agent/Engine/Frame.antt =====
-- What a run of internal/agent/agent.go leaves alone: a property of the world that neither the model
-- nor the tools nor waiting spoil.
use workspaces.Common.{
  ℕ, zero, suc, ◌+◌, ◌*◌, Text, List, [], ◌∷◌, ◌≡◌, Option, none, some, Result, ok, err, Error,
  Step, message, Result-cases, Option-cases, Bool-cases, inl, inr, leb, arith,
}
use mathlib.Core.Path.{subst}
use workspaces.Types.{Task}
use workspaces.Sandbox.Driver.{Context}
use workspaces.Sandbox.Registry.Sql.{Time}
use workspaces.Agent.Role.{Role, model_for_role}
use workspaces.Agent.Accounting.{Accounting}
use workspaces.Agent.Ollama.{Arguments, ToolCall, ChatRequest, ChatResponse, ToolDef}
use workspaces.Agent.Tools.{Tool, get, defs_for_role}
use workspaces.Agent.Progress.{Progress, observe, max_iterations, initial}
use workspaces.Agent.Engine.{
  Engine, retry_loop, execute_tool_with_retry, max_tool_retries, request, round, after_chat,
  after_reply, after_loop, in_round, call_tools, react_loop, run,
}

module _ {W : Type 0} (E : Engine W) (P : W → Type 0) where
  pub record IsCalm : Type 0 where
    pub chat_keeps : (ctx : Context W) (req : ChatRequest) (w : W) → P w → P (E.chat ctx req w).1
    pub tool_keeps :
        (name : Text) {tool : Tool W}
        → get E.tools name ≡ some tool
        → (ctx : Context W) (id : Text) (args : Arguments) (w : W) → P w
        → P (tool.execute ctx id E.sandbox args w).1
    pub wait_keeps : (ctx : Context W) (ms : ℕ) (w : W) → P w → P (E.wait ctx ms w).1

  module _ (I : IsCalm) where
    retry_loop-keeps :
        (name : Text) (tool : Tool W)
        → get E.tools name ≡ some tool
        → (left n : ℕ) (ctx : Context W) (id : Text) (args : Arguments) (last : Error) (w : W) → P w
        → P (retry_loop E left n ctx id tool args last w).1
    unfolding retry_loop
    retry_loop-keeps name tool found zero n ctx id args last w p = p
    retry_loop-keeps name tool found (suc left) n ctx id args last w p =
        let r = tool.execute ctx id E.sandbox args w in
        let v = E.wait ctx (n * 500) r.1 in
        let ran = I.tool_keeps name found ctx id args w p in
        elim (Result-cases r.0) [
          | inl (s, e) ↦ subst P (ground (arith, e)) ran
          | inr (e, h) ↦ elim (Bool-cases (leb max_tool_retries n)) [
            | inl last_one ↦
                subst P (ground (arith, h, last_one))
                  (retry_loop-keeps name tool found left (n + 1) ctx id args e r.1 ran)
            | inr more ↦
                let waited = I.wait_keeps ctx (n * 500) r.1 ran in
                elim (Result-cases v.0) [
                  | inl (_, k) ↦
                      subst P (ground (arith, h, more, k))
                        (retry_loop-keeps name tool found left (n + 1) ctx id args e v.1 waited)
                  | inr (f, k) ↦ subst P (ground (arith, h, more, k)) waited
                ]
          ]
        ]

    execute_tool_with_retry-keeps :
        (ctx : Context W) (id name : Text) (args : Arguments) (w : W)
        → P w
        → P (execute_tool_with_retry E ctx id name args w).1
    unfolding execute_tool_with_retry
    execute_tool_with_retry-keeps ctx id name args w p = elim (Option-cases (get E.tools name)) [
      | inl e ↦ rw (e, execute_tool_with_retry) p
      | inr (tool, e) ↦
          rw (e, execute_tool_with_retry)
            (retry_loop-keeps name tool e max_tool_retries 1 ctx id args (message []) w p)
    ]

    call_tools-keeps :
        (ctx : Context W) (id : Text) (tcs : List ToolCall) (p : Progress) (w : W)
        → P w
        → P (call_tools E ctx id tcs p w).1
    unfolding call_tools
    call_tools-keeps ctx id [] p w h = h
    call_tools-keeps ctx id (tc ∷ tcs) p w h =
        call_tools-keeps ctx id tcs _ _
          (execute_tool_with_retry-keeps ctx id tc.name tc.arguments w h)

    after_reply-keeps :
        (continue : Progress → Step W (Text × Progress)) (ctx : Context W) (id : Text)
        (resp : ChatResponse) (tcs : List ToolCall) (p : Progress) (w : W)
        → ((q : Progress) (v : W) → P v → P (continue q v).1)
        → P w
        → P (after_reply E continue ctx id resp tcs p w).1
    unfolding after_reply
    after_reply-keeps continue ctx id resp [] p w h k = k
    after_reply-keeps continue ctx id resp (tc ∷ tcs) p w h k =
        h _ _ (call_tools-keeps ctx id (tc ∷ tcs) p w k)

    after_chat-keeps :
        (continue : Progress → Step W (Text × Progress)) (i : ℕ) (ctx : Context W) (id : Text)
        (p : Progress) (r : Result ChatResponse) (w : W)
        → ((q : Progress) (v : W) → P v → P (continue q v).1)
        → P w
        → P (after_chat E continue i ctx id p r w).1
    unfolding after_chat
    after_chat-keeps continue i ctx id p (err e) w h k = k
    after_chat-keeps continue i ctx id p (ok resp) w h k =
        after_reply-keeps continue ctx id resp resp.reply.tool_calls (observe resp p) w h k

    round-keeps :
        (continue : Progress → Step W (Text × Progress)) (i : ℕ) (ctx : Context W) (id model : Text)
        (defs : List ToolDef) (p : Progress) (o : Option Error) (w : W)
        → ((q : Progress) (v : W) → P v → P (continue q v).1)
        → P w
        → P (round E continue i ctx id model defs p o w).1
    unfolding round
    round-keeps continue i ctx id model defs p (some e) w h k = k
    round-keeps continue i ctx id model defs p none w h k =
        after_chat-keeps continue i ctx id (in_round E i p) _ _ h
          (I.chat_keeps ctx (request model defs p.messages) w k)

    react_loop-keeps :
        (left i : ℕ) (ctx : Context W) (id model : Text) (defs : List ToolDef) (p : Progress)
        (w : W)
        → P w
        → P (react_loop E left i ctx id model defs p w).1
    unfolding react_loop
    react_loop-keeps zero i ctx id model defs p w k = k
    react_loop-keeps (suc left) i ctx id model defs p w k =
        round-keeps (react_loop E left (i + 1) ctx id model defs) i ctx id model defs p (ctx w) w
          (λ q v. react_loop-keeps left (i + 1) ctx id model defs q v) k

    after_loop-keeps :
        (finished : Time) (r : Result (Text × Progress)) (runs : Accounting) (w : W)
        → P w
        → P (after_loop E finished r runs w).1.1
    unfolding after_loop
    after_loop-keeps finished (err e) runs w k = k
    after_loop-keeps finished (ok out) runs w k = k

    pub run-keeps :
        (started finished : Time) (ctx : Context W) (task : Task) (role : Role) (id : Text)
        (runs : Accounting) (w : W)
        → P w
        → P (run E started finished ctx task role id (runs, w)).1.1
    unfolding run
    run-keeps started finished ctx task role id runs w k = after_loop-keeps finished _ runs _ (
        react_loop-keeps max_iterations 0 ctx id (model_for_role role) (defs_for_role E.tools role)
          (initial task role started) w k)
