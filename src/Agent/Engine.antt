-- ===== src/Agent/Engine.antt =====
-- internal/agent/agent.go. `W` is the world outside the process; the log lines are left out.
pub mod Retry
pub mod Loop
pub mod Runs
pub mod Setup
pub mod Chats
pub mod Frame
use workspaces.Common.{
  ℕ, zero, suc, ◌+◌, ◌*◌, ◌-◌, Text, text, is_empty, List, [], ◌∷◌, ◌++◌, Bool, true, false, ◌&&◌,
  Option, none, some, Result, ok, err, Error, message, wrapped, error_text, Step, attempt, ◌>>=◌,
  ◌>>◌, pure, fail, if◌then◌else◌, decimal, leb, context,
}
use workspaces.Common.Int.{ℤ, pos, sub_ℕ, add64}
use workspaces.Types.{Task, Subtask}
use workspaces.Sandbox.Driver.{Context, Driver, Config}
use workspaces.Sandbox.Registry.Sql.{Time}
use workspaces.Agent.Role.{Role, model_for_role, role_system_prompt}
use workspaces.Agent.Ollama.{
  Arguments, ToolCall, ChatMessage, ChatRequest, ChatResponse, ModelOptions, ToolDef,
}
use workspaces.Agent.Tools.{Tool, ToolRegistry, get, defs_for_role}
use workspaces.Agent.Progress.{max_iterations, Progress, observe, no_answer, initial, finish}
use workspaces.Agent.Accounting.{RunStats, Accounting, record_run}

abbrev pub max_tool_retries : ℕ
max_tool_retries = 3

-- The engine's dependencies: the driver, the client's `Chat`, the tools, and the `select` of a
-- back-off, which waits for the milliseconds or ends early with the context's error.
pub record Engine (W : Type 0) : Type 0 where
  pub sandbox : Driver W
  pub chat : Context W → ChatRequest → Step W ChatResponse
  pub tools : ToolRegistry W
  pub wait : Context W → ℕ → Step W (Unit {0})
  pub background : Context W

-- The message that feeds a tool's result back.
unfoldable pub tool_message : Text → Result Text → ChatMessage
tool_message name r = record {
  role = text "tool";
  content =
      text "["
      ++ name
      ++ text "] "
      ++ (elim r [ ok s ↦ s | err e ↦ text "ERROR: " ++ error_text e ]);
  tool_calls = [];
}

unfoldable pub request : Text → List ToolDef → List ChatMessage → ChatRequest
request model defs messages = record {
  model = model;
  messages = messages;
  tools = defs;
  stream = false;
  options = record { temperature = 100; num_ctx = 8192 };
}

module _ {W : Type 0} (E : Engine W) where
  -- The loop over the attempts; the first argument counts those left, this one included.
  unfoldable pub retry_loop : ℕ → ℕ → Context W → Text → Tool W → Arguments → Error → Step W Text
  retry_loop zero n ctx id tool args last = fail (
      wrapped
        (text "tool "
          ++ tool.name
          ++ text " failed after "
          ++ decimal max_tool_retries
          ++ text " attempts: ")
        last)
  retry_loop (suc left) n ctx id tool args last = attempt (tool.execute ctx id E.sandbox args) (λ r.
      elim r [
        | ok result ↦ pure result
        | err e ↦
            if leb max_tool_retries n
            then retry_loop left (n + 1) ctx id tool args e
            else E.wait ctx (n * 500) >> retry_loop left (n + 1) ctx id tool args e
      ])

  unfoldable pub execute_tool_with_retry : Context W → Text → Text → Arguments → Step W Text
  unfolding retry_loop
  execute_tool_with_retry ctx id name args = elim (get E.tools name) [
    | none ↦ fail (message (text "unknown tool: " ++ name))
    | some tool ↦ retry_loop max_tool_retries 1 ctx id tool args (message [])
  ]

  -- The loop over the tool calls of a message: an error is a result too.
  unfoldable pub call_tools : Context W → Text → List ToolCall → Progress → W → Progress × W
  unfolding tool_message
  call_tools ctx id [] p w = (p, w)
  call_tools ctx id (tc ∷ tcs) p w =
      let r = execute_tool_with_retry ctx id tc.name tc.arguments w in
      call_tools ctx id tcs
        (record {
          messages = p.messages ++ tool_message tc.name r.0 ∷ [];
          stats = record p.stats { tool_calls = p.stats.tool_calls + 1 };
        })
        r.1

  -- The rest of a round behind the model's reply: a reply without tool calls ends the loop.
  unfoldable pub after_reply :
      (Progress → Step W (Text × Progress))
      → Context W
      → Text
      → ChatResponse
      → List ToolCall
      → Progress
      → Step W (Text × Progress)
  after_reply continue ctx id resp [] q w = (ok (resp.reply.content, q), w)
  after_reply continue ctx id resp (tc ∷ tcs) q w =
      let s = call_tools ctx id (tc ∷ tcs) q w in continue s.0 s.1

  unfoldable pub after_chat :
      (Progress → Step W (Text × Progress))
      → ℕ
      → Context W
      → Text
      → Progress
      → Result ChatResponse
      → Step W (Text × Progress)
  unfolding after_reply observe
  after_chat continue i ctx id q (err e) =
      fail (wrapped (text "agent: ollama chat error at iteration " ++ decimal i ++ text ": ") e)
  after_chat continue i ctx id q (ok resp) =
      after_reply continue ctx id resp resp.reply.tool_calls (observe resp q)

  abbrev pub in_round : ℕ → Progress → Progress
  in_round i p = record p { stats = record p.stats { iterations = i + 1 } }

  -- Round `i`, from what the context says; the first argument is the loop from the next round on.
  unfoldable pub round :
      (Progress → Step W (Text × Progress))
      → ℕ
      → Context W
      → Text
      → Text
      → List ToolDef
      → Progress
      → Option Error
      → Step W (Text × Progress)
  unfolding after_chat request
  round continue i ctx id model defs p (some e) w =
      (err (wrapped (text "agent: context cancelled at iteration " ++ decimal i ++ text ": ") e), w)
  round continue i ctx id model defs p none w =
      let r = E.chat ctx (request model defs p.messages) w in
      after_chat continue i ctx id (in_round i p) r.0 r.1

  -- The ReAct loop from round `i` on, with the rounds left: its answer and its variables.
  unfoldable pub react_loop :
      ℕ → ℕ → Context W → Text → Text → List ToolDef → Progress → Step W (Text × Progress)
  unfolding round call_tools
  react_loop zero i ctx id model defs p w = (ok ([], p), w)
  react_loop (suc left) i ctx id model defs p w =
      round (react_loop left (i + 1) ctx id model defs) i ctx id model defs p (ctx w) w

  -- Only a loop that ends well is recorded.
  unfoldable pub after_loop :
      Time → Result (Text × Progress) → Accounting → W → Result Text × (Accounting × W)
  unfolding finish
  after_loop finished (err e) runs w = (err e, (runs, w))
  after_loop finished (ok out) runs w =
      let (answer, runs') = finish finished out runs in (ok answer, (runs', w))

  -- `Run`, with the two times that `time.Now` returns.
  unfoldable pub run :
      Time → Time → Context W → Task → Role → Text → Accounting × W → Result Text × (Accounting × W)
  unfolding react_loop after_loop initial
  run started finished ctx task role id (runs, w) =
      let r =
        react_loop max_iterations 0 ctx id (model_for_role role) (defs_for_role E.tools role)
          (initial task role started) w in
      after_loop finished r.0 runs r.1

  -- The sandbox goes however the run ends; a failed cleanup is only logged.
  unfoldable pub run_single :
      Time
      → Time
      → Context W
      → Task
      → Role
      → Config
      → Accounting × W
      → Result Text × (Accounting × W)
  unfolding run
  run_single started finished ctx task role cfg (runs, w) =
      let made = E.sandbox.create ctx cfg w in
      elim made.0 [
        | err e ↦ (err (wrapped (text "agent: create sandbox: ") e), (runs, made.1))
        | ok id ↦
            let out = run started finished ctx task role id (runs, made.1) in
            (out.0, (out.1.0, (E.sandbox.destroy E.background id out.1.1).1))
      ]
