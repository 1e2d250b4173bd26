-- ===== src/Examples/Runs.antt =====
-- The agent with a model that answers at once, or not in time.
use workspaces.Common.{
  ℕ, ◌+◌, ◌≤◌, count, Bool-cases, inl, inr, Text, text, text_eq, List, [], ◌∷◌, ◌≡◌, refl, some, ok,
  true, arith,
}
use workspaces.Common.Int.{pos}
use workspaces.Types.{Task}
use workspaces.Agent.Ollama.{ChatRequest, Http}
use workspaces.Agent.Tools.{Tool, get}
use workspaces.Agent.Accounting.{record_run}
use workspaces.Agent.Engine.{Engine, run, after_loop, react_loop}
use workspaces.Agent.Engine.Chats.{IsMeter, run-chats}
use workspaces.Agent.Progress.{max_iterations, finish, initial, observe}
use workspaces.Agent.Engine.Runs.{Recorded, looped, run-Recorded}
use workspaces.Examples.Fakes.{answer, engine, flaky, always}

abbrev task : Task
task = record {
  id = text "t1";
  title = text "fix";
  description = text "fix it";
  status = text "running";
  subtasks = [];
  pr_number = pos 0;
  pr_status = [];
  created_at = 0;
  updated_at = 0;
}

run-Recorded_example :
    Recorded
      (looped engine 4 9 always task (text "coder") (text "box-1") [])
      9
      []
      (text "all done")
      (run engine 4 9 always task (text "coder") (text "box-1") ([], [])).1.0
unfolding run after_loop finish react_loop initial observe record_run text
run-Recorded_example = run-Recorded engine 4 9 always task (text "coder") (text "box-1") [] [] refl

-- A transport that answers every request.
abbrev echo_http : Http (List Text)
echo_http = record {
  marshal = λ req. ok req.model;
  check_url = λ url. ok tt;
  post = λ ctx url body w. (ok (200, body), url ∷ w);
  decode = λ s. ok (record answer { model = s });
}

abbrev question : ChatRequest
question = record {
  model = text "gemma4";
  messages = [];
  tools = [];
  stream = true;
  options = record { temperature = 100; num_ctx = 8192 };
}

-- The engine with a model whose calls are noted down.
abbrev noting : Engine (List Text)
noting = record engine { chat = λ ctx req w. (ok answer, text "chat" ∷ w) }

abbrev noted : List Text → ℕ
noted = count (text_eq (text "chat"))

flaky_only :
    (name : Text) {tool : Tool (List Text)} → get (flaky ∷ []) name ≡ some tool → flaky ≡ tool
unfolding get
flaky_only name h = elim (Bool-cases (text_eq (text "flaky") name)) [
  | inl e ↦ let k = rw (e, get) at h in ground (arith, k)
  | inr e ↦ cc (rw (e, get) at h)
]

noting-IsMeter : IsMeter noting noted
unfolding text text_eq
noting-IsMeter = record {
  chat_adds = λ ctx req w. omega arith;
  tool_keeps = λ name found ctx id args w. rw (← flaky_only name found) (omega arith);
  wait_keeps = λ ctx ms w. omega arith;
}

run-chats_example :
    noted (run noting 3 8 always task (text "coder") (text "box-1") ([], [])).1.1
    ≤ noted [] + max_iterations
run-chats_example =
    run-chats noting noted noting-IsMeter 3 8 always task (text "coder") (text "box-1") [] []
