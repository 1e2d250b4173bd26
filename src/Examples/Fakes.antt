-- ===== src/Examples/Fakes.antt =====
-- A driver that keeps the ids of its sandboxes, and records for it.
use workspaces.Common.{
  ℕ, ◌*◌, ◌^◌, Text, text, text_eq, List, [], ◌∷◌, none, ok, err, message, deadline_exceeded, true,
  refl, if◌then◌else◌,
}
use workspaces.Common.Int.{pos}
use workspaces.Sandbox.Driver.{Driver, Context, ExecResult, running, sleeping}
use workspaces.Agent.Ollama.{ChatMessage, ChatResponse}
use workspaces.Agent.Tools.{Tool}
use workspaces.Agent.Engine.{Engine}
use workspaces.Sandbox.Registry.Sql.{Time}
use workspaces.Sandbox.Registry.Spec.{IsKeyed}
use workspaces.Sandbox.Registry.{SandboxRecord}

abbrev without : Text → List Text → List Text
without id [] = []
without id (i ∷ ids) = if text_eq i id then without id ids else i ∷ without id ids

abbrev pub echo : Text → ExecResult
echo cmd = record { stdout = cmd; stderr = []; exit_code = pos 0 }

abbrev pub boxes : Driver (List Text)
boxes = record {
  create = λ ctx cfg w. (ok (text "box-9"), text "box-9" ∷ w);
  exec = λ ctx id cmd w. (ok (echo cmd), w);
  write_file = λ ctx id path content w. (ok tt, w);
  read_file = λ ctx id path w. (ok [], w);
  destroy = λ ctx id w. (ok tt, without id w);
  status = λ ctx id w. ((running, none), w);
  ip = λ ctx id w. (ok (text "10.0.5.9"), w);
}

abbrev pub always : {W : Type 0} → Context W
always w = none

abbrev pub at_minute : ℕ → Time
at_minute m = m * (60 * 10 ^ 9)

abbrev pub box : Text → Text → Time → SandboxRecord
box id status active = record {
  id = id;
  ip = text "10.0.5.2";
  status = status;
  project_id = text "web";
  agent_role = text "coder";
  created_at = active;
  last_active = active;
  mem_usage = pos 0;
  transport = text "none";
}

-- One that has run since the start, one that sleeps, and one that was active not long ago.
abbrev pub idle_box : SandboxRecord
idle_box = box (text "box-1") running 0

abbrev pub dozing_box : SandboxRecord
dozing_box = box (text "box-2") sleeping (at_minute 50)

abbrev pub busy_box : SandboxRecord
busy_box = box (text "box-3") running (at_minute 55)

abbrev pub three : List SandboxRecord
three = idle_box ∷ dozing_box ∷ busy_box ∷ []

pub three-IsKeyed : IsKeyed three
unfolding text text_eq
three-IsKeyed = (refl, (refl, (refl, tt)))

abbrev done_message : ChatMessage
done_message = record { role = text "assistant"; content = text "all done"; tool_calls = [] }

abbrev pub answer : ChatResponse
answer = record {
  model = [];
  reply = done_message;
  is_done = true;
  total_duration = pos 9;
  eval_count = pos 5;
  prompt_eval_count = pos 7;
}

-- A model that answers at once, with a tool that never works.
abbrev pub flaky : Tool (List Text)
flaky = record {
  name = text "flaky";
  description = [];
  parameters = record { type_name = text "object"; properties = []; required = [] };
  execute = λ ctx id drv args w. (err (message (text "no")), text "run" ∷ w);
}

abbrev pub engine : Engine (List Text)
engine = record {
  sandbox = boxes;
  chat = λ ctx req w. (ok answer, w);
  tools = flaky ∷ [];
  wait = λ ctx ms w. (ok tt, w);
  background = always;
}

-- One whose model does not answer in time.
abbrev pub slow_engine : Engine (List Text)
slow_engine = record engine { chat = λ ctx req w. (err deadline_exceeded, w) }
