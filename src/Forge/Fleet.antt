-- ===== src/Forge/Fleet.antt =====
-- The program with the Docker driver and the tools of internal/agent/tools.go, one request and one
-- tick after the other: the records of the registry and the containers that Docker knows.
use workspaces.Common.{ℕ, Text, Bool, true, ◌≡◌}
use workspaces.Sandbox.Driver.{Context}
use workspaces.Sandbox.Env.{Environ}
use workspaces.Sandbox.Docker.Client.{Client}
use workspaces.Sandbox.Docker.Setup.{World}
use workspaces.Sandbox.Reaper.{Reaper}
use workspaces.Agent.Ollama.{ChatRequest}
use workspaces.Agent.Engine.{Engine}

module _ (N : Environ) {W : Type 0} (C : Client W) (knows : Text → W → Bool) where
  -- Docker knows a container of the name.
  abbrev pub Runs : Text → World C → Type 0
  Runs n s = knows n s.1 ≡ true

  -- Neither the model nor waiting makes Docker forget a container.
  pub record IsApart (E : Engine (World C)) : Type 0 where
    pub chat_keeps :
        (n : Text) (ctx : Context (World C)) (req : ChatRequest) (s : World C)
        → Runs n s
        → Runs n (E.chat ctx req s).1
    pub wait_keeps :
        (n : Text) (ctx : Context (World C)) (ms : ℕ) (s : World C)
        → Runs n s
        → Runs n (E.wait ctx ms s).1
