-- ===== src/Agent/Engine/Setup.antt =====
-- `NewEngine` of internal/agent/agent.go.
use workspaces.Common.{ℕ, none, Step}
use workspaces.Sandbox.Driver.{Driver, Context}
use workspaces.Agent.Ollama.{Http, OllamaClient, chat}
use workspaces.Agent.Catalog.{new_tool_registry}
use workspaces.Agent.Engine.{Engine}

-- The accounting, which starts empty, is a part of the state.
unfoldable pub new_engine :
    {W : Type 0} → Http W → (Context W → ℕ → Step W (Unit {0})) → Driver W → OllamaClient → Engine W
unfolding new_tool_registry chat
new_engine {W} http wait drv ollama = record {
  sandbox = drv;
  chat = chat http ollama.base_url;
  tools = new_tool_registry W;
  wait = wait;
  background = λ w. none;
}
