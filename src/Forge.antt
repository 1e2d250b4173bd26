-- ===== src/Forge.antt =====
-- cmd/forge/main.go: how the program starts, lives and ends. The world is that of the Docker driver.
pub mod Fleet
pub mod System
pub mod Ending
pub mod Threads
use workspaces.Common.{
  ℕ, ◌*◌, ◌^◌, Text, text, ◌++◌, Option, none, some, Result, ok, err, Error, message, wrapped,
  error_text, Step, context, pure, lift, ◌>>=◌, ◌⊎◌,
}
use workspaces.Sandbox.Env.{Environ, env_or}
use workspaces.Sandbox.Driver.{
  Driver, DriverKind, docker_driver, firecracker_driver, new_driver, Context,
}
use workspaces.Sandbox.Docker.Client.{Client}
use workspaces.Sandbox.Docker.Setup.{World}
use workspaces.Sandbox.Docker.Files
use workspaces.Sandbox.Firecracker.{firecracker}
use workspaces.Sandbox.Registry.Sql.{Sqlite}
use workspaces.Sandbox.Registry.Open.{Opener, new_registry, default_path}
use workspaces.Sandbox.Reaper.{Reaper, new_reaper}
use workspaces.Agent.Ollama.{Http, OllamaClient, new_ollama_client}
use workspaces.Agent.Engine.{Engine}
use workspaces.Agent.Engine.Setup.{new_engine}
use workspaces.Context.{Manager, manager}
use workspaces.Github
use workspaces.Coordinator.{Coordinator}
use workspaces.Api.Server.{Server, new_server}

-- What the program is started in: the environment, the Docker SDK, HTTP, the file system with the
-- database driver, and the waits of a back-off.
pub record Host (S : Sqlite) {W : Type 0} (C : Client W) : Type 0 where
  pub environ : Environ
  pub http : Http (World C)
  pub opener : Opener S (World C)
  pub wait : Context (World C) → ℕ → Step (World C) (Unit {0})

-- What `main` has built when it starts to listen.
pub record Program (S : Sqlite) (W : Type 0) : Type 0 where
  pub server : Server S W
  pub reaper : Reaper
  pub addr : Text

-- How the process ends: `log.Fatalf` with a text, or well.
pub data Exit : Type 0 where
  fatal : Text → Exit
  shut_down : Exit

module _ (S : Sqlite) {W : Type 0} (C : Client W) (host : Host S C) where
  open host use {environ, http, opener, wait}

  unfoldable pub driver_kind : Text
  unfolding env_or
  driver_kind = env_or environ (text "SANDBOX_DRIVER") (text "docker")

  unfoldable pub db_path : Text
  unfolding env_or default_path
  db_path = env_or environ (text "FORGE_DB_PATH") default_path

  -- The value that `NewDriver` returns for a kind.
  unfoldable pub driver_of : DriverKind → Driver (World C)
  unfolding firecracker
  driver_of docker_driver = Files.docker_driver C environ
  driver_of firecracker_driver = firecracker

  -- From the driver and the registry on, nothing fails.
  unfoldable pub wire : Driver (World C) → S.Db → Program S (World C)
  unfolding new_server new_reaper new_engine new_ollama_client env_or
  wire drv reg =
      let ollama =
        new_ollama_client (env_or environ (text "OLLAMA_URL") (text "http://localhost:11434")) in
      let agent_engine = new_engine http wait drv ollama in
      let gh : Github.Client = record { token = environ.getenv (text "GITHUB_TOKEN") } in
      let coord : Coordinator (World C) = record {
        agent = agent_engine;
        context = manager;
        github = gh;
        sandbox = drv;
      } in
      record {
        server = new_server S (World C) coord gh manager drv reg agent_engine;
        reaper = new_reaper environ;
        addr = text ":" ++ env_or environ (text "PORT") (text "7000");
      }

  -- An error is one that `log.Fatalf` prints.
  unfoldable pub start : Step (World C) (Program S (World C))
  unfolding driver_of wire new_driver new_registry driver_kind db_path
  start = do
    kind ← context (text "forge: sandbox driver init failed: ") (lift (new_driver driver_kind))
    reg ← context (text "forge: registry init failed: ") (new_registry S opener environ db_path)
    pure (wire (driver_of kind) reg)

-- The process after the server has stopped.
unfoldable pub exit_of : Option Error → Exit
exit_of none = shut_down
exit_of (some e) = fatal (text "forge: server error: " ++ error_text e)
