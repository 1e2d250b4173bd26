-- ===== src/Examples/Fleet.antt =====
-- The program on a Docker that refuses a name in use: a sandbox is made, the reaper ticks, and the
-- sandbox is deleted.
use workspaces.Common.{
  Text, text, text_eq, List, [], ◌∷◌, Bool, ok, err, message, any, if◌then◌else◌,
}
use workspaces.Sandbox.Docker.Client.{Client, fresh}
use workspaces.Sandbox.Docker.Setup.{World}
use workspaces.Sandbox.Docker.Files.{docker_driver}
use workspaces.Sandbox.Fleet.Server.{Event, request, tick_at}
use workspaces.Agent.Catalog.{new_tool_registry}
use workspaces.Agent.Engine.{Engine}
use workspaces.Api.Routes.{State}
use workspaces.Examples.Daemon.{Daemon, daemon}
use workspaces.Examples.Containers.{bare_environ}
use workspaces.Examples.Memory.{memory}
use workspaces.Examples.Fakes.{always, answer}
use workspaces.Examples.Routing.{asked}

abbrev knows : Text → Daemon → Bool
knows n w = any (λ m. text_eq m n) w.0

abbrev strict : Client Daemon
strict = record daemon {
  container_create = λ c cfg name w.
      if knows name w
      then (err (message (text "name in use")), w)
      else (ok name, (name ∷ w.0, w.1));
  container_start = λ c id w. (ok tt, w);
}

abbrev coding : Engine (World strict)
coding = record {
  sandbox = docker_driver strict bare_environ;
  chat = λ ctx req s. (ok answer, s);
  tools = new_tool_registry (World strict);
  wait = λ ctx ms s. (ok tt, s);
  background = always;
}

abbrev history : List (Event (World strict))
history =
    request (asked (text "POST") (text "/sandboxes") (text "p"))
    ∷ tick_at always 5
    ∷ request (asked (text "DELETE") (text "/sandboxes/forge-sandbox-01234567") [])
    ∷ []

abbrev start_state : State memory (World strict)
start_state = ([], ((fresh, ([], [])), []))
