-- ===== src/Api/Server.antt =====
-- The server of internal/api/server.go: its dependencies, and its life as the states of its `select`.
use workspaces.Common.{ℕ, ◌*◌, Text, Bool, Option, none, some, Error, if◌then◌else◌}
use workspaces.Sandbox.Reaper.{second}
use workspaces.Sandbox.Driver.{Driver}
use workspaces.Sandbox.Registry.Sql.{Sqlite}
use workspaces.Agent.Engine.{Engine}
use workspaces.Context.{Manager}
use workspaces.Github
use workspaces.Coordinator.{Coordinator}
use workspaces.Api.Routes.{Web, Request, State, Answer, serve}

module _ (S : Sqlite) (W : Type 0) where
  pub record Server : Type 0 where
    pub coordinator : Coordinator W
    pub github : Github.Client
    pub context : Manager
    pub sandbox : Driver W
    pub registry : S.Db
    pub agent : Engine W

  unfoldable pub new_server :
      Coordinator W → Github.Client → Manager → Driver W → S.Db → Engine W → Server
  new_server coord gh ctx_mgr drv reg agent_engine = record {
    coordinator = coord;
    github = gh;
    context = ctx_mgr;
    sandbox = drv;
    registry = reg;
    agent = agent_engine;
  }

-- The handler of all requests: the middlewares log, name the request and catch panics.
unfoldable pub handler :
    (S : Sqlite) {W : Type 0} → Web → Server S W → Request W → State S W → Answer × State S W
unfolding serve
handler S V srv = serve S srv.sandbox srv.agent V

-- `http.Server`, as `Run` sets it up; a timeout of 0 is none.
pub record HttpServer : Type 0 where
  pub addr : Text
  pub read_timeout : ℕ
  pub write_timeout : ℕ
  pub idle_timeout : ℕ

unfoldable pub http_server : Text → HttpServer
http_server addr = record {
  addr = addr;
  read_timeout = 15 * second;
  write_timeout = 0;
  idle_timeout = 120 * second;
}

-- What the `select` receives: the context's end, or what `ListenAndServe` returned.
pub data Wakeup : Type 0 where
  cancelled : Wakeup
  listen_returned : Option Error → Wakeup

unfoldable pub shutdown_timeout : ℕ
shutdown_timeout = 10 * second

-- `errors.Is(err, http.ErrServerClosed)`, and `Shutdown` of a server within a time.
module _ {W : Type 0} (is_server_closed : Error → Bool)
    (shutdown : HttpServer → ℕ → W → Option Error × W) where
  -- The error that the goroutine sends, or the nil that is received from the closed channel.
  unfoldable pub listen_error : Option Error → Option Error
  listen_error none = none
  listen_error (some e) = if is_server_closed e then none else some e

  unfoldable pub run : Text → Wakeup → W → Option Error × W
  unfolding listen_error http_server shutdown_timeout
  run addr cancelled w = shutdown (http_server addr) shutdown_timeout w
  run addr (listen_returned o) w = (listen_error o, w)
