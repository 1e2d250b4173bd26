-- ===== src/Lib.antt =====
-- FORGE runs coding agents in sandboxes: Docker containers that are listed in a SQLite table, are
-- put to sleep and destroyed when they are idle, and are used over an HTTP API by people and by an
-- agent that talks to a language model. This library models the Go code of the repository by
-- functions on explicit states and proves what makes it correct.
--
-- The parts, their files and their code:
--   Common          what the program uses of Go: strings as lists of bytes with UTF-8, `int64` with
--                   its wrap-around, `error` values with `%w`, and the words of a POSIX shell
--   Types           internal/types/types.go
--   Sandbox.Driver  internal/sandbox/driver.go: the interface `Driver` as a record of operations
--   Sandbox.Env     `envIntOr`, `envFloatOr` of internal/sandbox/docker.go, `envOr` of
--                   cmd/forge/main.go
--   Sandbox.Registry  internal/sandbox/registry.go: `Insert`, `Update`, `Get`, `List`, `Delete`,
--                   `TouchLastActive`, `ListOlderThan`, `SetStatus`. Sql has the statements and what
--                   SQL makes of them, Spec the list of records that the table stands for, Tables,
--                   Refines, Queries and Listing relate the two, Changes has sequences of writes,
--                   Contents is the table without the order of its rows, as a quotient, Abstract
--                   the registry on it, Open is `NewRegistry` and `migrate`
--   Sandbox.Reaper  internal/sandbox/reaper.go: `tick` is `tick`, the goroutine's loop is `run`
--   Sandbox.Docker  internal/sandbox/docker.go: Client is the SDK and the driver's fields, Setup the
--                   connection, network and image, Once the network asked for by several
--                   goroutines, Create, Exec and Files the methods, Cancelled `Create` under a context that
--                   ends meanwhile
--   Sandbox.Fleet   the promise of a driver which sandboxes there are, and the records of the
--                   registry against it under each handler and tick; Docker.Host fills it for the
--                   Docker driver, and Forge.Fleet puts both together
--   Sandbox.Firecracker  internal/sandbox/firecracker.go
--   Agent           internal/agent: Role is role.go, Tools and Catalog are tools.go, Ollama is
--                   ollama.go, Accounting is accounting.go, Progress and Engine are agent.go
--   Api             internal/api: Sandboxes, Shell and Response are sandboxes.go, Agents is
--                   agents.go, Proxy is proxy.go, Routes is routes.go, with `registerRoutes` as a
--                   table, and Server is server.go
--   Context, Coordinator, Github  internal/context, internal/coordinator and internal/github, whose
--                   methods are stubs
--   Forge           cmd/forge/main.go: `main` up to the listening server is `start`. Threads has the
--                   handlers and the tick once more, action by action, and System the running
--                   program: a pool of threads that take turns between their actions
--   Examples        a SQLite, a daemon, a driver, an engine and a router that keep the promises below,
--                   and the code run on them
--
-- How they interact: the handlers of the API call the driver and the registry, the agent's handler
-- also the engine; the engine calls the driver through its tools; the reaper calls the registry and
-- the driver. The driver is a record of operations on a world `W`, which the Docker driver fills for
-- the world `DockerState × W`. A step returns its result beside the state it leaves, on errors too.
-- The times that `time.Now` returns are arguments, as is what JSON decoding made of a request; the
-- routes take both from a `Request`.
--
-- Code outside the repository is a parameter: SQLite (`Sqlite`), the Docker SDK (`Client`), HTTP
-- and JSON (`Http`), the environment (`Environ`), chi, `url.Parse` and the decoding of requests
-- (`Web`), the file system with `sql.Open` (`Opener`), the network behind the reverse proxy (an
-- argument of `serve_http`). What is relied on stands in `IsSqlite` (statements have their
-- effect or none, queries return the rows that meet the conditions, or some of them beside an
-- error, stored times are read back), `IsHealthy` (the engine refuses only what the primary key
-- refuses), `IsDaemon` (the containers change by creations and removals that succeed; one that
-- fails may have removed its container, and touches no other), `IsObedient` (the client sends
-- nothing under a context that is over), `IsHost` (their names change by creation and removal
-- only, and a name in use is refused), `IsApart` (the model and waiting remove no container),
-- `IsFileStore` (a copied file is copied back), `IsNaming` (a removal by a container's name is
-- one of that container), `IsRouter` (a route that is found is one of the table and takes the
-- method), and `IsMeter` (a call of the model counts once).
--
-- Bounds: the ReAct loop is a recursion on the rounds left, fifty at the start as in the code, the
-- retries one on the attempts left, three at the start; nothing else needs fuel but `decimal`, whose
-- twenty digits hold every 64-bit number. A `Time` is the count of nanoseconds since an origin before
-- all times of the program; the CPU share is counted in billionths of a core.
--
-- Handlers and ticks stand here twice. Under Api and Sandbox.Reaper they are functions in one go, about
-- which most theorems are stated; under Forge.Threads they are threads, in which each driver call, each
-- SQL statement, each chat with the model, each attempt at a tool and each back-off is one action. In
-- Forge.System ticks may also overlap, which the one goroutine of the reaper never lets them.
--
-- Not modelled: log lines and `truncate`, which only they use, mutexes but that of `netOnce` (a
-- method is one step), turns of other threads within a driver call or an attempt at a tool, what
-- chi's middlewares and the transport of the reverse proxy do with a request, and the dashboard.
pub mod Common
pub mod Sandbox
pub mod Types
pub mod Context
pub mod Github
pub mod Coordinator
pub mod Agent
pub mod Api
pub mod Forge
pub mod Examples
