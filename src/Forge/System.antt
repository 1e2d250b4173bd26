-- ===== src/Forge/System.antt =====
-- The running program of cmd/forge/main.go: the requests that the server handles and the ticks of
-- the reaper, as threads that take turns in any order.
pub mod Busy
pub mod Invariant
pub mod Lifecycle
pub mod Stale
pub mod Turns
use workspaces.Common.{
  Bool, ℕ, List, [], ◌∷◌, ◌++◌, Option, none, some, ok, err, Error, error_text, ◌≡◌,
}
use workspaces.Sandbox.Driver.{Context}
use workspaces.Sandbox.Docker.Client.{Client}
use workspaces.Sandbox.Docker.Setup.{World}
use workspaces.Sandbox.Registry.Sql.{Sqlite, Time}
use workspaces.Agent.Accounting.{new_accounting}
use workspaces.Api.Routes.{Web, Request, State, Answer}
use workspaces.Api.Server.{HttpServer, Wakeup}
use workspaces.Api.Server
use workspaces.Forge.{Program, Host, Exit, fatal, exit_of, start}
use workspaces.Forge.Threads.{Thread, act, tick_thread}
use workspaces.Forge.Threads.Requests.{map_thread, serve_thread}

-- The threads, the newest first, and the state that they share. A request ends with an answer, a
-- tick with none.
abbrev pub Pool : Sqlite → Type 0 → Type 0
Pool S W = List (Thread (State S W) (Option Answer)) × State S W

module _ (S : Sqlite) {W : Type 0} (V : Web) (p : Program S W) where
  unfoldable pub request_thread : Request W → Thread (State S W) (Option Answer)
  unfolding serve_thread
  request_thread q = map_thread some (serve_thread S p.server.sandbox p.server.agent V q)

  unfoldable pub reaper_thread : Context W → Time → Thread (State S W) (Option Answer)
  unfolding tick_thread
  reaper_thread ctx now = map_thread (λ _. none) (tick_thread S p.server.sandbox p.reaper ctx now)

  pub data Step (s : Pool S W) : Pool S W → Type 0 where
    arrived : (q : Request W) → Step s (request_thread q ∷ s.0, s.1)
    ticked : (ctx : Context W) (now : Time) → Step s (reaper_thread ctx now ∷ s.0, s.1)
    -- one of the threads acts
    moved :
        (before after : List (Thread (State S W) (Option Answer))) (f : State S W → State S W)
        (k : State S W → Thread (State S W) (Option Answer))
        → s.0 ≡ before ++ act f k ∷ after
        → Step s (before ++ k s.1 ∷ after, f s.1)

  pub data Reach (s : Pool S W) : Pool S W → Type 0 where
    here : Reach s s
    next : {t u : Pool S W} → Reach s t → Step t u → Reach s u

-- `main`: from the world in which it starts, what its server's `select` received, how it ends and the
-- world that it leaves.
module _ (S : Sqlite) {W : Type 0} (C : Client W) (host : Host S C) (V : Web)
    (is_server_closed : Error → Bool)
    (shutdown : HttpServer → ℕ → World C → Option Error × World C) where
  pub data Main (w : World C) : Option Wakeup → Exit → World C → Type 0 where
    not_started :
        {e : Error} {w' : World C}
        → start S C host w ≡ (err e, w')
        → Main w none (fatal (error_text e)) w'
    stopped :
        {p : Program S (World C)} {w' : World C} {t : Pool S (World C)} (wakeup : Wakeup)
        → start S C host w ≡ (ok p, w')
        → Reach S V p ([], (new_accounting, (w', p.server.registry))) t
        → Main w
            (some wakeup)
            (exit_of (Server.run is_server_closed shutdown p.addr wakeup t.1.1.0).0)
            (Server.run is_server_closed shutdown p.addr wakeup t.1.1.0).1
