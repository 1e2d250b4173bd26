-- ===== src/Forge/Ending.antt =====
-- How the process of cmd/forge/main.go ends.
use workspaces.Common.{
  true, ℕ, text, text_eq, [], quote, ◌++◌, Bool, false, ◌≡◌, refl, sym, ◌∙◌, ap, Option, none, some,
  Result, ok, err, Error, message, wrapped, error_text, arith,
}
use workspaces.Sandbox.Driver.{new_driver}
use workspaces.Sandbox.Docker.Client.{Client}
use workspaces.Sandbox.Docker.Setup.{World}
use workspaces.Sandbox.Registry.Sql.{Sqlite}
use workspaces.Sandbox.Registry.Open.{default_path, choose_path}
use workspaces.Agent.Accounting.{new_accounting}
use workspaces.Api.Routes.{Web}
use workspaces.Api.Server.{
  HttpServer, Wakeup, cancelled, listen_returned, http_server, listen_error, shutdown_timeout,
}
use workspaces.Api.Server
use workspaces.Forge.{Program, Host, Exit, fatal, shut_down, exit_of, start, driver_kind, db_path}
use workspaces.Forge.System.{Main, not_started, stopped, Reach, Pool}

module _ (S : Sqlite) {W : Type 0} (C : Client W) (host : Host S C) (V : Web)
    (is_server_closed : Error → Bool)
    (shutdown : HttpServer → ℕ → World C → Option Error × World C) where
  -- The path that `main` takes is the one that `NewRegistry` chooses when it is given none: each has
  -- the default of its own, and the two agree.
  pub choose_path-db_path :
      choose_path host.environ (db_path S C host) ≡ choose_path host.environ []
  unfolding choose_path db_path default_path text
  choose_path-db_path = ground arith

  abbrev printed : Result (Program S (World C)) × World C → Exit
  printed (err e, w) = fatal (error_text e)
  printed (ok p, w) = shut_down

  refused :
      text_eq (driver_kind S C host) (text "docker") ≡ false
      → text_eq (driver_kind S C host) (text "firecracker") ≡ false
      → new_driver (driver_kind S C host)
        ≡ err (message (text "unknown sandbox driver: " ++ quote (driver_kind S C host)))
  unfolding new_driver
  refused h k = rw (h, k) refl

  start_unknown :
      (e : Error) (w : World C)
      → new_driver (driver_kind S C host) ≡ err e
      → start S C host w ≡ (err (wrapped (text "forge: sandbox driver init failed: ") e), w)
  unfolding start
  start_unknown e w h = rw (h, start) refl

  -- If `SANDBOX_DRIVER` names neither driver, the process ends with the text that quotes the name,
  -- and has touched nothing: no database is opened, no container, no listener.
  pub Main-unknown_driver :
      {how : Option Wakeup} {x : Exit} {w w' : World C}
      → text_eq (driver_kind S C host) (text "docker") ≡ false
      → text_eq (driver_kind S C host) (text "firecracker") ≡ false
      → Main S C host V is_server_closed shutdown w how x w'
      → (x
          ≡ fatal (
              text "forge: sandbox driver init failed: "
              ++ (text "unknown sandbox driver: " ++ quote (driver_kind S C host))))
        × (w' ≡ w)
  unfolding error_text
  Main-unknown_driver h k (not_started {e} started) =
      let u = start_unknown _ _ (refused h k) in
      (ap printed (sym started ∙ u), ap (λ r. r.1) (sym started ∙ u))
  Main-unknown_driver h k (stopped wakeup started reached) =
      cc (sym started ∙ start_unknown _ _ (refused h k))

  pair_of_none : (r : Option Error × World C) → r.0 ≡ none → r ≡ (none, r.1)
  pair_of_none r e = ap (λ o. (o, r.1)) e

  exit_of-none : (o : Option Error) → exit_of o ≡ shut_down → o ≡ none
  unfolding exit_of
  exit_of-none none e = refl
  exit_of-none (some f) e = cc

  -- An error of listening that is none for `Run`: none at all, or the one of a closed server.
  abbrev pub IsClosing : Option Error → Type 0
  IsClosing none = Unit
  IsClosing (some e) = is_server_closed e ≡ true

  listen_error-IsClosing :
      (o : Option Error) → listen_error is_server_closed shutdown o ≡ none → IsClosing o
  unfolding listen_error
  listen_error-IsClosing none h = tt
  listen_error-IsClosing (some e) h = ground (arith, h)

  -- What the `select` has received when the process ends well, and what followed.
  abbrev pub EndsWell : Option Wakeup → HttpServer → World C → World C → Type 0
  EndsWell none srv w w' = ⊥
  EndsWell (some cancelled) srv w w' = shutdown srv shutdown_timeout w ≡ (none, w')
  EndsWell (some (listen_returned o)) srv w w' = IsClosing o × (w ≡ w')

  -- The process ends well only if it had started, and then, by what the `select` of the server
  -- received: if that was the end of the context, the server was shut down without an error; if it
  -- was what listening returned, that was no error or the one of a closed server, and nothing
  -- followed.
  pub Main-shut_down :
      {how : Option Wakeup} {x : Exit} {w w' : World C}
      → Main S C host V is_server_closed shutdown w how x w'
      → x ≡ shut_down
      → (p : Program S (World C)) × (v : World C) × (start S C host w ≡ (ok p, v))
        × (t : Pool S (World C)) × Reach S V p ([], (new_accounting, (v, p.server.registry))) t
        × EndsWell how (http_server p.addr) t.1.1.0 w'
  unfolding exit_of Server.run
  Main-shut_down (not_started started) e = cc
  Main-shut_down (stopped {p} {w' = v} {t} cancelled started reached) e =
      (p, v, started, t, reached, pair_of_none _ (exit_of-none _ e))
  Main-shut_down (stopped {p} {w' = v} {t} (listen_returned o) started reached) e =
      (p, v, started, t, reached, (listen_error-IsClosing o (exit_of-none _ e), refl))
