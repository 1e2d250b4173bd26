-- ===== src/Forge/System/Turns.antt =====
-- The requests and the ticks of the running program that take all their turns at once.
use workspaces.Common.{List, [], ◌∷◌, ◌++◌, Option, none, some, ◌≡◌, refl, ◌∙◌, ap}
use mathlib.Core.Path.{subst}
use workspaces.Sandbox.Driver.{Context}
use workspaces.Sandbox.Registry.Sql.{Sqlite, Time}
use workspaces.Sandbox.Reaper.{tick}
use workspaces.Api.Routes.{Web, Request, State, Answer, serve}
use workspaces.Forge.{Program}
use workspaces.Forge.Threads.{Thread, done, act, alone, tick_thread}
use workspaces.Forge.Threads.Alone.{tick_thread-alone}
use workspaces.Forge.Threads.Requests.{serve_thread}
use workspaces.Forge.Threads.Requests.Alone.{map_thread-alone, serve_thread-alone}
use workspaces.Forge.System.{
  Pool, Step, arrived, ticked, moved, Reach, here, next, request_thread, reaper_thread,
}

module _ (S : Sqlite) {W : Type 0} (V : Web) (p : Program S W) where
  pub Reach-trans : {s t u : Pool S W} → Reach S V p s t → Reach S V p t u → Reach S V p s u
  Reach-trans r here = r
  Reach-trans r (next q step) = next (Reach-trans r q) step

  -- A thread of the pool that takes all its turns.
  Reach-alone :
      (before after : List (Thread (State S W) (Option Answer)))
      (th : Thread (State S W) (Option Answer)) (x : State S W)
      → Reach S V p
          (before ++ th ∷ after, x)
          (before ++ done (alone th x).0 ∷ after, (alone th x).1)
  unfolding alone
  Reach-alone before after (done a) x = here
  Reach-alone before after (act f k) x =
      Reach-trans (next here (moved before after f k refl)) (Reach-alone before after (k x) (f x))

  ended :
      (s : Pool S W) (th : Thread (State S W) (Option Answer)) {r : Option Answer × State S W}
      → Step S V p s (th ∷ s.0, s.1)
      → alone th s.1 ≡ r
      → Reach S V p s (done r.0 ∷ s.0, r.1)
  ended s th added e =
      subst (λ r. Reach S V p s (done r.0 ∷ s.0, r.1)) e
        (Reach-trans (next here added) (Reach-alone [] s.0 th s.1))

  -- Whatever requests and ticks are under way, a request that arrives can take all its turns at
  -- once, with no run of another request recorded meanwhile. It is then answered as by the handlers
  -- in one go, the state is the one that they leave, and the other threads stand where they stood.
  pub Reach-serve :
      (q : Request W) (s : Pool S W)
      → q.clock.others ≡ []
      → let r = serve S p.server.sandbox p.server.agent V q s.1 in
        Reach S V p s (done (some r.0) ∷ s.0, r.1)
  unfolding request_thread
  Reach-serve q s quiet = ended s (request_thread S V p q) (arrived q) (
      map_thread-alone some (serve_thread S p.server.sandbox p.server.agent V q) s.1
      ∙ ap (λ r. (some r.0, r.1))
          (serve_thread-alone S p.server.sandbox p.server.agent V q s.1 quiet))

  -- Likewise a tick of the reaper: it can take all its turns at once, and then leaves what `tick`
  -- leaves.
  pub Reach-tick :
      (ctx : Context W) (now : Time) (s : Pool S W)
      → Reach S V p s
          (done none ∷ s.0, (s.1.0, tick S p.server.sandbox p.reaper ctx now (s.1.1.0, s.1.1.1)))
  unfolding reaper_thread
  Reach-tick ctx now (ths, (runs, (w, db))) =
      ended (ths, (runs, (w, db))) (reaper_thread S V p ctx now) (ticked ctx now)
        (map_thread-alone (λ _. none) (tick_thread S p.server.sandbox p.reaper ctx now)
            (runs, (w, db))
          ∙ ap (λ r. (none, r.1)) (tick_thread-alone S p.server.sandbox runs p.reaper ctx now w db))
