-- ===== src/Forge/System/Invariant.antt =====
-- What holds of the database in every state that the program reaches.
use workspaces.Common.{
  List, [], some, none, true, ◌≡◌, refl, map, All, All-mono, All-pick, All-replace, ap, ◌∙◌,
}
use mathlib.Core.Path.{subst}
use workspaces.Sandbox.Registry.Sql.{Sqlite, IsSqlite, IsHealthy}
use workspaces.Sandbox.Registry.{SandboxRecord, ListFilter}
use workspaces.Sandbox.Registry.Spec.{passes}
use workspaces.Sandbox.Registry.Listing.{list-found}
use workspaces.Sandbox.Registry.Changes.{IsUp, IsSound, Change-IsSound}
use workspaces.Api.Response.{write_json, sandbox_body, list_body, record_to_response}
use workspaces.Api.Sandboxes.{handle_list_sandboxes, handle_get_sandbox}
use workspaces.Api.Sandboxes.Records.{handle_get_sandbox-find, shown}
use workspaces.Api.Routes.{Web, State}
use workspaces.Forge.{Program}
use workspaces.Forge.Threads.{act, tick_thread}
use workspaces.Forge.Threads.Writes.{IsGood, map_thread-IsGood, tick_thread-IsGood}
use workspaces.Forge.Threads.Requests.{serve_thread}
use workspaces.Forge.Threads.Requests.Writes.{serve_thread-IsGood}
use workspaces.Forge.System.{
  Pool, Step, arrived, ticked, moved, Reach, request_thread, reaper_thread,
}
use workspaces.Forge.System

module _ (S : Sqlite) (L : IsSqlite S) {W : Type 0} (V : Web) (p : Program S W) where
  -- The database is sound, and every thread will change it by allowed writes only.
  abbrev pub IsSafe : Pool S W → Type 0
  IsSafe s = All (IsGood S) s.0 × IsSound S s.1.1.1

  Step-IsSafe : {s t : Pool S W} → Step S V p s t → IsSafe s → IsSafe t
  unfolding request_thread reaper_thread
  Step-IsSafe (arrived q) (good, sound) = (
    (
      map_thread-IsGood S some (serve_thread S p.server.sandbox p.server.agent V q)
          (serve_thread-IsGood S p.server.sandbox p.server.agent V q),
      good,
    ),
    sound,
  )
  Step-IsSafe (ticked ctx now) (good, sound) = (
    (
      map_thread-IsGood S (λ _. none) (tick_thread S p.server.sandbox p.reaper ctx now)
          (tick_thread-IsGood S p.server.sandbox p.reaper ctx now),
      good,
    ),
    sound,
  )
  Step-IsSafe {s} (moved before after f k e) (good, sound) =
      let all = subst (All (IsGood S)) e good in
      let (c, later) = All-pick (IsGood S) before (act f k) after all s.1 in
      (All-replace (IsGood S) before (act f k) (k s.1) after all later, Change-IsSound S L c sound)

  pub Reach-IsSafe : {s t : Pool S W} → Reach S V p s t → IsSafe s → IsSafe t
  Reach-IsSafe System.here safe = safe
  Reach-IsSafe (System.next r step) safe = Step-IsSafe step (Reach-IsSafe r safe)

  -- Whatever requests arrive and whenever the reaper ticks, in whatever order their threads take
  -- turns, each driver call, SQL statement, chat with the model and attempt at a tool being one
  -- turn, and whatever SQLite refuses: a database that was sound when the program started to listen
  -- stays so. It stores records of distinct ids, each of which is running or sleeping.
  pub Reach-IsSound :
      {x : State S W} {t : Pool S W} → Reach S V p ([], x) t → IsSound S x.1.1 → IsSound S t.1.1.1
  Reach-IsSound r sound = (Reach-IsSafe r (tt, sound)).1

module _ (S : Sqlite) (L : IsSqlite S) (H : IsHealthy S) {W : Type 0} (V : Web)
    (p : Program S W) where
  -- A record as the two handlers that read the table show it.
  abbrev pub IsShown : S.Db → SandboxRecord → Type 0
  IsShown db sb =
      IsUp sb
      × (handle_get_sandbox S p.server.sandbox sb.id db
          ≡ write_json 200 (sandbox_body (record_to_response sb)))

  -- With an engine in order and a database that was sound at the start, whatever turns the threads
  -- of requests and ticks have taken, a list request is answered with 200 and with records that pass
  -- its filter, each of which runs or sleeps and is what a request for its id is answered with.
  pub Reach-IsShown :
      {x : State S W} {t : Pool S W} (f : ListFilter)
      → Reach S V p ([], x) t
      → IsSound S x.1.1
      → (out : List SandboxRecord) × (handle_list_sandboxes S p.server.sandbox f t.1.1.1
          ≡ write_json 200 (list_body (map record_to_response out)))
        × All (λ sb. (passes f sb ≡ true) × IsShown t.1.1.1 sb) out
  unfolding handle_list_sandboxes
  Reach-IsShown {x} {t} f reached sound =
      let (sbs, stored, k, up) = Reach-IsSound S L V p reached sound in
      let (rs, answered) = H.answers _ t.1.1.1 in
      let (out, e, all) = list-found S L IsUp f t.1.1.1 sbs rs stored k up answered in
      let shows = λ (sb : SandboxRecord).
        handle_get_sandbox-find S L H p.server.sandbox sb.id t.1.1.1 sbs stored k in
      (
        out,
        rw (e, handle_list_sandboxes) refl,
        All-mono _ (λ sb h. (h.0, (h.2, shows sb ∙ ap (shown S L H p.server.sandbox sb.id) h.1)))
            out all,
      )
