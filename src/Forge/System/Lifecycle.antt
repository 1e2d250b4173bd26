-- ===== src/Forge/System/Lifecycle.antt =====
-- The life of a sandbox's record in the running program.
use workspaces.Common.{All-pick, Text, List, [], ◌≡◌, All}
use mathlib.Core.Path.{subst}
use workspaces.Sandbox.Registry.Sql.{Sqlite, IsSqlite}
use workspaces.Sandbox.Registry.{SandboxRecord}
use workspaces.Sandbox.Registry.Spec.{find}
use workspaces.Sandbox.Registry.Tables.{table}
use workspaces.Sandbox.Registry.Changes.{IsSound, kept}
use workspaces.Sandbox.Registry.Lifecycle.{Moves, Change-Moves}
use workspaces.Api.Routes.{Web, State}
use workspaces.Forge.{Program}
use workspaces.Forge.Threads.{act}
use workspaces.Forge.Threads.Writes.{IsGood}
use workspaces.Forge.System.{Pool, Step, arrived, ticked, moved, Reach}
use workspaces.Forge.System.Invariant.{IsSafe, Reach-IsSafe}

module _ (S : Sqlite) (L : IsSqlite S) {W : Type 0} (V : Web) (p : Program S W) where
  -- The records before and behind a step, and what became of each.
  abbrev pub Lives : S.Db → S.Db → Type 0
  Lives db db' =
      (sbs sbs' : List SandboxRecord) × (S.rows db ≡ table S sbs)
      × (S.rows db' ≡ table S sbs')
      × ((id : Text) → Moves (find id sbs) (find id sbs'))

  Step-Lives : {s t : Pool S W} → Step S V p s t → IsSafe S L V p s → Lives s.1.1.1 t.1.1.1
  Step-Lives (arrived q) (good, sound) = Change-Moves S L kept sound
  Step-Lives (ticked ctx now) (good, sound) = Change-Moves S L kept sound
  Step-Lives {s} (moved before after f k e) (good, sound) =
      let all = subst (All (IsGood S)) e good in
      Change-Moves S L (All-pick (IsGood S) before (act f k) after all s.1).0 sound

  -- In every state that the program reaches from a sound database, whatever turn is taken next and
  -- whatever SQLite makes of it, the record of each id stays, is made and runs, has its time of
  -- activity set, is put to sleep, or is removed. So a record that sleeps never runs again, and no
  -- other part of a record ever changes.
  pub Reach-Lives :
      {x : State S W} {s t : Pool S W}
      → Reach S V p ([], x) s
      → IsSound S x.1.1
      → Step S V p s t
      → Lives s.1.1.1 t.1.1.1
  Reach-Lives r sound step = Step-Lives step (Reach-IsSafe S L V p r (tt, sound))
