-- ===== src/Forge/System/Stale.antt =====
-- The reaper of internal/sandbox/reaper.go between the list of step 2 and what it does to the listed.
use workspaces.Common.{Text, List, ◌≡◌, refl, ◌∙◌, ap, true, none, some, any}
use workspaces.Sandbox.Driver.{Driver, Context, sleeping}
use workspaces.Sandbox.Registry.Sql.{Sqlite, IsSqlite, IsHealthy, Time}
use workspaces.Sandbox.Registry.{SandboxRecord}
use workspaces.Sandbox.Registry
use workspaces.Sandbox.Registry.Spec.{find, is_record, IsKeyed, idle}
use workspaces.Sandbox.Registry.Tables.{table}
use workspaces.Sandbox.Reaper.{Reaper, cutoff}
use workspaces.Sandbox.Reaper.Sweep.{
  destroy_all, destroy_loop-find, destroy_loop-world, older-holds, holds,
}
use workspaces.Api.Routes.{State}
use workspaces.Forge.Threads.{done, alone, advance, remove_thread}
use workspaces.Forge.Threads.Alone.{destroy_thread-alone}

module _ (S : Sqlite) (L : IsSqlite S) (H : IsHealthy S) {W : Type 0} (D : Driver W) where
  -- With an engine in order: if step 2 of a tick lists a record that sleeps and was idle since the
  -- cutoff, and other threads then turn the state into any other one that stores records of distinct
  -- ids, then the rest of the step still asks the driver to destroy the sandbox and leaves no record
  -- of its id, also where the record that it meets was active just now.
  pub remove_thread_stale :
      (r : Reaper) (ctx : Context W) (now : Time) (x y : State S W) (sbs sbs' : List SandboxRecord)
      (id : Text) {old : SandboxRecord}
      → S.rows x.1.1 ≡ table S sbs
      → IsKeyed sbs
      → find id sbs ≡ some old
      → idle (cutoff now r.idle_destroy_min) sleeping old ≡ true
      → S.rows y.1.1 ≡ table S sbs'
      → IsKeyed sbs'
      → let left = (alone (advance (remove_thread S D r ctx now) x) y).1 in
        ((rest : List SandboxRecord) × (S.rows left.1.1 ≡ table S rest) × (find id rest ≡ none))
        × (out : List SandboxRecord) × (left.1.0 ≡ destroy_all S L H D ctx out y.1.0)
        × (any (is_record id) out ≡ true)
  unfolding alone advance remove_thread
  remove_thread_stale r ctx now x y sbs sbs' id stored k here old stored' k' =
      let t = cutoff now r.idle_destroy_min in
      let out = (Registry.list_older_than S t sleeping x.1.1).0 in
      let listed =
        older-holds S L H D t sleeping x.1.1 sbs stored k id
        ∙ ap (holds (idle t sleeping)) here
        ∙ old in
      let e = destroy_thread-alone S D y.0 ctx out (done tt) y.1.0 y.1.1 in
      let (rest, stored'', _, m) = destroy_loop-find S L H D ctx out y.1.0 y.1.1 sbs' stored' k' in
      (
        (rest, ap (λ r. S.rows r.1.1.1) e ∙ stored'', m id ∙ rw listed refl),
        out,
        ap (λ r. r.1.1.0) e ∙ destroy_loop-world S L H D ctx out y.1.0 y.1.1,
        listed,
      )
