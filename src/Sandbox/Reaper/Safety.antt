-- ===== src/Sandbox/Reaper/Safety.antt =====
-- The reaper of internal/sandbox/reaper.go over all the events that it receives.
use workspaces.Common.{
  ◌≤◌, Text, text, text_eq, List, [], ◌∷◌, All, false, ◌≡◌, refl, ◌∙◌, some, arith, ltb, Bool-cases,
  inl, inr,
}
use workspaces.Sandbox.Driver.{Driver, Context, running, sleeping}
use workspaces.Sandbox.Registry.Sql.{Sqlite, IsSqlite, IsHealthy, Time}
use workspaces.Sandbox.Registry.{SandboxRecord}
use workspaces.Sandbox.Registry.Spec.{find, IsKeyed}
use workspaces.Sandbox.Registry.Tables.{table}
use workspaces.Sandbox.Reaper.{Reaper, Event, ticked, done, cutoff, tick, run}
use workspaces.Sandbox.Reaper.Sweep.{tick_sweep, after_sleep, after_destroy}

-- A time of activity that is not before the sleep cutoff of an event's time.
abbrev pub IsActive : Reaper → Time → Event → Type 0
IsActive r t (ticked now) = cutoff now r.idle_sleep_min ≤ t
IsActive r t done = Unit

active_stays :
    (sb : SandboxRecord) (t u : Time)
    → sb.status ≡ running
    → t ≤ sb.last_active
    → after_destroy u (after_sleep t (some sb)) ≡ some sb
unfolding running sleeping text text_eq
active_stays sb t u e h =
    let awake : ltb sb.last_active t ≡ false = ground arith in
    let up : text_eq sb.status sleeping ≡ false = rw e refl in
    elim (Bool-cases (ltb sb.last_active u)) [
      | inl old ↦ rw (awake, old, up) refl
      | inr fresh ↦ rw (awake, fresh) refl
    ]

module _ (S : Sqlite) (L : IsSqlite S) (H : IsHealthy S) {W : Type 0} (D : Driver W) (r : Reaper)
    (ctx : Context W) where
  -- With an engine in order and a database that stores records of distinct ids, whatever ticks the
  -- reaper goes through, a running record keeps its place as it is if its last activity lies before
  -- none of their sleep cutoffs.
  pub run_keeps_active :
      (es : List Event) (w : W) (db : S.Db) (sbs : List SandboxRecord) (id : Text)
      {sb : SandboxRecord}
      → S.rows db ≡ table S sbs
      → IsKeyed sbs
      → find id sbs ≡ some sb
      → sb.status ≡ running
      → All (IsActive r sb.last_active) es
      → (sbs' : List SandboxRecord) × (S.rows (run S D r ctx es (w, db)).1 ≡ table S sbs')
        × IsKeyed sbs'
        × (find id sbs' ≡ some sb)
  unfolding run
  run_keeps_active [] w db sbs id stored k here runs quiet = (sbs, stored, k, here)
  run_keeps_active (done ∷ es) w db sbs id stored k here runs quiet = (sbs, stored, k, here)
  run_keeps_active (ticked now ∷ es) w db sbs id {sb} stored k here runs (q, quiet) =
      let (sbs', stored', k', m) = (tick_sweep S L H D r ctx now w db sbs stored k).0 in
      let stays =
        active_stays sb (cutoff now r.idle_sleep_min) (cutoff now r.idle_destroy_min) runs q in
      run_keeps_active es (tick S D r ctx now (w, db)).0 (tick S D r ctx now (w, db)).1 sbs' id
        stored' k' (m id ∙ rw here stays) runs quiet
