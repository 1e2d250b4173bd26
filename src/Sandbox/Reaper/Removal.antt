-- ===== src/Sandbox/Reaper/Removal.antt =====
-- Two ways in which a tick of the reaper removes a record.
use workspaces.Common.{
  Text, text, text_eq_refl, List, [], ◌∷◌, ◌≡◌, refl, ◌∙◌, none, some, ◌<◌, lt→ltb,
}
use workspaces.Sandbox.Driver.{Driver, Context, running, sleeping}
use workspaces.Sandbox.Registry.Sql.{Sqlite, IsSqlite, IsHealthy, Time}
use workspaces.Sandbox.Registry.{SandboxRecord, list_older_than}
use workspaces.Sandbox.Registry.Spec.{find, IsKeyed}
use workspaces.Sandbox.Registry.Tables.{table}
use workspaces.Sandbox.Reaper.{Reaper, cutoff, tick, destroy_loop, sleep_loop}
use workspaces.Sandbox.Reaper.Sweep.{tick_sweep, after_sleep, after_destroy}

after_both :
    (sb : SandboxRecord) (t u : Time)
    → sb.status ≡ running
    → sb.last_active < t
    → sb.last_active < u
    → after_destroy u (after_sleep t (some sb)) ≡ none
unfolding running sleeping text
after_both sb t u e h k =
    rw (e, lt→ltb _ _ h, text_eq_refl running, lt→ltb _ _ k, text_eq_refl sleeping)

module _ (S : Sqlite) (L : IsSqlite S) (H : IsHealthy S) {W : Type 0} (D : Driver W) where
  -- With an engine in order and a database that stores records of distinct ids, a record that is
  -- still running and was last active before both cutoffs is gone after one tick: it is destroyed
  -- without having slept for the time that the second threshold names.
  pub tick_skips_sleep :
      (r : Reaper) (ctx : Context W) (now : Time) (w : W) (db : S.Db) (sbs : List SandboxRecord)
      (id : Text) {sb : SandboxRecord}
      → S.rows db ≡ table S sbs
      → IsKeyed sbs
      → find id sbs ≡ some sb
      → sb.status ≡ running
      → sb.last_active < cutoff now r.idle_sleep_min
      → sb.last_active < cutoff now r.idle_destroy_min
      → (sbs' : List SandboxRecord) × (S.rows (tick S D r ctx now (w, db)).1 ≡ table S sbs')
        × (find id sbs' ≡ none)
  tick_skips_sleep r ctx now w db sbs id {sb} stored k here runs h₁ h₂ =
      let (sbs', stored', k', m) = (tick_sweep S L H D r ctx now w db sbs stored k).0 in
      let gone =
        after_both sb (cutoff now r.idle_sleep_min) (cutoff now r.idle_destroy_min) runs h₁ h₂ in
      (sbs', stored', m id ∙ rw here gone)

module _ (S : Sqlite) {V W : Type 0} (D : Driver V) (E : Driver W) where
  sleep_loop-any :
      (out : List SandboxRecord) (db : S.Db) → sleep_loop S D out db ≡ sleep_loop S E out db
  unfolding sleep_loop
  sleep_loop-any [] db = refl
  sleep_loop-any (o ∷ out) db = sleep_loop-any out _

  destroy_loop-any :
      (ctx : Context V) (ctx' : Context W) (out : List SandboxRecord) (v : V) (w : W) (db : S.Db)
      → (destroy_loop S D ctx out (v, db)).1 ≡ (destroy_loop S E ctx' out (w, db)).1
  unfolding destroy_loop
  destroy_loop-any ctx ctx' [] v w db = refl
  destroy_loop-any ctx ctx' (o ∷ out) v w db = destroy_loop-any ctx ctx' out _ _ _

  -- Whatever two drivers answer when they are asked to destroy sandboxes, a tick leaves the same
  -- database: the record of a sandbox that could not be destroyed goes like any other.
  tick_any_driver :
      (r : Reaper) (ctx : Context V) (ctx' : Context W) (now : Time) (v : V) (w : W) (db : S.Db)
      → (tick S D r ctx now (v, db)).1 ≡ (tick S E r ctx' now (w, db)).1
  unfolding tick
  tick_any_driver r ctx ctx' now v w db =
      let asleep = (list_older_than S (cutoff now r.idle_sleep_min) running db).0 in
      let db' = sleep_loop S E asleep db in
      let gone = (list_older_than S (cutoff now r.idle_destroy_min) sleeping db').0 in
      rw (sleep_loop-any asleep db) (destroy_loop-any ctx ctx' gone v w db')
