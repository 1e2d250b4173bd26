-- ===== src/Sandbox/Reaper.antt =====
-- internal/sandbox/reaper.go.
pub mod Sweep
pub mod Overflow
pub mod Removal
pub mod Safety
use workspaces.Common.{ℕ, Text, text, List, [], ◌∷◌, Result, ok, err, ◌+◌, ◌-◌, ◌*◌, ◌^◌, Option}
use workspaces.Common.Int.{ℤ, pos, negsuc, int64, scale, neg_ℤ}
use workspaces.Sandbox.Driver.{Driver, Context, Status, running, sleeping}
use workspaces.Sandbox.Env.{Environ, env_int_or}
use workspaces.Sandbox.Registry.Sql.{Sqlite, Time}
use workspaces.Sandbox.Registry.{SandboxRecord, list_older_than, set_status, delete}

pub record Reaper : Type 0 where
  pub idle_sleep_min : ℤ
  pub idle_destroy_min : ℤ
  pub tick_interval : ℕ

abbrev pub second : ℕ
second = 10 ^ 9

abbrev pub minute : ℕ
minute = 60 * second

unfoldable pub new_reaper : Environ → Reaper
new_reaper E = record {
  idle_sleep_min = env_int_or E (text "FORGE_IDLE_SLEEP_MIN") (pos 10);
  idle_destroy_min = env_int_or E (text "FORGE_IDLE_DESTROY_MIN") (pos 30);
  tick_interval = 60 * second;
}

-- `t.Add(d)`; a time before the origin is as good as the origin, where no record is older.
abbrev add_time : Time → ℤ → Time
add_time t (pos d) = t + d
add_time t (negsuc d) = t - (d + 1)

-- `now.Add(-time.Duration(min) * time.Minute)`.
unfoldable pub cutoff : Time → ℤ → Time
cutoff now min = add_time now (int64 (scale minute (neg_ℤ min)))

pub data Event : Type 0 where
  -- the ticker fires, and `time.Now()` returns the time
  ticked : Time → Event
  -- the context is done
  done : Event

module _ (S : Sqlite) {W : Type 0} (D : Driver W) where
  -- The loop of step 1. A status that cannot be set is logged and passed over.
  unfoldable pub sleep_loop : List SandboxRecord → S.Db → S.Db
  sleep_loop [] db = db
  sleep_loop (sb ∷ sbs) db = sleep_loop sbs (set_status S sb.id sleeping db).1

  -- The loop of step 2. The record goes whether or not the driver could destroy the sandbox.
  unfoldable pub destroy_loop : Context W → List SandboxRecord → W × S.Db → W × S.Db
  destroy_loop ctx [] s = s
  destroy_loop ctx (sb ∷ sbs) (w, db) =
      destroy_loop ctx sbs ((D.destroy ctx sb.id w).1, (delete S sb.id db).1)

  -- An error beside a list is logged; the loop goes through the list all the same.
  unfoldable pub tick : Reaper → Context W → Time → W × S.Db → W × S.Db
  unfolding sleep_loop destroy_loop
  tick r ctx now (w, db) =
      let to_sleep = (list_older_than S (cutoff now r.idle_sleep_min) running db).0 in
      let db' = sleep_loop to_sleep db in
      let to_destroy = (list_older_than S (cutoff now r.idle_destroy_min) sleeping db').0 in
      destroy_loop ctx to_destroy (w, db')

  -- The loop of the goroutine over the events that its `select` receives.
  unfoldable pub run : Reaper → Context W → List Event → W × S.Db → W × S.Db
  unfolding tick
  run r ctx [] s = s
  run r ctx (done ∷ es) s = s
  run r ctx (ticked now ∷ es) s = run r ctx es (tick r ctx now s)
