-- ===== src/Forge/Threads/Alone.antt =====
-- A thread that runs alone does what its handler of internal/api, or the tick of
-- internal/sandbox/reaper.go, does in one go.
use workspaces.Common.{
  Text, List, [], ◌∷◌, ◌≡◌, refl, ◌∙◌, Option, none, some, Result, ok, err, Error,
}
use workspaces.Sandbox.Driver.{Driver, Context, ExecResult, running, sleeping}
use workspaces.Sandbox.Registry.Sql.{Sqlite, Time}
use workspaces.Sandbox.Registry.{SandboxRecord}
use workspaces.Sandbox.Registry
use workspaces.Sandbox.Reaper.{Reaper, cutoff, sleep_loop, destroy_loop, tick}
use workspaces.Agent.Accounting.{Accounting}
use workspaces.Api.Sandboxes.{
  CreateSandboxRequest, config_of, new_record, or_empty, after_insert, after_create,
  handle_create_sandbox, after_exec, after_get, handle_exec_sandbox, after_delete, after_destroy,
  handle_delete_sandbox,
}
use workspaces.Api.Shell.{build_cmd}
use workspaces.Api.Routes.{State}
use workspaces.Forge.Threads.{
  Thread, done, alone, create_thread, created_thread, made_thread, exec_thread, found_thread,
  executed_thread, delete_thread, destroyed_thread, deleted_thread, tick_thread, remove_thread,
  sleep_thread, destroy_thread,
}

module _ (S : Sqlite) {W : Type 0} (D : Driver W) (runs : Accounting) where
  -- The answer and the state of a handler, with the accounting that it does not use.
  abbrev pub with_runs : {A : Type 0} → A × (W × S.Db) → A × State S W
  with_runs r = (r.0, (runs, r.1))

  created_thread-alone :
      (ctx : Context W) (sb : SandboxRecord) (o : Option Error) (w : W) (db : S.Db)
      → alone (created_thread S D ctx sb o) (runs, (w, db))
        ≡ with_runs (after_insert S D ctx sb o (w, db))
  unfolding alone created_thread after_insert
  created_thread-alone ctx sb none w db = refl
  created_thread-alone ctx sb (some e) w db = refl

  made_thread-alone :
      (ctx : Context W) (now : Time) (req : CreateSandboxRequest) (made : Result Text) (w : W)
      (db : S.Db)
      → alone (made_thread S D ctx now req made) (runs, (w, db))
        ≡ with_runs (after_create S D ctx now req made (w, db))
  unfolding alone made_thread after_create new_record
  made_thread-alone ctx now req (err e) w db = refl
  made_thread-alone ctx now req (ok id) w db =
      let found = D.ip ctx id w in
      let sb = new_record req now id (or_empty found.0) in
      created_thread-alone ctx sb (Registry.insert S sb db).0 found.1 (Registry.insert S sb db).1

  pub create_thread-alone :
      (ctx : Context W) (now : Time) (req : Result CreateSandboxRequest) (w : W) (db : S.Db)
      → alone (create_thread S D ctx now req) (runs, (w, db))
        ≡ with_runs (handle_create_sandbox S D ctx now req (w, db))
  unfolding alone create_thread handle_create_sandbox
  create_thread-alone ctx now (err e) w db = refl
  create_thread-alone ctx now (ok req) w db =
      let made = D.create ctx (config_of req.image) w in
      made_thread-alone ctx now req made.0 made.1 db

  executed_thread-alone :
      (id : Text) (now : Time) (r : Result ExecResult) (w : W) (db : S.Db)
      → alone (executed_thread S D id now r) (runs, (w, db))
        ≡ with_runs (after_exec S D id now r (w, db))
  unfolding alone executed_thread after_exec
  executed_thread-alone id now (err e) w db = refl
  executed_thread-alone id now (ok res) w db = refl

  found_thread-alone :
      (ctx : Context W) (id : Text) (now : Time) (cmd : List Text) (r : Result SandboxRecord)
      (w : W) (db : S.Db)
      → alone (found_thread S D ctx id now cmd r) (runs, (w, db))
        ≡ with_runs (after_get S D ctx id now cmd r (w, db))
  unfolding alone found_thread after_get
  found_thread-alone ctx id now cmd (err e) w db = refl
  found_thread-alone ctx id now cmd (ok sb) w db =
      let r = D.exec ctx id (build_cmd cmd) w in executed_thread-alone id now r.0 r.1 db

  pub exec_thread-alone :
      (ctx : Context W) (id : Text) (now : Time) (req : Result (List Text)) (w : W) (db : S.Db)
      → alone (exec_thread S D ctx id now req) (runs, (w, db))
        ≡ with_runs (handle_exec_sandbox S D ctx id now req (w, db))
  unfolding alone exec_thread handle_exec_sandbox
  exec_thread-alone ctx id now (err e) w db = refl
  exec_thread-alone ctx id now (ok []) w db = refl
  exec_thread-alone ctx id now (ok (part ∷ cmd)) w db =
      found_thread-alone ctx id now (part ∷ cmd) (Registry.get S id db) w db

  deleted_thread-alone :
      (o : Option Error) (w : W) (db : S.Db)
      → alone (deleted_thread S D o) (runs, (w, db)) ≡ with_runs (after_delete S D o (w, db))
  unfolding alone deleted_thread after_delete
  deleted_thread-alone none w db = refl
  deleted_thread-alone (some e) w db = refl

  destroyed_thread-alone :
      (id : Text) (r : Result (Unit {0})) (w : W) (db : S.Db)
      → alone (destroyed_thread S D id r) (runs, (w, db))
        ≡ with_runs (after_destroy S D id r (w, db))
  unfolding alone destroyed_thread after_destroy
  destroyed_thread-alone id (err e) w db = refl
  destroyed_thread-alone id (ok _) w db =
      deleted_thread-alone (Registry.delete S id db).0 w (Registry.delete S id db).1

  pub delete_thread-alone :
      (ctx : Context W) (id : Text) (w : W) (db : S.Db)
      → alone (delete_thread S D ctx id) (runs, (w, db))
        ≡ with_runs (handle_delete_sandbox S D ctx id (w, db))
  unfolding alone delete_thread handle_delete_sandbox
  delete_thread-alone ctx id w db =
      destroyed_thread-alone id (D.destroy ctx id w).0 (D.destroy ctx id w).1 db

  sleep_thread-alone :
      {A : Type 0} (out : List SandboxRecord) (k : Thread (State S W) A) (w : W) (db : S.Db)
      → alone (sleep_thread S D out k) (runs, (w, db)) ≡ alone k (runs, (w, sleep_loop S D out db))
  unfolding alone sleep_thread sleep_loop
  sleep_thread-alone [] k w db = refl
  sleep_thread-alone (sb ∷ sbs) k w db = sleep_thread-alone sbs k w _

  pub destroy_thread-alone :
      {A : Type 0} (ctx : Context W) (out : List SandboxRecord) (k : Thread (State S W) A) (w : W)
      (db : S.Db)
      → alone (destroy_thread S D ctx out k) (runs, (w, db))
        ≡ alone k (runs, destroy_loop S D ctx out (w, db))
  unfolding alone destroy_thread destroy_loop
  destroy_thread-alone ctx [] k w db = refl
  destroy_thread-alone ctx (sb ∷ sbs) k w db = destroy_thread-alone ctx sbs k _ _

  -- The tick of the reaper, as one step and as a thread with nobody in between, leaves the same.
  pub tick_thread-alone :
      (r : Reaper) (ctx : Context W) (now : Time) (w : W) (db : S.Db)
      → alone (tick_thread S D r ctx now) (runs, (w, db)) ≡ (tt, (runs, tick S D r ctx now (w, db)))
  unfolding alone tick_thread remove_thread tick
  tick_thread-alone r ctx now w db =
      let asleep = (Registry.list_older_than S (cutoff now r.idle_sleep_min) running db).0 in
      let db' = sleep_loop S D asleep db in
      let gone = (Registry.list_older_than S (cutoff now r.idle_destroy_min) sleeping db').0 in
      sleep_thread-alone asleep (remove_thread S D r ctx now) w db
      ∙ destroy_thread-alone ctx gone (done tt) w db'
