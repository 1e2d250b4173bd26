-- ===== src/Api/Sandboxes/Access.antt =====
-- The handlers of internal/api/sandboxes.go that run a command in a sandbox or delete it.
use workspaces.Common.{
  ℕ, Text, text_eq, List, [], ◌∷◌, ◌≡◌, refl, none, Result, ok, err, arith, ◌⊎◌, inl, inr,
  if◌then◌else◌, Option-cases,
}
use workspaces.Sandbox.Driver.{Driver, Context, ExecResult}
use workspaces.Sandbox.Registry.Sql.{Sqlite, IsSqlite, IsHealthy, Time}
use workspaces.Sandbox.Registry.{SandboxRecord}
use workspaces.Sandbox.Registry
use workspaces.Sandbox.Registry.Spec.{find, IsKeyed, written, adjust, remove}
use workspaces.Sandbox.Registry.Spec
use workspaces.Sandbox.Registry.Tables.{table}
use workspaces.Sandbox.Registry.Refines.{
  perform, perform_failed, perform-written, perform-IsHealthy, find-written,
}
use workspaces.Api.Response.{Response, write_json, write_error, exec_body}
use workspaces.Api.Shell.{build_cmd}
use workspaces.Api.Sandboxes.{
  after_get, after_exec, handle_exec_sandbox, after_delete, after_destroy, handle_delete_sandbox,
}
use workspaces.Api.Sandboxes.Records.{get-record}

module _ (S : Sqlite) (L : IsSqlite S) (H : IsHealthy S) {W : Type 0} (D : Driver W) where
  -- With an engine in order and a database that stores records of distinct ids, a command for an
  -- id that has no record is refused with 400 or 404, and neither the world nor the database
  -- changes: the driver is not asked, and nothing is written.
  handle_exec_sandbox_unknown :
      (ctx : Context W) (id : Text) (now : Time) (req : Result (List Text)) (w : W) (db : S.Db)
      (sbs : List SandboxRecord)
      → S.rows db ≡ table S sbs
      → IsKeyed sbs
      → find id sbs ≡ none
      → let r = handle_exec_sandbox S D ctx id now req (w, db) in
        (r.1 ≡ (w, db)) × ((r.0.code ≡ 400) ⊎ (r.0.code ≡ 404))
  unfolding handle_exec_sandbox write_error write_json after_get
  handle_exec_sandbox_unknown ctx id now (err e) w db sbs stored k absent = (refl, inl refl)
  handle_exec_sandbox_unknown ctx id now (ok []) w db sbs stored k absent = (refl, inl refl)
  handle_exec_sandbox_unknown ctx id now (ok (part ∷ cmd)) w db sbs stored k absent =
      rw (get-record S L H D id db sbs stored k, absent) (refl, inr refl)

  -- What an answer of 200 to a command says: the driver ran the line that `buildCmd` makes of the
  -- arguments, and of the records only the time of the one of the id has changed.
  abbrev Executed :
      Context W
      → Text
      → Time
      → Result (List Text)
      → W
      → List SandboxRecord
      → Response
      → W × S.Db
      → Type 0
  Executed ctx id now req w sbs r s =
      (part : Text) × (cmd : List Text) × (res : ExecResult) × (req ≡ ok (part ∷ cmd))
      × (D.exec ctx id (build_cmd (part ∷ cmd)) w ≡ (ok res, s.0))
      × (r
          ≡ write_json 200 (
              exec_body
                (record { stdout = res.stdout; stderr = res.stderr; exit_code = res.exit_code })))
      × (S.rows s.1 ≡ table S (adjust id (λ sb. record sb { last_active = now }) sbs))

  touched :
      (id : Text) (now : Time) (db : S.Db) (sbs : List SandboxRecord)
      → S.rows db ≡ table S sbs
      → S.rows (Registry.touch_last_active S id now db).1
        ≡ table S (adjust id (λ sb. record sb { last_active = now }) sbs)
  unfolding perform
  touched id now db sbs stored =
      (perform-IsHealthy S L H (Spec.touch id now) db sbs
        (adjust id (λ sb. record sb { last_active = now }) sbs) stored (unfold written in refl)).1

  after_exec-Executed :
      (ctx : Context W) (id : Text) (now : Time) (part : Text) (cmd : List Text) (w w' : W)
      (db : S.Db) (sbs : List SandboxRecord) (r : Result ExecResult)
      → S.rows db ≡ table S sbs
      → D.exec ctx id (build_cmd (part ∷ cmd)) w ≡ (r, w')
      → (after_exec S D id now r (w', db)).0.code ≡ 200
      → Executed ctx id now
          (ok (part ∷ cmd))
          w
          sbs
          (after_exec S D id now r (w', db)).0
          (after_exec S D id now r (w', db)).1
  unfolding after_exec write_error write_json
  after_exec-Executed ctx id now part cmd w w' db sbs (err e) stored ran h = ground (arith, h)
  after_exec-Executed ctx id now part cmd w w' db sbs (ok res) stored ran h =
      (part, cmd, res, refl, ran, refl, touched id now db sbs stored)

  after_get-Executed :
      (ctx : Context W) (id : Text) (now : Time) (part : Text) (cmd : List Text) (w : W) (db : S.Db)
      (sbs : List SandboxRecord) (r : Result SandboxRecord)
      → S.rows db ≡ table S sbs
      → (after_get S D ctx id now (part ∷ cmd) r (w, db)).0.code ≡ 200
      → Executed ctx id now
          (ok (part ∷ cmd))
          w
          sbs
          (after_get S D ctx id now (part ∷ cmd) r (w, db)).0
          (after_get S D ctx id now (part ∷ cmd) r (w, db)).1
  unfolding after_get write_error write_json
  after_get-Executed ctx id now part cmd w db sbs (err e) stored h = ground (arith, h)
  after_get-Executed ctx id now part cmd w db sbs (ok sb) stored h =
      after_exec-Executed ctx id now part cmd w _ db sbs _ stored refl h

  -- With an engine in order and a database that stores a list of records, an answer of 200 to a
  -- command means that it had an argument, that the driver ran the line which `buildCmd` makes of
  -- its arguments, that the answer is what the driver returned, and that of the records only the
  -- time of activity of the one of the id has changed.
  handle_exec_sandbox-Executed :
      (ctx : Context W) (id : Text) (now : Time) (req : Result (List Text)) (w : W) (db : S.Db)
      (sbs : List SandboxRecord)
      → S.rows db ≡ table S sbs
      → (handle_exec_sandbox S D ctx id now req (w, db)).0.code ≡ 200
      → Executed ctx id now req w sbs
          (handle_exec_sandbox S D ctx id now req (w, db)).0
          (handle_exec_sandbox S D ctx id now req (w, db)).1
  unfolding handle_exec_sandbox write_error write_json
  handle_exec_sandbox-Executed ctx id now (err e) w db sbs stored h = ground (arith, h)
  handle_exec_sandbox-Executed ctx id now (ok []) w db sbs stored h = ground (arith, h)
  handle_exec_sandbox-Executed ctx id now (ok (part ∷ cmd)) w db sbs stored h =
      after_get-Executed ctx id now part cmd w db sbs _ stored h

  -- The records behind a request to delete a sandbox: with 204 the record of the id is gone and
  -- every other one is kept; otherwise all are kept.
  abbrev Deleted : Text → List SandboxRecord → ℕ → S.Db → Type 0
  Deleted id sbs code db =
      (sbs' : List SandboxRecord) × (S.rows db ≡ table S sbs')
      × (((code ≡ 204) × ((j : Text) → find j sbs' ≡ (if text_eq id j then none else find j sbs)))
          ⊎ ((code ≡ 500) × (sbs' ≡ sbs)))

  after_destroy-Deleted :
      (id : Text) (r : Result (Unit {0})) (w : W) (db : S.Db) (sbs : List SandboxRecord)
      → S.rows db ≡ table S sbs
      → Deleted id sbs (after_destroy S D id r (w, db)).0.code (after_destroy S D id r (w, db)).1.1
  unfolding after_destroy after_delete write_error write_json perform
  after_destroy-Deleted id (err e) w db sbs stored = (sbs, stored, inr (refl, refl))
  after_destroy-Deleted id (ok _) w db sbs stored =
      elim (Option-cases (Registry.delete S id db).0) [
        | inl done ↦
            let (sbs', taken, stored') = perform-written S L (Spec.delete id) db sbs stored done in
            rw (done, after_delete)
              (sbs', stored', inl (refl, λ j. find-written (Spec.delete id) sbs j taken))
        | inr (e, failed) ↦
            rw (failed, after_delete)
              (sbs, perform_failed S L (Spec.delete id) db sbs stored failed, inr (refl, refl))
      ]

  -- Over a database that stores a list of records, a request to delete a sandbox is answered with
  -- 204, where the record of its id is gone and every other id keeps its own, or with 500, where
  -- all records are kept.
  handle_delete_sandbox-Deleted :
      (ctx : Context W) (id : Text) (w : W) (db : S.Db) (sbs : List SandboxRecord)
      → S.rows db ≡ table S sbs
      → Deleted id sbs
          (handle_delete_sandbox S D ctx id (w, db)).0.code
          (handle_delete_sandbox S D ctx id (w, db)).1.1
  unfolding handle_delete_sandbox
  handle_delete_sandbox-Deleted ctx id w db sbs stored = after_destroy-Deleted id _ _ db sbs stored
