-- ===== src/Api/Sandboxes/Records.antt =====
-- What the handlers of internal/api/sandboxes.go do to the records and the sandboxes.
use mathlib.Core.Path.{subst}
use workspaces.Common.{
  Text, text, text_eq_refl, List, [], ◌∷◌, ◌++◌, false, ◌≡◌, ◌≢◌, refl, ◌∙◌, sym, ap, Option, none,
  some, Result, ok, err, Error, arith, any,
}
use workspaces.Sandbox.Driver.{Driver, Context, running}
use workspaces.Sandbox.Registry.Sql.{Sqlite, IsSqlite, IsHealthy, Time}
use workspaces.Sandbox.Registry.{SandboxRecord}
use workspaces.Sandbox.Registry
use workspaces.Sandbox.Registry.Spec.{find, IsKeyed, written, is_record, adjust, remove}
use workspaces.Sandbox.Registry.Spec
use workspaces.Sandbox.Registry.Tables.{table}
use workspaces.Sandbox.Registry.Refines.{
  perform, perform_failed, perform-written, find-written, written-IsKeyed, find_absent,
}
use workspaces.Sandbox.Registry.Queries.{get-find, found}
use workspaces.Api.Response.{Response, write_json, write_error, record_to_response, sandbox_body}
use workspaces.Api.Sandboxes.{
  CreateSandboxRequest, config_of, new_record, or_empty, after_insert, after_create,
  handle_create_sandbox, handle_get_sandbox,
}

module _ (S : Sqlite) (L : IsSqlite S) (H : IsHealthy S) {W : Type 0} (D : Driver W) where
  -- The record of an id, as the registry reads it.
  pub get-record :
      (id : Text) (db : S.Db) (sbs : List SandboxRecord)
      → S.rows db ≡ table S sbs
      → IsKeyed sbs
      → Registry.get S id db ≡ found (find id sbs)
  get-record id db sbs stored k =
      let (rs, answered) = H.answers _ db in get-find S L id db sbs rs stored k answered

  abbrev pub shown : Text → Option SandboxRecord → Response
  shown id none = write_error 404 (text "sandbox not found: " ++ id)
  shown id (some sb) = write_json 200 (sandbox_body (record_to_response sb))

  -- With an engine in order and a database that stores records of distinct ids, a request for a
  -- sandbox is answered with 200 and its record, or with 404 where there is none.
  pub handle_get_sandbox-find :
      (id : Text) (db : S.Db) (sbs : List SandboxRecord)
      → S.rows db ≡ table S sbs
      → IsKeyed sbs
      → handle_get_sandbox S D id db ≡ shown id (find id sbs)
  unfolding handle_get_sandbox
  handle_get_sandbox-find id db sbs stored k = ground (arith, get-record id db sbs stored k)

  -- A request that is answered with 201 added one record.
  abbrev pub Created : List SandboxRecord → Response → S.Db → Type 0
  Created sbs r db =
      (sb : SandboxRecord) × (find sb.id sbs ≡ none)
      × (S.rows db ≡ table S (sbs ++ sb ∷ []))
      × (sb.status ≡ running)
      × (r ≡ write_json 201 (sandbox_body (record_to_response sb)))
      × (handle_get_sandbox S D sb.id db ≡ write_json 200 (sandbox_body (record_to_response sb)))

  after_insert_created :
      (ctx : Context W) (sb : SandboxRecord) (o : Option Error) (s : W × S.Db)
      → (after_insert S D ctx sb o s).0.code ≡ 201
      → (o ≡ none)
        × (after_insert S D ctx sb o s ≡ (write_json 201 (sandbox_body (record_to_response sb)), s))
  unfolding after_insert write_error write_json
  after_insert_created ctx sb none s h = (refl, refl)
  after_insert_created ctx sb (some e) (w, db) h = ground (arith, h)

  written-insert :
      (sb : SandboxRecord) (sbs : List SandboxRecord) {sbs' : List SandboxRecord}
      → written (Spec.insert sb) sbs ≡ some sbs'
      → (any (is_record sb.id) sbs ≡ false) × (sbs' ≡ sbs ++ sb ∷ [])
  unfolding written
  written-insert sb sbs h = ground arith

  insert_done :
      (sb : SandboxRecord) (db : S.Db) (sbs : List SandboxRecord)
      → S.rows db ≡ table S sbs
      → IsKeyed sbs
      → (Registry.insert S sb db).0 ≡ none
      → (any (is_record sb.id) sbs ≡ false)
        × (S.rows (Registry.insert S sb db).1 ≡ table S (sbs ++ sb ∷ []))
        × IsKeyed (sbs ++ sb ∷ [])
        × (find sb.id (sbs ++ sb ∷ []) ≡ some sb)
  unfolding perform
  insert_done sb db sbs stored k done =
      let (sbs', taken, stored') = perform-written S L (Spec.insert sb) db sbs stored done in
      let (fresh, e) = written-insert sb sbs taken in
      let here = find-written (Spec.insert sb) sbs sb.id taken in
      (
        fresh,
        stored' ∙ ap (table S) e,
        subst IsKeyed e (written-IsKeyed (Spec.insert sb) sbs k taken),
        ap (find sb.id) (sym e) ∙ here ∙ rw (text_eq_refl sb.id) refl,
      )

  inserted-Created :
      (ctx : Context W) (sb : SandboxRecord) (w : W) (db : S.Db) (sbs : List SandboxRecord)
      → S.rows db ≡ table S sbs
      → IsKeyed sbs
      → sb.status ≡ running
      → let r =
          after_insert S D ctx sb (Registry.insert S sb db).0 (w, (Registry.insert S sb db).1) in
        r.0.code ≡ 201 → Created sbs r.0 r.1.1
  inserted-Created ctx sb w db sbs stored k runs h =
      let (none_failed, e) =
        after_insert_created ctx sb (Registry.insert S sb db).0 (w, (Registry.insert S sb db).1)
          h in
      let (fresh, stored', k', here) = insert_done sb db sbs stored k none_failed in
      (
        sb,
        find_absent sb.id sbs fresh,
        ap (λ r. S.rows r.1.1) e ∙ stored',
        runs,
        ap (λ r. r.0) e,
        rw
            (
              e,
              handle_get_sandbox-find sb.id (Registry.insert S sb db).1 (sbs ++ sb ∷ []) stored' k',
              here,
            )
            refl,
      )

  after_create-Created :
      (ctx : Context W) (now : Time) (req : CreateSandboxRequest) (made : Result Text) (w : W)
      (db : S.Db) (sbs : List SandboxRecord)
      → S.rows db ≡ table S sbs
      → IsKeyed sbs
      → (after_create S D ctx now req made (w, db)).0.code ≡ 201
      → Created sbs
          (after_create S D ctx now req made (w, db)).0
          (after_create S D ctx now req made (w, db)).1.1
  unfolding after_create new_record write_error write_json
  after_create-Created ctx now req (err e) w db sbs stored k h = ground (arith, h)
  after_create-Created ctx now req (ok id) w db sbs stored k h =
      inserted-Created ctx (new_record req now id (or_empty (D.ip ctx id w).0)) (D.ip ctx id w).1 db
        sbs stored k refl h

  -- With an engine in order and a database that stores records of distinct ids, a request that is
  -- answered with 201 added one record behind them, whose id was free: it is marked as running,
  -- the answer shows it, and a request for its id is then answered with the same body.
  pub handle_create_sandbox-Created :
      (ctx : Context W) (now : Time) (req : Result CreateSandboxRequest) (w : W) (db : S.Db)
      (sbs : List SandboxRecord)
      → S.rows db ≡ table S sbs
      → IsKeyed sbs
      → (handle_create_sandbox S D ctx now req (w, db)).0.code ≡ 201
      → Created sbs
          (handle_create_sandbox S D ctx now req (w, db)).0
          (handle_create_sandbox S D ctx now req (w, db)).1.1
  unfolding handle_create_sandbox write_error write_json
  handle_create_sandbox-Created ctx now (err e) w db sbs stored k h = ground (arith, h)
  handle_create_sandbox-Created ctx now (ok req) w db sbs stored k h =
      after_create-Created ctx now req _ _ db sbs stored k h

module _ (S : Sqlite) (L : IsSqlite S) {W : Type 0} (D : Driver W) where
  -- What a request that is not answered with 201 leaves of the world: nothing was done, or the
  -- driver's `Create` failed, or the sandbox that it made was destroyed again.
  abbrev Undone : Context W → Result Text → W → W → Type 0
  Undone ctx (err e) w w' = w' ≡ w
  Undone ctx (ok id) w w' = w' ≡ (D.destroy ctx id (D.ip ctx id w).1).1

  abbrev pub Withdrawn : Context W → Result CreateSandboxRequest → W → W → Type 0
  Withdrawn ctx (err e) w w' = w' ≡ w
  Withdrawn ctx (ok req) w w' =
      let made = D.create ctx (config_of req.image) w in Undone ctx made.0 made.1 w'

  after_insert_failed :
      (ctx : Context W) (sb : SandboxRecord) (o : Option Error) (w : W) (db : S.Db)
      → (after_insert S D ctx sb o (w, db)).0.code ≢ 201
      → (e : Error) × (o ≡ some e)
        × ((after_insert S D ctx sb o (w, db)).1 ≡ ((D.destroy ctx sb.id w).1, db))
  unfolding after_insert write_json
  after_insert_failed ctx sb none w db h = ground (arith, h)
  after_insert_failed ctx sb (some e) w db h = (e, refl, refl)

  after_create_failed :
      (ctx : Context W) (now : Time) (req : CreateSandboxRequest) (made : Result Text) (w : W)
      (db : S.Db) (sbs : List SandboxRecord)
      → S.rows db ≡ table S sbs
      → (after_create S D ctx now req made (w, db)).0.code ≢ 201
      → (S.rows (after_create S D ctx now req made (w, db)).1.1 ≡ table S sbs)
        × Undone ctx made w (after_create S D ctx now req made (w, db)).1.0
  unfolding after_create new_record perform
  after_create_failed ctx now req (err e) w db sbs stored h = (stored, refl)
  after_create_failed ctx now req (ok id) w db sbs stored h =
      let sb = new_record req now id (or_empty (D.ip ctx id w).0) in
      let (e, failed, left) =
        after_insert_failed ctx sb (Registry.insert S sb db).0 (D.ip ctx id w).1
          (Registry.insert S sb db).1 h in
      (
        ap (λ s. S.rows s.1) left ∙ perform_failed S L (Spec.insert sb) db sbs stored failed,
        ap (λ s. s.0) left,
      )

  -- Over a database that stores a list of records, and for whatever reason SQLite may refuse the
  -- insertion: a request that is not answered with 201 leaves the stored records as they were. The
  -- world is as before if the body was refused, as the driver's failed `Create` left it, or as the
  -- destruction of the new sandbox left it.
  pub handle_create_sandbox-Withdrawn :
      (ctx : Context W) (now : Time) (req : Result CreateSandboxRequest) (w : W) (db : S.Db)
      (sbs : List SandboxRecord)
      → S.rows db ≡ table S sbs
      → (handle_create_sandbox S D ctx now req (w, db)).0.code ≢ 201
      → (S.rows (handle_create_sandbox S D ctx now req (w, db)).1.1 ≡ table S sbs)
        × Withdrawn ctx req w (handle_create_sandbox S D ctx now req (w, db)).1.0
  unfolding handle_create_sandbox
  handle_create_sandbox-Withdrawn ctx now (err e) w db sbs stored h = (stored, refl)
  handle_create_sandbox-Withdrawn ctx now (ok req) w db sbs stored h =
      after_create_failed ctx now req _ _ db sbs stored h
