-- ===== src/Api/Sandboxes.antt =====
-- The handlers of internal/api/sandboxes.go. A handler takes what `Decode` made of the request's
-- body, the time that `time.Now` returns, and the state: the world of the driver and the database.
pub mod Records
pub mod Access
pub mod Containers
pub mod Unlisted
use mathlib.Core.List.{map}
use workspaces.Common.{
  ℕ, Text, text, List, [], ◌∷◌, ◌++◌, Option, none, some, Result, ok, err, Error, error_text,
}
use workspaces.Common.Int.{ℤ, pos}
use workspaces.Sandbox.Driver.{Driver, Context, Config, ExecResult, running}
use workspaces.Sandbox.Registry.Sql.{Sqlite, Time}
use workspaces.Sandbox.Registry.{SandboxRecord, ListFilter}
use workspaces.Sandbox.Registry
use workspaces.Api.Shell.{build_cmd}
use workspaces.Api.Response.{
  Response, write_json, write_error, record_to_response, sandbox_body, list_body, exec_body,
  no_body,
}

pub record CreateSandboxRequest : Type 0 where
  pub project_id : Text
  pub agent_role : Text
  pub image : Text

abbrev pub config_of : Text → Config
config_of image = record { image = image; env = []; cpus = pos 0; mem_mb = pos 0 }

-- A request whose address is not known yet gets the empty one.
abbrev pub or_empty : Result Text → Text
or_empty (ok ip) = ip
or_empty (err e) = []

unfoldable pub new_record : CreateSandboxRequest → Time → Text → Text → SandboxRecord
new_record req now id ip = record {
  id = id;
  ip = ip;
  status = running;
  project_id = req.project_id;
  agent_role = req.agent_role;
  created_at = now;
  last_active = now;
  mem_usage = pos 0;
  transport = text "none";
}

module _ (S : Sqlite) {W : Type 0} (D : Driver W) where
  -- The end of `handleCreateSandbox`, from what the insertion returned.
  unfoldable pub after_insert :
      Context W → SandboxRecord → Option Error → W × S.Db → Response × (W × S.Db)
  unfolding write_json write_error
  after_insert ctx sb (some e) (w, db) =
      (write_error 500 (text "registry insert: " ++ error_text e), ((D.destroy ctx sb.id w).1, db))
  after_insert ctx sb none s = (write_json 201 (sandbox_body (record_to_response sb)), s)

  -- What follows the driver's `Create`.
  unfoldable pub after_create :
      Context W → Time → CreateSandboxRequest → Result Text → W × S.Db → Response × (W × S.Db)
  unfolding after_insert new_record
  after_create ctx now req (err e) s =
      (write_error 500 (text "create sandbox: " ++ error_text e), s)
  after_create ctx now req (ok id) (w, db) =
      let found = D.ip ctx id w in
      let sb = new_record req now id (or_empty found.0) in
      let inserted = Registry.insert S sb db in after_insert ctx sb inserted.0 (found.1, inserted.1)

  unfoldable pub handle_create_sandbox :
      Context W → Time → Result CreateSandboxRequest → W × S.Db → Response × (W × S.Db)
  unfolding after_create write_error
  handle_create_sandbox ctx now (err e) s =
      (write_error 400 (text "invalid request body: " ++ error_text e), s)
  handle_create_sandbox ctx now (ok req) (w, db) =
      let made = D.create ctx (config_of req.image) w in
      after_create ctx now req made.0 (made.1, db)

  unfoldable pub handle_list_sandboxes : ListFilter → S.Db → Response
  unfolding write_json write_error
  handle_list_sandboxes f db = elim (Registry.list S f db) [
    | err e ↦ write_error 500 (text "list sandboxes: " ++ error_text e)
    | ok records ↦ write_json 200 (list_body (map record_to_response records))
  ]

  unfoldable pub handle_get_sandbox : Text → S.Db → Response
  unfolding write_json write_error
  handle_get_sandbox id db = elim (Registry.get S id db) [
    | err e ↦ write_error 404 (text "sandbox not found: " ++ id)
    | ok sb ↦ write_json 200 (sandbox_body (record_to_response sb))
  ]

  -- The end of `handleExecSandbox`: a failed touch is passed over.
  unfoldable pub after_exec : Text → Time → Result ExecResult → W × S.Db → Response × (W × S.Db)
  unfolding write_json write_error
  after_exec id now (err e) s = (write_error 500 (text "exec: " ++ error_text e), s)
  after_exec id now (ok res) (w, db) = (
    write_json 200 (
        exec_body (record { stdout = res.stdout; stderr = res.stderr; exit_code = res.exit_code })),
    (w, (Registry.touch_last_active S id now db).1),
  )

  -- What follows the search for the record.
  unfoldable pub after_get :
      Context W → Text → Time → List Text → Result SandboxRecord → W × S.Db → Response × (W × S.Db)
  unfolding after_exec write_error
  after_get ctx id now cmd (err e) s = (write_error 404 (text "sandbox not found: " ++ id), s)
  after_get ctx id now cmd (ok sb) (w, db) =
      let r = D.exec ctx id (build_cmd cmd) w in after_exec id now r.0 (r.1, db)

  unfoldable pub handle_exec_sandbox :
      Context W → Text → Time → Result (List Text) → W × S.Db → Response × (W × S.Db)
  unfolding after_get write_error
  handle_exec_sandbox ctx id now (err e) s =
      (write_error 400 (text "invalid request body: " ++ error_text e), s)
  handle_exec_sandbox ctx id now (ok []) s = (write_error 400 (text "cmd must not be empty"), s)
  handle_exec_sandbox ctx id now (ok (part ∷ cmd)) s =
      after_get ctx id now (part ∷ cmd) (Registry.get S id s.1) s

  -- The end of `handleDeleteSandbox`, from what the registry returned.
  unfoldable pub after_delete : Option Error → W × S.Db → Response × (W × S.Db)
  unfolding write_json write_error
  after_delete (some e) s = (write_error 500 (text "registry delete: " ++ error_text e), s)
  after_delete none s = (write_json 204 no_body, s)

  unfoldable pub after_destroy : Text → Result (Unit {0}) → W × S.Db → Response × (W × S.Db)
  unfolding after_delete write_error
  after_destroy id (err e) s = (write_error 500 (text "destroy sandbox: " ++ error_text e), s)
  after_destroy id (ok _) (w, db) = let r = Registry.delete S id db in after_delete r.0 (w, r.1)

  unfoldable pub handle_delete_sandbox : Context W → Text → W × S.Db → Response × (W × S.Db)
  unfolding after_destroy
  handle_delete_sandbox ctx id (w, db) =
      let r = D.destroy ctx id w in after_destroy id r.0 (r.1, db)
