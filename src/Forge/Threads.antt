-- ===== src/Forge/Threads.antt =====
-- The handlers of internal/api and the tick of internal/sandbox/reaper.go as threads: an action is
-- one call of the driver, one SQL statement, one chat with the model, one attempt at a tool, one
-- back-off, one look at a context, or one use of the accounting. Threads take turns between actions.
pub mod Agents
pub mod Alone
pub mod Loop
pub mod Requests
pub mod Writes
use workspaces.Common.{
  Text, text, is_empty, List, [], ◌∷◌, ◌++◌, Bool, Option, none, some, Result, ok, err, Error,
  error_text, is_deadline_exceeded, if◌then◌else◌, ◌⊎◌, inl, inr,
}
use workspaces.Sandbox.Driver.{Driver, Context, ExecResult, running, sleeping}
use workspaces.Sandbox.Registry.Sql.{Sqlite, Time}
use workspaces.Sandbox.Registry.{SandboxRecord}
use workspaces.Sandbox.Registry
use workspaces.Sandbox.Reaper.{Reaper, cutoff}
use workspaces.Agent.Role.{model_for_role}
use workspaces.Agent.Accounting.{runs_of}
use workspaces.Agent.Engine.{Engine}
use workspaces.Agent.Engine
use workspaces.Api.Response.{
  Response, write_json, write_error, record_to_response, sandbox_body, exec_body, agent_body,
  no_body,
}
use workspaces.Api.Shell.{build_cmd}
use workspaces.Api.Sandboxes.{CreateSandboxRequest, config_of, new_record, or_empty}
use workspaces.Api.Agents.{
  AgentRunRequest, Clock, agent_record, last_run, role_of, task_of, with_timeout,
}
use workspaces.Api.Routes.{State}

-- A thread has ended, or goes on with an action: what it does to the state, and the thread that
-- follows, which knows the state that the action met.
pub data Thread (X A : Type 0) : Type 0 where
  done : A → Thread X A
  act : (X → X) → (X → Thread X A) → Thread X A

-- An action with a result.
abbrev pub call : {X A B : Type 0} → (X → B × X) → (B → Thread X A) → Thread X A
call m k = act (λ x. (m x).1) (λ x. k (m x).0)

-- A thread with nobody in between.
unfoldable pub alone : {X A : Type 0} → Thread X A → X → A × X
alone (done a) x = (a, x)
alone (act f k) x = alone (k x) (f x)

-- The thread after its next action.
unfoldable pub advance : {X A : Type 0} → Thread X A → X → Thread X A
advance (done a) x = done a
advance (act f k) x = k x

-- One thread after the other.
abbrev pub followed_by : {X A B : Type 0} → Thread X A → (A → Thread X B) → Thread X B
followed_by (done a) k = k a
followed_by (act f g) k = act f (λ x. followed_by (g x) k)

module _ (S : Sqlite) {W : Type 0} where
  abbrev pub on_world : {B : Type 0} → (W → B × W) → State S W → B × State S W
  on_world m (runs, (w, db)) = let r = m w in (r.0, (runs, (r.1, db)))

  abbrev pub on_db : {B : Type 0} → (S.Db → B × S.Db) → State S W → B × State S W
  on_db m (runs, (w, db)) = let r = m db in (r.0, (runs, (w, r.1)))

  abbrev pub ask_db : {B : Type 0} → (S.Db → B) → State S W → B × State S W
  ask_db m s = (m s.1.1, s)

  -- A thread that acts on the world only.
  abbrev pub within : {A : Type 0} → Thread W A → Thread (State S W) A
  within (done a) = done a
  within (act f k) = act (λ s. (s.0, (f s.1.0, s.1.1))) (λ s. within (k s.1.0))

  module _ (D : Driver W) where
    created_thread : Context W → SandboxRecord → Option Error → Thread (State S W) Response
    created_thread ctx sb none = done (write_json 201 (sandbox_body (record_to_response sb)))
    created_thread ctx sb (some e) =
        call (on_world (D.destroy ctx sb.id))
          (λ _. done (write_error 500 (text "registry insert: " ++ error_text e)))

    made_thread :
        Context W → Time → CreateSandboxRequest → Result Text → Thread (State S W) Response
    unfolding created_thread
    made_thread ctx now req (err e) =
        done (write_error 500 (text "create sandbox: " ++ error_text e))
    made_thread ctx now req (ok id) = call (on_world (D.ip ctx id)) (λ found.
        let sb = new_record req now id (or_empty found) in
        call (on_db (Registry.insert S sb)) (created_thread ctx sb))

    -- `handleCreateSandbox`
    unfoldable pub create_thread :
        Context W → Time → Result CreateSandboxRequest → Thread (State S W) Response
    unfolding made_thread
    create_thread ctx now (err e) =
        done (write_error 400 (text "invalid request body: " ++ error_text e))
    create_thread ctx now (ok req) =
        call (on_world (D.create ctx (config_of req.image))) (made_thread ctx now req)

    executed_thread : Text → Time → Result ExecResult → Thread (State S W) Response
    executed_thread id now (err e) = done (write_error 500 (text "exec: " ++ error_text e))
    executed_thread id now (ok res) = call (on_db (Registry.touch_last_active S id now)) (λ _.
        done (
          write_json 200 (
            exec_body
              (record { stdout = res.stdout; stderr = res.stderr; exit_code = res.exit_code }))))

    found_thread :
        Context W → Text → Time → List Text → Result SandboxRecord → Thread (State S W) Response
    unfolding executed_thread
    found_thread ctx id now cmd (err e) = done (write_error 404 (text "sandbox not found: " ++ id))
    found_thread ctx id now cmd (ok sb) =
        call (on_world (D.exec ctx id (build_cmd cmd))) (executed_thread id now)

    -- `handleExecSandbox`
    unfoldable pub exec_thread :
        Context W → Text → Time → Result (List Text) → Thread (State S W) Response
    unfolding found_thread
    exec_thread ctx id now (err e) =
        done (write_error 400 (text "invalid request body: " ++ error_text e))
    exec_thread ctx id now (ok []) = done (write_error 400 (text "cmd must not be empty"))
    exec_thread ctx id now (ok (part ∷ cmd)) =
        call (ask_db (Registry.get S id)) (found_thread ctx id now (part ∷ cmd))

    deleted_thread : Option Error → Thread (State S W) Response
    deleted_thread (some e) = done (write_error 500 (text "registry delete: " ++ error_text e))
    deleted_thread none = done (write_json 204 no_body)

    destroyed_thread : Text → Result (Unit {0}) → Thread (State S W) Response
    unfolding deleted_thread
    destroyed_thread id (err e) = done (write_error 500 (text "destroy sandbox: " ++ error_text e))
    destroyed_thread id (ok _) = call (on_db (Registry.delete S id)) deleted_thread

    -- `handleDeleteSandbox`
    unfoldable pub delete_thread : Context W → Text → Thread (State S W) Response
    unfolding destroyed_thread
    delete_thread ctx id = call (on_world (D.destroy ctx id)) (destroyed_thread id)

    -- The loops of a tick, before what follows them.
    unfoldable pub sleep_thread :
        {A : Type 0} → List SandboxRecord → Thread (State S W) A → Thread (State S W) A
    sleep_thread [] k = k
    sleep_thread (sb ∷ sbs) k =
        call (on_db (Registry.set_status S sb.id sleeping)) (λ _. sleep_thread sbs k)

    unfoldable pub destroy_thread :
        {A : Type 0} → Context W → List SandboxRecord → Thread (State S W) A → Thread (State S W) A
    destroy_thread ctx [] k = k
    destroy_thread ctx (sb ∷ sbs) k =
        call (on_world (D.destroy ctx sb.id))
          (λ _. call (on_db (Registry.delete S sb.id)) (λ _. destroy_thread ctx sbs k))

    -- Step 2 of a tick.
    unfoldable pub remove_thread : Reaper → Context W → Time → Thread (State S W) (Unit {0})
    unfolding destroy_thread
    remove_thread r ctx now =
        call (ask_db (Registry.list_older_than S (cutoff now r.idle_destroy_min) sleeping))
          (λ gone. destroy_thread ctx gone.0 (done tt))

    -- `tick`
    unfoldable pub tick_thread : Reaper → Context W → Time → Thread (State S W) (Unit {0})
    unfolding sleep_thread remove_thread
    tick_thread r ctx now =
        call (ask_db (Registry.list_older_than S (cutoff now r.idle_sleep_min) running))
          (λ asleep. sleep_thread asleep.0 (remove_thread r ctx now))
