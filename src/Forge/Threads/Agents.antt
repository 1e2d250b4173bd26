-- ===== src/Forge/Threads/Agents.antt =====
-- `handleAgentRun` of internal/api/agents.go as a thread.
pub mod Alone
pub mod Writes
use workspaces.Common.{
  Text, text, is_empty, Bool, Result, ok, err, Error, ◌++◌, error_text, is_deadline_exceeded,
  if◌then◌else◌,
}
use workspaces.Sandbox.Driver.{Driver, Context}
use workspaces.Sandbox.Registry.Sql.{Sqlite}
use workspaces.Sandbox.Registry.{SandboxRecord}
use workspaces.Sandbox.Registry
use workspaces.Agent.Role.{model_for_role}
use workspaces.Agent.Accounting.{RunStats, Accounting, runs_of}
use workspaces.Agent.Engine.{Engine}
use workspaces.Agent.Progress.{Progress, max_iterations, initial, finish}
use workspaces.Agent.Tools.{defs_for_role}
use workspaces.Api.Response.{Response, write_json, write_error, agent_body}
use workspaces.Api.Sandboxes.{config_of, or_empty}
use workspaces.Api.Agents.{
  AgentRunRequest, Clock, agent_record, last_run, role_of, task_of, with_timeout,
}
use workspaces.Api.Routes.{State}
use workspaces.Forge.Threads.{Thread, done, act, call, followed_by, within, on_world, on_db, ask_db}
use workspaces.Forge.Threads.Loop.{loop_thread}

module _ (S : Sqlite) {W : Type 0} (D : Driver W) (E : Engine W) (t : Clock) (late : W → Bool)
    (request_id : Text) where
  -- The end of `Run`: a loop that ended well is recorded.
  abbrev pub record_end : Text × Progress → State S W → Text × State S W
  record_end out (runs, s) = let r = finish t.finished out runs in (r.0, (r.1, s))

  abbrev pub read_runs : State S W → Accounting × State S W
  read_runs s = (s.0, s)

  -- What follows the run: a touch whose error is passed over, and then the accounting is read.
  ran_thread : AgentRunRequest → Text → Result Text → Thread (State S W) Response
  ran_thread req id (err e) = done (
      if is_deadline_exceeded e
      then write_error 504 (text "agent run timed out after 10m (likely long-running command)")
      else write_error 500 (text "agent run failed: " ++ error_text e))
  ran_thread req id (ok answer) = call (on_db S (Registry.touch_last_active S id t.touched)) (λ _.
      call read_runs (λ runs. done (
        write_json 200 (
          agent_body (record {
            task_id = (task_of request_id req).id;
            role = role_of req;
            model = model_for_role (role_of req);
            answer = answer;
            sandbox_id = id;
            stats = last_run (runs_of runs);
          })))))

  unfoldable pub looped_thread :
      AgentRunRequest → Text → Result (Text × Progress) → Thread (State S W) Response
  unfolding ran_thread
  looped_thread req id (err e) = ran_thread req id (err e)
  looped_thread req id (ok out) = call (record_end out) (λ answer. ran_thread req id (ok answer))

  unfoldable pub run_thread : Context W → AgentRunRequest → Text → Thread (State S W) Response
  unfolding looped_thread
  run_thread ctx req id =
      let role = role_of req in
      followed_by
        (within S (
          loop_thread E max_iterations 0 ctx id (model_for_role role) (defs_for_role E.tools role)
            (initial (task_of request_id req) role t.started)))
        (looped_thread req id)

  made_thread : Context W → AgentRunRequest → Result Text → Thread (State S W) Response
  unfolding run_thread
  made_thread ctx req (err e) = done (write_error 500 (text "create sandbox: " ++ error_text e))
  made_thread ctx req (ok id) = call (on_world S (D.ip ctx id)) (λ found.
      call (on_db S (Registry.insert S (agent_record req t.created id (or_empty found))))
        (λ _. run_thread ctx req id))

  unfoldable pub known_thread :
      Context W → AgentRunRequest → Result SandboxRecord → Thread (State S W) Response
  unfolding run_thread
  known_thread ctx req (err e) =
      done (write_error 404 (text "sandbox not found: " ++ req.sandbox_id))
  known_thread ctx req (ok sb) = run_thread ctx req req.sandbox_id

  unfoldable pub agent_thread : Context W → Result AgentRunRequest → Thread (State S W) Response
  unfolding made_thread known_thread with_timeout
  agent_thread ctx (err e) = done (write_error 400 (text "invalid request body: " ++ error_text e))
  agent_thread ctx (ok req) =
      let run_ctx = with_timeout late ctx in
      if is_empty req.task
      then done (write_error 400 (text "task is required"))
      else if is_empty req.sandbox_id
      then call (on_world S (D.create run_ctx (config_of req.image))) (made_thread run_ctx req)
      else call (ask_db S (Registry.get S req.sandbox_id)) (known_thread run_ctx req)
