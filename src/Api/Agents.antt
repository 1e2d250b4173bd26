-- ===== src/Api/Agents.antt =====
-- `handleAgentRun` of internal/api/agents.go. The state is the world, the database and the engine's
-- accounting.
pub mod Outcome
pub mod Timeout
pub mod Unrecorded
use workspaces.Common.{
  ℕ, Text, text, text_eq, is_empty, List, [], ◌∷◌, ◌++◌, Bool, true, false, Option, none, some,
  Result, ok, err, Error, error_text, is_deadline_exceeded, deadline_exceeded, if◌then◌else◌, ◌⊎◌,
  inl, inr,
}
use workspaces.Common.Int.{ℤ, pos}
use workspaces.Types.{Task}
use workspaces.Types
use workspaces.Sandbox.Driver.{Driver, Context, running}
use workspaces.Sandbox.Registry.Sql.{Sqlite, Time}
use workspaces.Sandbox.Registry.{SandboxRecord}
use workspaces.Sandbox.Registry
use workspaces.Agent.Role.{Role, coder, model_for_role}
use workspaces.Agent.Accounting.{RunStats, Accounting, zero_stats, runs_of}
use workspaces.Agent.Engine.{Engine}
use workspaces.Agent.Engine
use workspaces.Api.Response.{Response, write_json, write_error, agent_body}
use workspaces.Api.Sandboxes.{config_of, or_empty}

pub record AgentRunRequest : Type 0 where
  pub repo_url : Text
  pub task : Text
  pub role : Text
  pub image : Text
  pub sandbox_id : Text

-- `context.WithTimeout`, from whether the world says that the ten minutes are over.
unfoldable pub with_timeout : {W : Type 0} → (W → Bool) → Context W → Context W
with_timeout late ctx w = elim (ctx w) [
  | some e ↦ some e
  | none ↦ if late w then some deadline_exceeded else none
]

unfoldable pub role_of : AgentRunRequest → Role
role_of req = if is_empty req.role then coder else req.role

description_of : AgentRunRequest → Text
description_of req =
    if is_empty req.repo_url
    then req.task
    else text "Repository: "
      ++ req.repo_url
      ++ text
          "\n\nYour cwd is /home/forge/workspace. If it is empty (no .git), clone the repo INTO it: `git clone "
      ++ req.repo_url
      ++ text
          " .`\nIf /home/forge/workspace/.git already exists, reuse the existing clone.\n\nPROXY: If you start a server on port <P>, the user can reach it at http://localhost:7001/sandboxes/SANDBOX_ID/port/<P>/\n\nThen complete this task:\n"
      ++ req.task

unfoldable pub task_of : Text → AgentRunRequest → Task
unfolding description_of
task_of request_id req = record {
  id = text "agent-run-" ++ request_id;
  title = req.task;
  description = description_of req;
  status = Types.running;
  subtasks = [];
  pr_number = pos 0;
  pr_status = [];
  created_at = 0;
  updated_at = 0;
}

-- The last of the recorded runs, or the zero value.
unfoldable pub last_run : List RunStats → RunStats
last_run [] = zero_stats
last_run (s ∷ []) = s
last_run (s ∷ r ∷ runs) = last_run (r ∷ runs)

unfoldable pub agent_record : AgentRunRequest → Time → Text → Text → SandboxRecord
agent_record req now id ip = record {
  id = id;
  ip = ip;
  status = running;
  project_id = req.repo_url;
  agent_role = role_of req;
  created_at = now;
  last_active = now;
  mem_usage = pos 0;
  transport = text "docker";
}

-- The times that `time.Now` returns on the way, and the runs that other requests record meanwhile.
pub record Clock : Type 0 where
  pub created : Time
  pub started : Time
  pub finished : Time
  pub touched : Time
  pub others : List RunStats

module _ (S : Sqlite) {W : Type 0} (D : Driver W) (E : Engine W) where
  abbrev pub State : Type 0
  State = Accounting × (W × S.Db)

  -- A new sandbox and its record; a record that cannot be inserted is passed over.
  -- The address is taken without regard to an error, beside which the drivers leave it empty.
  unfoldable pub make_sandbox :
      Context W → Time → AgentRunRequest → W × S.Db → Result Text × (W × S.Db)
  make_sandbox ctx now req (w, db) =
      let made = D.create ctx (config_of req.image) w in
      elim made.0 [
        | err e ↦ (err e, (made.1, db))
        | ok id ↦
            let found = D.ip ctx id made.1 in
            (
              ok id,
              (found.1, (Registry.insert S (agent_record req now id (or_empty found.0)) db).1),
            )
      ]

  -- The sandbox of the request: its own, if the registry knows it, or a new one. A refusal is the
  -- answer to the request.
  unfoldable pub resolve_sandbox :
      Context W → Time → AgentRunRequest → W × S.Db → (Text ⊎ Response) × (W × S.Db)
  unfolding make_sandbox
  resolve_sandbox ctx now req (w, db) =
      if is_empty req.sandbox_id
      then (let r = make_sandbox ctx now req (w, db) in
          (
            elim r.0 [
              | ok id ↦ inl id
              | err e ↦ inr (write_error 500 (text "create sandbox: " ++ error_text e))
            ],
            r.1,
          ))
      else (
        elim (Registry.get S req.sandbox_id db) [
          | ok sb ↦ inl req.sandbox_id
          | err e ↦ inr (write_error 404 (text "sandbox not found: " ++ req.sandbox_id))
        ],
        (w, db),
      )

  -- What follows the run. The runs of other requests that ended in between are recorded behind it.
  unfoldable pub after_run :
      Text → AgentRunRequest → Text → Time → List RunStats → Result Text → State → Response × State
  unfolding runs_of last_run role_of
  after_run task_id req id now others (err e) (runs, s) = (
    if is_deadline_exceeded e
        then write_error 504 (text "agent run timed out after 10m (likely long-running command)")
        else write_error 500 (text "agent run failed: " ++ error_text e),
    (runs ++ others, s),
  )
  after_run task_id req id now others (ok answer) (runs, (w, db)) = (
    write_json 200 (
        agent_body (record {
          task_id = task_id;
          role = role_of req;
          model = model_for_role (role_of req);
          answer = answer;
          sandbox_id = id;
          stats = last_run (runs_of (runs ++ others));
        })),
    (runs ++ others, (w, (Registry.touch_last_active S id now db).1)),
  )

  unfoldable pub in_sandbox :
      Clock → Context W → Text → AgentRunRequest → Text ⊎ Response → State → Response × State
  unfolding after_run task_of
  in_sandbox t ctx request_id req (inr refusal) s = (refusal, s)
  in_sandbox t ctx request_id req (inl id) (runs, (w, db)) =
      let r =
        Engine.run E t.started t.finished ctx (task_of request_id req) (role_of req) id (runs, w) in
      after_run (task_of request_id req).id req id t.touched t.others r.0 (r.1.0, (r.1.1, db))

  unfoldable pub handle_agent_run :
      Clock → (W → Bool) → Context W → Text → Result AgentRunRequest → State → Response × State
  unfolding in_sandbox resolve_sandbox with_timeout
  handle_agent_run t late ctx request_id (err e) s =
      (write_error 400 (text "invalid request body: " ++ error_text e), s)
  handle_agent_run t late ctx request_id (ok req) (runs, s) =
      if is_empty req.task
      then (write_error 400 (text "task is required"), (runs, s))
      else (let run_ctx = with_timeout late ctx in
          let r = resolve_sandbox run_ctx t.created req s in
          in_sandbox t run_ctx request_id req r.0 (runs, r.1))
