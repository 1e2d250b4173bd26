-- ===== src/Api/Agents/Timeout.antt =====
-- What `handleAgentRun` of internal/api/agents.go does when the time of a run is over.
use workspaces.Common.{
  Text, is_empty, ◌++◌, Bool, true, ◌≡◌, refl, Result, ok, err, Error, is_deadline_exceeded, arith,
  ◌⊎◌, inl, inr, Bool-cases,
}
use workspaces.Sandbox.Driver.{Driver, Context}
use workspaces.Sandbox.Registry.Sql.{Sqlite}
use workspaces.Agent.Accounting.{Accounting}
use workspaces.Agent.Engine.{Engine}
use workspaces.Agent.Engine
use workspaces.Agent.Engine.Runs.{run-Failed}
use workspaces.Api.Response.{Response, write_json, write_error}
use workspaces.Api.Agents.{
  AgentRunRequest, Clock, State, with_timeout, role_of, task_of, after_run, in_sandbox,
  handle_agent_run,
}
use workspaces.Api.Agents.Outcome.{Refuses, resolve_sandbox-Refuses, resolved}

module _ (S : Sqlite) {W : Type 0} (D : Driver W) (E : Engine W) (t : Clock) (late : W → Bool)
    (ctx : Context W) (request_id : Text) where
  -- The run of the agent in the sandbox.
  abbrev pub ran : AgentRunRequest → Text → Accounting × W → Result Text × (Accounting × W)
  ran rq id s =
      Engine.run E t.started t.finished (with_timeout late ctx) (task_of request_id rq) (role_of rq)
        id s

  after_run_late :
      (task_id : Text) (req : AgentRunRequest) (id : Text) (r : Result Text) (s : State S D E)
      → (after_run S D E task_id req id t.touched t.others r s).0.code ≡ 504
      → (e : Error) × (r ≡ err e) × (is_deadline_exceeded e ≡ true)
  unfolding after_run write_error write_json
  after_run_late task_id req id (ok answer) (runs, (w, db)) h = ground (arith, h)
  after_run_late task_id req id (err e) (runs, s) h = elim (Bool-cases (is_deadline_exceeded e)) [
    | inl l ↦ (e, refl, l)
    | inr l ↦ ground (arith, rw l at h)
  ]

  -- A run that a timeout ended. It recorded nothing, and the records stay as they were before it:
  -- the sandbox does not count as active.
  abbrev pub Expired : AgentRunRequest → Text → Accounting → W × S.Db → State S D E → Type 0
  Expired rq id runs (w, db) s' =
      (e : Error) × ((ran rq id (runs, w)).0 ≡ err e)
      × (is_deadline_exceeded e ≡ true)
      × (s' ≡ (runs ++ t.others, ((ran rq id (runs, w)).1.1, db)))

  after_run-Expired :
      (rq : AgentRunRequest) (id : Text) (runs : Accounting) (w : W) (db : S.Db)
      → let r = ran rq id (runs, w) in
        let out =
          after_run S D E
            (task_of request_id rq).id
            rq
            id
            t.touched
            t.others
            r.0
            (r.1.0, (r.1.1, db)) in
        out.0.code ≡ 504 → Expired rq id runs (w, db) out.1
  unfolding after_run
  after_run-Expired rq id runs w db h =
      let r = ran rq id (runs, w) in
      let (e, ended, expired) =
        after_run_late (task_of request_id rq).id rq id r.0 (r.1.0, (r.1.1, db)) h in
      let kept : r.1.0 ≡ runs =
        (run-Failed E t.started t.finished (with_timeout late ctx) (task_of request_id rq)
          (role_of rq) id runs w ended).0 in
      (e, ended, expired, rw (ended, kept) refl)

  in_sandbox-Expired :
      (rq : AgentRunRequest) (r : Text ⊎ Response) (runs : Accounting) (s : W × S.Db)
      → Refuses S D E t late ctx request_id r
      → let out = in_sandbox S D E t (with_timeout late ctx) request_id rq r (runs, s) in
        out.0.code ≡ 504 → (id : Text) × (r ≡ inl id) × Expired rq id runs s out.1
  unfolding in_sandbox
  in_sandbox-Expired rq (inr refusal) runs s h l = ground (arith, h, l)
  in_sandbox-Expired rq (inl id) runs (w, db) h l = (id, refl, after_run-Expired rq id runs w db l)

  -- An answer of 504 means that the request had a sandbox, or got one, and that the run in it, from
  -- the world that was left then, ended with an error that goes back to the deadline. The accounting
  -- has gained only what others recorded, and the records are those from before the run: the time of
  -- the last activity is not set.
  pub handle_agent_run-Expired :
      (req : Result AgentRunRequest) (runs : Accounting) (s : W × S.Db)
      → (handle_agent_run S D E t late ctx request_id req (runs, s)).0.code ≡ 504
      → (rq : AgentRunRequest) × (req ≡ ok rq)
        × (id : Text) × ((resolved S D E t late ctx request_id rq s).0 ≡ inl id)
        × Expired rq id runs
            (resolved S D E t late ctx request_id rq s).1
            (handle_agent_run S D E t late ctx request_id req (runs, s)).1
  unfolding handle_agent_run write_error write_json
  handle_agent_run-Expired (err e) runs s h = ground (arith, h)
  handle_agent_run-Expired (ok rq) runs s h = elim (Bool-cases (is_empty rq.task)) [
    | inl blank ↦ ground (arith, rw blank at h)
    | inr given ↦
        let (id, found, shown) =
          in_sandbox-Expired rq _ runs _
            (resolve_sandbox-Refuses S D E t late ctx request_id (with_timeout late ctx) t.created
              rq s)
            (rw given at h) in
        (rq, refl, id, found, rw given shown)
  ]
