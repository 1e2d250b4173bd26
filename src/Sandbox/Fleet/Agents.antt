-- ===== src/Sandbox/Fleet/Agents.antt =====
-- A request to run an agent and the sandboxes that there are.
use workspaces.Common.{
  Text, is_empty, List, Bool, refl, Result, ok, err, Bool-cases, Result-cases, inl, inr, ◌⊎◌,
}
use workspaces.Sandbox.Driver.{Driver, Context}
use workspaces.Sandbox.Fleet.{IsFleet}
use workspaces.Sandbox.Fleet.Records.{IsBacked, moved-IsBacked, touch-IsBacked}
use workspaces.Sandbox.Fleet.Requests.{made-IsBacked}
use workspaces.Sandbox.Registry.Sql.{Sqlite, IsSqlite, IsHealthy, Time}
use workspaces.Sandbox.Registry.Refines.{perform}
use workspaces.Agent.Engine.{Engine}
use workspaces.Agent.Engine.Frame.{IsCalm, run-keeps}
use workspaces.Agent.Accounting.{Accounting, RunStats}
use workspaces.Api.Response.{Response}
use workspaces.Api.Sandboxes.{config_of, or_empty}
use workspaces.Api.Agents.{
  AgentRunRequest, Clock, agent_record, make_sandbox, resolve_sandbox, after_run, in_sandbox,
  with_timeout, task_of, role_of, handle_agent_run,
}

module _ {W : Type 0} (D : Driver W) (IsName : Text → Type 0) (Lives : Text → W → Type 0)
    (F : IsFleet D IsName Lives) (S : Sqlite) (L : IsSqlite S) (H : IsHealthy S) (E : Engine W)
    (calm : (i : Text) → IsCalm E (Lives i)) where
  make_sandbox-IsBacked :
      (ctx : Context W) (now : Time) (req : AgentRunRequest) (s : W × S.Db)
      → IsBacked S IsName Lives s
      → IsBacked S IsName Lives (make_sandbox S D E ctx now req s).1
  unfolding make_sandbox agent_record
  make_sandbox-IsBacked ctx now req (w, db) backed =
      let made = D.create ctx (config_of req.image) w in
      elim (Result-cases made.0) [
        | inl (id, e) ↦
            let sb = agent_record req now id (or_empty (D.ip ctx id made.1).0) in
            rw (e, make_sandbox)
              (made-IsBacked D IsName Lives F S L H ctx req.image sb w db e refl backed).1
        | inr (f, e) ↦
            rw (e, make_sandbox)
              (moved-IsBacked S IsName Lives
                (λ i living. F.create_keeps ctx (config_of req.image) w living) backed)
      ]

  resolve_sandbox-IsBacked :
      (ctx : Context W) (now : Time) (req : AgentRunRequest) (s : W × S.Db)
      → IsBacked S IsName Lives s
      → IsBacked S IsName Lives (resolve_sandbox S D E ctx now req s).1
  unfolding resolve_sandbox
  resolve_sandbox-IsBacked ctx now req s backed = elim (Bool-cases (is_empty req.sandbox_id)) [
    | inl e ↦ rw (e, resolve_sandbox) (make_sandbox-IsBacked ctx now req s backed)
    | inr e ↦ rw (e, resolve_sandbox) backed
  ]

  after_run-IsBacked :
      (task_id : Text) (req : AgentRunRequest) (id : Text) (now : Time) (others : List RunStats)
      (r : Result Text) (runs : Accounting) (s : W × S.Db)
      → IsBacked S IsName Lives s
      → IsBacked S IsName Lives (after_run S D E task_id req id now others r (runs, s)).1.1
  unfolding after_run perform
  after_run-IsBacked task_id req id now others (err e) runs s backed = backed
  after_run-IsBacked task_id req id now others (ok answer) runs s backed =
      touch-IsBacked S IsName Lives L H id now backed

  in_sandbox-IsBacked :
      (t : Clock) (ctx : Context W) (request_id : Text) (req : AgentRunRequest)
      (found : Text ⊎ Response) (runs : Accounting) (s : W × S.Db)
      → IsBacked S IsName Lives s
      → IsBacked S IsName Lives (in_sandbox S D E t ctx request_id req found (runs, s)).1.1
  unfolding in_sandbox
  in_sandbox-IsBacked t ctx request_id req (inr refusal) runs s backed = backed
  in_sandbox-IsBacked t ctx request_id req (inl id) runs (w, db) backed =
      after_run-IsBacked _ req id t.touched t.others _ _ _ (
        moved-IsBacked S IsName Lives
          (λ i living.
            run-keeps E (Lives i) (calm i) t.started t.finished ctx (task_of request_id req)
              (role_of req) id runs w living)
          backed)

  pub handle_agent_run-IsBacked :
      (t : Clock) (late : W → Bool) (ctx : Context W) (request_id : Text)
      (req : Result AgentRunRequest) (runs : Accounting) (s : W × S.Db)
      → IsBacked S IsName Lives s
      → IsBacked S IsName Lives (handle_agent_run S D E t late ctx request_id req (runs, s)).1.1
  unfolding handle_agent_run
  handle_agent_run-IsBacked t late ctx request_id (err e) runs s backed = backed
  handle_agent_run-IsBacked t late ctx request_id (ok req) runs s backed =
      elim (Bool-cases (is_empty req.task)) [
        | inl e ↦ rw (e, handle_agent_run) backed
        | inr e ↦
            rw (e, handle_agent_run)
              (in_sandbox-IsBacked t (with_timeout late ctx) request_id req _ runs _
                (resolve_sandbox-IsBacked (with_timeout late ctx) t.created req s backed))
      ]
