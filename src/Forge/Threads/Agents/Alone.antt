-- ===== src/Forge/Threads/Agents/Alone.antt =====
-- The thread of `handleAgentRun` of internal/api/agents.go, with nobody in between.
use workspaces.Common.{
  Text, Bool, is_empty, ◌≡◌, refl, ◌∙◌, ap, Result, ok, err, Bool-cases, inl, inr, append-nil, [],
  Result-cases,
}
use workspaces.Sandbox.Driver.{Driver, Context}
use workspaces.Sandbox.Registry.Sql.{Sqlite}
use workspaces.Sandbox.Registry.{SandboxRecord}
use workspaces.Sandbox.Registry
use workspaces.Agent.Role.{model_for_role}
use workspaces.Agent.Tools.{defs_for_role}
use workspaces.Agent.Progress.{Progress, max_iterations, initial}
use workspaces.Agent.Engine.{Engine, after_loop}
use workspaces.Agent.Engine
use workspaces.Api.Sandboxes.{config_of, or_empty}
use workspaces.Api.Agents.{
  AgentRunRequest, Clock, agent_record, task_of, role_of, with_timeout, resolve_sandbox,
  make_sandbox, after_run, in_sandbox, handle_agent_run,
}
use workspaces.Api.Routes.{State}
use workspaces.Forge.Threads.{Thread, done, act, within, alone}
use workspaces.Forge.Threads.Loop.{loop_thread}
use workspaces.Forge.Threads.Loop.Alone.{followed_by-alone, loop_thread-alone}
use workspaces.Forge.Threads.Agents.{
  ran_thread, looped_thread, run_thread, made_thread, known_thread, agent_thread,
}

within-alone :
    (S : Sqlite) {W A : Type 0} (t : Thread W A) (s : State S W)
    → alone (within S t) s ≡ ((alone t s.1.0).0, (s.0, ((alone t s.1.0).1, s.1.1)))
unfolding alone
within-alone S (done a) s = refl
within-alone S (act f k) (runs, (w, db)) = within-alone S (k w) (runs, (f w, db))

module _ (S : Sqlite) {W : Type 0} (D : Driver W) (E : Engine W) (t : Clock) (late : W → Bool)
    (request_id : Text) (quiet : t.others ≡ []) where
  ran_thread-alone :
      (req : AgentRunRequest) (id : Text) (r : Result Text) (s : State S W)
      → alone (ran_thread S D E t late request_id req id r) s
        ≡ after_run S D E (task_of request_id req).id req id t.touched t.others r s
  unfolding alone ran_thread after_run
  ran_thread-alone req id (err e) (runs, s) = rw (quiet, append-nil) refl
  ran_thread-alone req id (ok answer) (runs, (w, db)) = rw (quiet, append-nil) refl

  looped_thread-alone :
      (req : AgentRunRequest) (id : Text) (r : Result (Text × Progress)) (s : State S W)
      → alone (looped_thread S D E t late request_id req id r) s ≡ (
          let out = after_loop E t.finished r s.0 s.1.0 in
          after_run S D E
            (task_of request_id req).id
            req
            id
            t.touched
            t.others
            out.0
            (out.1.0, (out.1.1, s.1.1)))
  unfolding alone looped_thread after_loop
  looped_thread-alone req id (err e) (runs, (w, db)) = ran_thread-alone req id (err e) _
  looped_thread-alone req id (ok out) (runs, (w, db)) = ran_thread-alone req id (ok _) _

  run_thread-alone :
      (ctx : Context W) (req : AgentRunRequest) (id : Text) (s : State S W)
      → alone (run_thread S D E t late request_id ctx req id) s
        ≡ in_sandbox S D E t ctx request_id req (inl id) s
  unfolding run_thread in_sandbox Engine.run
  run_thread-alone ctx req id (runs, (w, db)) =
      let role = role_of req in
      let defs = defs_for_role E.tools role in
      let p = initial (task_of request_id req) role t.started in
      let loop = loop_thread E max_iterations 0 ctx id (model_for_role role) defs p in
      followed_by-alone (within S loop) (looped_thread S D E t late request_id req id)
        (runs, (w, db))
      ∙ rw
          (
            within-alone S loop (runs, (w, db)),
            loop_thread-alone E max_iterations 0 ctx id (model_for_role role) defs p w,
          )
          (looped_thread-alone req id _ _)

  pub agent_thread-alone :
      (ctx : Context W) (req : Result AgentRunRequest) (s : State S W)
      → alone (agent_thread S D E t late request_id ctx req) s
        ≡ handle_agent_run S D E t late ctx request_id req s
  unfolding alone agent_thread made_thread known_thread handle_agent_run in_sandbox
  agent_thread-alone ctx (err e) (runs, s) = refl
  agent_thread-alone ctx (ok req) (runs, (w, db)) = elim (Bool-cases (is_empty req.task)) [
    | inl e ↦ rw e refl
    | inr e ↦
        let run_ctx = with_timeout late ctx in
        elim (Bool-cases (is_empty req.sandbox_id)) [
          | inl f ↦
              let made = D.create run_ctx (config_of req.image) w in
              let follows = λ (r : Result Text).
                alone (made_thread S D E t late request_id run_ctx req r) (runs, (made.1, db)) in
              elim (Result-cases made.0) [
                | inl (id, g) ↦
                    let found = D.ip run_ctx id made.1 in
                    let sb = agent_record req t.created id (or_empty found.0) in
                    rw (e, f, g, resolve_sandbox, make_sandbox)
                      (ap follows g
                        ∙ run_thread-alone run_ctx req id
                            (runs, (found.1, (Registry.insert S sb db).1)))
                | inr (x, g) ↦ rw (e, f, g, resolve_sandbox, make_sandbox) (ap follows g)
              ]
          | inr f ↦
              let follows = λ (r : Result SandboxRecord).
                alone (known_thread S D E t late request_id run_ctx req r) (runs, (w, db)) in
              elim (Result-cases (Registry.get S req.sandbox_id db)) [
                | inl (sb, g) ↦
                    rw (e, f, g, resolve_sandbox)
                      (ap follows g ∙ run_thread-alone run_ctx req req.sandbox_id (runs, (w, db)))
                | inr (x, g) ↦ rw (e, f, g, resolve_sandbox) (ap follows g)
              ]
        ]
  ]
