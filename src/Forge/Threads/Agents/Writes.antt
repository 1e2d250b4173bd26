-- ===== src/Forge/Threads/Agents/Writes.antt =====
-- The writes of the thread of internal/api/agents.go.
use workspaces.Common.{Text, is_empty, Bool, Result, ok, err, Bool-cases, inl, inr, refl}
use workspaces.Sandbox.Driver.{Driver, Context}
use workspaces.Sandbox.Registry.Sql.{Sqlite}
use workspaces.Sandbox.Registry.{SandboxRecord}
use workspaces.Sandbox.Registry.Spec.{insert, touch}
use workspaces.Sandbox.Registry.Refines.{perform}
use workspaces.Sandbox.Registry.Changes.{kept, wrote}
use workspaces.Agent.Progress.{Progress}
use workspaces.Agent.Engine.{Engine}
use workspaces.Api.Sandboxes.{or_empty}
use workspaces.Api.Agents.{AgentRunRequest, Clock, agent_record, with_timeout}
use workspaces.Forge.Threads.Writes.{IsGood, followed_by-IsGood, within-IsGood}
use workspaces.Forge.Threads.Agents.{
  record_end, ran_thread, looped_thread, run_thread, made_thread, known_thread, agent_thread,
}

module _ (S : Sqlite) {W : Type 0} (D : Driver W) (E : Engine W) (t : Clock) (late : W → Bool)
    (request_id : Text) where
  ran_thread-IsGood :
      (req : AgentRunRequest) (id : Text) (r : Result Text)
      → IsGood S (ran_thread S D E t late request_id req id r)
  unfolding ran_thread perform
  ran_thread-IsGood req id (err e) = tt
  ran_thread-IsGood req id (ok answer) = λ x. (wrote (touch id t.touched) tt, λ y. (kept, tt))

  looped_thread-IsGood :
      (req : AgentRunRequest) (id : Text) (r : Result (Text × Progress))
      → IsGood S (looped_thread S D E t late request_id req id r)
  unfolding looped_thread
  looped_thread-IsGood req id (err e) = ran_thread-IsGood req id (err e)
  looped_thread-IsGood req id (ok out) = λ x.
      let answer = (record_end S D E t late request_id out x).0 in
      (kept, ran_thread-IsGood req id (ok answer))

  run_thread-IsGood :
      (ctx : Context W) (req : AgentRunRequest) (id : Text)
      → IsGood S (run_thread S D E t late request_id ctx req id)
  unfolding run_thread
  run_thread-IsGood ctx req id =
      followed_by-IsGood S _ _ (within-IsGood S _) (looped_thread-IsGood req id)

  made_thread-IsGood :
      (ctx : Context W) (req : AgentRunRequest) (made : Result Text)
      → IsGood S (made_thread S D E t late request_id ctx req made)
  unfolding made_thread agent_record perform
  made_thread-IsGood ctx req (err e) = tt
  made_thread-IsGood ctx req (ok id) = λ x. (
    kept,
    λ y. (
      wrote (insert (agent_record req t.created id (or_empty (D.ip ctx id x.1.0).0))) refl,
      run_thread-IsGood ctx req id,
    ),
  )

  known_thread-IsGood :
      (ctx : Context W) (req : AgentRunRequest) (r : Result SandboxRecord)
      → IsGood S (known_thread S D E t late request_id ctx req r)
  unfolding known_thread
  known_thread-IsGood ctx req (err e) = tt
  known_thread-IsGood ctx req (ok sb) = run_thread-IsGood ctx req req.sandbox_id

  pub agent_thread-IsGood :
      (ctx : Context W) (req : Result AgentRunRequest)
      → IsGood S (agent_thread S D E t late request_id ctx req)
  unfolding agent_thread
  agent_thread-IsGood ctx (err e) = tt
  agent_thread-IsGood ctx (ok req) = elim (Bool-cases (is_empty req.task)) [
    | inl e ↦ rw (e, IsGood) tt
    | inr e ↦
        let run_ctx = with_timeout late ctx in
        elim (Bool-cases (is_empty req.sandbox_id)) [
          | inl f ↦ rw (e, f, IsGood) (λ x. (kept, made_thread-IsGood run_ctx req _))
          | inr f ↦ rw (e, f, IsGood) (λ x. (kept, known_thread-IsGood run_ctx req _))
        ]
  ]
