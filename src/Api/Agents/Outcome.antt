-- ===== src/Api/Agents/Outcome.antt =====
-- What `handleAgentRun` of internal/api/agents.go answers, and what it leaves alone.
use workspaces.Common.{
  ◌≤◌, Text, is_empty, List, [], ◌∷◌, ◌++◌, append_assoc, Bool, false, ◌≡◌, refl, ◌∙◌, ap, none,
  Result, ok, err, arith, ◌⊎◌, inl, inr, Result-cases, Bool-cases,
}
use workspaces.Sandbox.Driver.{Driver, Context}
use workspaces.Sandbox.Registry.Sql.{Sqlite, IsSqlite, IsHealthy, Time}
use workspaces.Sandbox.Registry.{SandboxRecord}
use workspaces.Sandbox.Registry
use workspaces.Sandbox.Registry.Spec.{find, IsKeyed}
use workspaces.Sandbox.Registry.Tables.{table}
use workspaces.Agent.Role.{model_for_role}
use workspaces.Agent.Accounting.{RunStats, Accounting, runs_of}
use workspaces.Agent.Engine.{Engine}
use workspaces.Agent.Progress.{Progress, max_iterations, no_answer}
use workspaces.Agent.Engine.Loop.{IsSound}
use workspaces.Agent.Engine.Runs.{looped, stamped, IsReply, Recorded, run-Recorded}
use workspaces.Api.Response.{Response, write_json, write_error, agent_body}
use workspaces.Api.Agents.{
  AgentRunRequest, Clock, with_timeout, role_of, task_of, last_run, make_sandbox, resolve_sandbox,
  after_run, in_sandbox, handle_agent_run,
}
use workspaces.Api.Sandboxes.Records.{get-record}

last_run-append :
    (runs : List RunStats) (s : RunStats) (others : List RunStats)
    → last_run (runs ++ s ∷ others) ≡ last_run (s ∷ others)
unfolding last_run
last_run-append [] s others = refl
last_run-append (r ∷ []) s others = refl
last_run-append (r ∷ q ∷ runs) s others = last_run-append (q ∷ runs) s others

module _ (S : Sqlite) {W : Type 0} (D : Driver W) (E : Engine W) (t : Clock) (late : W → Bool)
    (ctx : Context W) (request_id : Text) where
  -- What the handler has once it has looked for a sandbox, or made one.
  abbrev pub resolved : AgentRunRequest → W × S.Db → (Text ⊎ Response) × (W × S.Db)
  resolved rq s = resolve_sandbox S D E (with_timeout late ctx) t.created rq s

  -- A request without a sandbox is refused with 404 or 500.
  abbrev pub Refuses : Text ⊎ Response → Type 0
  Refuses (inl id) = Unit
  Refuses (inr r) = (r.code ≡ 404) ⊎ (r.code ≡ 500)

  pub resolve_sandbox-Refuses :
      (c : Context W) (now : Time) (req : AgentRunRequest) (s : W × S.Db)
      → Refuses (resolve_sandbox S D E c now req s).0
  unfolding resolve_sandbox write_error write_json
  resolve_sandbox-Refuses c now req (w, db) = elim (Bool-cases (is_empty req.sandbox_id)) [
    | inl new ↦ elim (Result-cases (make_sandbox S D E c now req (w, db)).0) [
      | inl (id, e) ↦ rw (new, e) tt
      | inr (x, e) ↦ rw (new, e) (inr refl)
    ]
    | inr given ↦ elim (Result-cases (Registry.get S req.sandbox_id db)) [
      | inl (sb, e) ↦ rw (given, e) tt
      | inr (x, e) ↦ rw (given, e) (inl refl)
    ]
  ]

  -- A run that an answer of 200 shows: its loop, from the world that was left once the sandbox was
  -- there, ended well, and the last of the runs recorded since, itself included, is what the answer
  -- gives as its statistics.
  abbrev pub Answered : AgentRunRequest → Text → W → Accounting → Response → Accounting → Type 0
  Answered rq id w runs r runs' =
      (answer a : Text) × (q : Progress) × (looped E t.started t.finished (with_timeout late ctx)
          (task_of request_id rq) (role_of rq) id w
        ≡ ok (a, q))
      × (r
          ≡ write_json 200 (
              agent_body (record {
                task_id = (task_of request_id rq).id;
                role = role_of rq;
                model = model_for_role (role_of rq);
                answer = answer;
                sandbox_id = id;
                stats = last_run (stamped t.finished q ∷ t.others);
              })))
      × (runs' ≡ runs ++ stamped t.finished q ∷ t.others)
      × IsSound q
      × (1 ≤ q.stats.iterations)
      × (q.stats.iterations ≤ max_iterations)
      × (IsReply answer q ⊎ ((answer ≡ no_answer) × (q.stats.iterations ≡ max_iterations)))

  after_run-Answered :
      (rq : AgentRunRequest) (id : Text) (r : Result Text) (v : W) (runs runs' : Accounting) (w : W)
      (db : S.Db)
      → ((answer : Text)
          → r ≡ ok answer
          → Recorded
              (looped E t.started t.finished
                (with_timeout late ctx)
                (task_of request_id rq)
                (role_of rq)
                id
                v)
              t.finished
              runs
              answer
              runs')
      → let out =
          after_run S D E (task_of request_id rq).id rq id t.touched t.others r (runs', (w, db)) in
        out.0.code ≡ 200 → Answered rq id v runs out.0 out.1.0
  unfolding after_run write_error write_json runs_of
  after_run-Answered rq id (err e) v runs runs' w db recorded h = ground (arith, h)
  after_run-Answered rq id (ok answer) v runs runs' w db recorded h =
      let (a, q, back, e, sound, first, most, reply) = recorded answer refl in
      let all : runs' ++ t.others ≡ runs ++ stamped t.finished q ∷ t.others =
        ap (λ rs. rs ++ t.others) e ∙ append_assoc runs (stamped t.finished q ∷ []) t.others in
      (
        answer,
        a,
        q,
        back,
        rw (all, last_run-append runs (stamped t.finished q) t.others) refl,
        all,
        sound,
        first,
        most,
        reply,
      )

  in_sandbox-Answered :
      (rq : AgentRunRequest) (r : Text ⊎ Response) (runs : Accounting) (s : W × S.Db)
      → Refuses r
      → let out = in_sandbox S D E t (with_timeout late ctx) request_id rq r (runs, s) in
        out.0.code ≡ 200 → (id : Text) × (r ≡ inl id) × Answered rq id s.0 runs out.0 out.1.0
  unfolding in_sandbox
  in_sandbox-Answered rq (inr refusal) runs s h l = ground (arith, h, l)
  in_sandbox-Answered rq (inl id) runs (w, db) h l = (
    id,
    refl,
    after_run-Answered rq id _ w runs _ _ db
        (λ _ e.
          run-Recorded E t.started t.finished (with_timeout late ctx) (task_of request_id rq)
            (role_of rq) id runs w e)
        l,
  )

  -- An answer of 200 comes from a run, in the sandbox of the request or the one made for it, whose
  -- loop ended after one to fifty rounds and whose conversation was recorded: it shows the reply at
  -- the end of that conversation, which called no tool, or says that all fifty rounds were used up;
  -- its statistics are those of this run if no other was recorded before they were read, and else
  -- those of the last one that was.
  pub handle_agent_run-Answered :
      (req : Result AgentRunRequest) (runs : Accounting) (s : W × S.Db)
      → (handle_agent_run S D E t late ctx request_id req (runs, s)).0.code ≡ 200
      → (rq : AgentRunRequest) × (req ≡ ok rq)
        × (id : Text) × ((resolved rq s).0 ≡ inl id)
        × Answered rq id
            (resolved rq s).1.0
            runs
            (handle_agent_run S D E t late ctx request_id req (runs, s)).0
            (handle_agent_run S D E t late ctx request_id req (runs, s)).1.0
  unfolding handle_agent_run write_error write_json
  handle_agent_run-Answered (err e) runs s h = ground (arith, h)
  handle_agent_run-Answered (ok rq) runs s h = elim (Bool-cases (is_empty rq.task)) [
    | inl blank ↦ ground (arith, rw blank at h)
    | inr given ↦
        let (id, found, shown) =
          in_sandbox-Answered rq _ runs _
            (resolve_sandbox-Refuses (with_timeout late ctx) t.created rq s) (rw given at h) in
        (rq, refl, id, found, rw given shown)
  ]

  -- With an engine in order and a database that stores records of distinct ids, a request to run
  -- in a sandbox that has no record is refused with 400 or 404, and the accounting, the world and
  -- the database stay: neither the driver nor the model is asked.
  pub handle_agent_run_unknown :
      IsSqlite S
      → IsHealthy S
      → (req : AgentRunRequest) (runs : Accounting) (w : W) (db : S.Db) (sbs : List SandboxRecord)
      → S.rows db ≡ table S sbs
      → IsKeyed sbs
      → is_empty req.sandbox_id ≡ false
      → find req.sandbox_id sbs ≡ none
      → let out = handle_agent_run S D E t late ctx request_id (ok req) (runs, (w, db)) in
        (out.1 ≡ (runs, (w, db))) × ((out.0.code ≡ 400) ⊎ (out.0.code ≡ 404))
  unfolding handle_agent_run resolve_sandbox in_sandbox write_error write_json
  handle_agent_run_unknown L H req runs w db sbs stored k given absent =
      elim (Bool-cases (is_empty req.task)) [
        | inl blank ↦ rw blank (refl, inl refl)
        | inr some_task ↦
            rw (some_task, given, get-record S L H D req.sandbox_id db sbs stored k, absent)
              (refl, inr refl)
      ]
