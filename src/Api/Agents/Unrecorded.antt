-- ===== src/Api/Agents/Unrecorded.antt =====
-- The agent run of internal/api/agents.go whose new sandbox cannot be recorded, and the command of
-- internal/api/sandboxes.go that follows it.
use workspaces.Common.{
  Text, text, is_empty, List, [], ◌∷◌, ◌++◌, true, false, ◌≡◌, refl, ◌∙◌, ap, Bool, none, some,
  Result, ok, err, Error, wrapped, arith, inl, inr, Option-cases, Result-cases, Bool-cases,
}
use workspaces.Sandbox.Driver.{Driver, Context}
use workspaces.Sandbox.Registry.Sql.{Sqlite, IsSqlite, Time, id_is}
use workspaces.Sandbox.Registry.{SandboxRecord}
use workspaces.Sandbox.Registry
use workspaces.Sandbox.Registry.Spec.{find, IsKeyed, adjust, insert, touch, written}
use workspaces.Sandbox.Registry.Tables.{table}
use workspaces.Sandbox.Registry.Refines.{perform, perform_failed, perform-written}
use workspaces.Sandbox.Registry.Queries.{get-find, get_broken, found}
use workspaces.Agent.Accounting.{Accounting}
use workspaces.Agent.Engine.{Engine}
use workspaces.Api.Response.{Response, AgentRunResponse, write_json, write_error, agent_body}
use workspaces.Api.Sandboxes.{config_of, or_empty, after_get, handle_exec_sandbox}
use workspaces.Api.Agents.{
  AgentRunRequest, Clock, State, agent_record, with_timeout, make_sandbox, resolve_sandbox,
  after_run, in_sandbox, handle_agent_run,
}

adjust_absent :
    (id : Text) (f : SandboxRecord → SandboxRecord) (sbs : List SandboxRecord)
    → find id sbs ≡ none
    → adjust id f sbs ≡ sbs
adjust_absent id f [] absent = refl
adjust_absent id f (sb ∷ sbs) absent = ground (arith, adjust_absent id f sbs)

module _ (S : Sqlite) (L : IsSqlite S) {W : Type 0} (D : Driver W) (E : Engine W) (id : Text)
    (sbs : List SandboxRecord) (k : IsKeyed sbs) (absent : find id sbs ≡ none) where
  -- An id without a record is not found, whatever goes wrong.
  get_absent : (db : S.Db) → S.rows db ≡ table S sbs → (e : Error) × (Registry.get S id db ≡ err e)
  unfolding Registry.get
  get_absent db stored =
      elim (Result-cases
        (S.query (record { conditions = id_is id ∷ []; newest_first = false }) db)) [
          | inl ((rs, o), answered) ↦
              elim o
                  as (λ o.
                    S.query (record { conditions = id_is id ∷ []; newest_first = false }) db
                      ≡ ok (rs, o)
                    → (e : Error) × (Registry.get S id db ≡ err e)) [
                      | none ↦ λ h. (_, get-find S L id db sbs rs stored k h ∙ ap found absent)
                      | some e ↦ λ h. get_broken S L id db sbs rs stored absent h
                    ]
                answered
          | inr (e, failed) ↦ (wrapped (text "registry scan: ") e, rw (failed, Registry.get) refl)
        ]

  touch_absent :
      (now : Time) (db : S.Db)
      → S.rows db ≡ table S sbs
      → S.rows (Registry.touch_last_active S id now db).1 ≡ table S sbs
  unfolding perform written
  touch_absent now db stored = elim (Option-cases (Registry.touch_last_active S id now db).0) [
    | inl done ↦
        let (sbs', taken, stored') = perform-written S L (touch id now) db sbs stored done in
        ground (
          arith,
          stored',
          taken,
          adjust_absent id (λ sb. record sb { last_active = now }) sbs absent,
        )
    | inr (e, failed) ↦ perform_failed S L (touch id now) db sbs stored failed
  ]

  exec_absent :
      (c : Context W) (now : Time) (part : Text) (cmd : List Text) (w : W) (db : S.Db)
      → S.rows db ≡ table S sbs
      → handle_exec_sandbox S D c id now (ok (part ∷ cmd)) (w, db)
        ≡ (write_error 404 (text "sandbox not found: " ++ id), (w, db))
  unfolding handle_exec_sandbox
  exec_absent c now part cmd w db stored =
      let (e, missing) = get_absent db stored in rw (missing, after_get) refl

  unrecorded :
      (sb : SandboxRecord) (db : S.Db) {e : Error}
      → S.rows db ≡ table S sbs
      → (Registry.insert S sb db).0 ≡ some e
      → S.rows (Registry.insert S sb db).1 ≡ table S sbs
  unfolding perform
  unrecorded sb db stored refused = perform_failed S L (insert sb) db sbs stored refused

  resolved :
      (c : Context W) (now : Time) (req : AgentRunRequest) (w w' : W) (db : S.Db)
      → is_empty req.sandbox_id ≡ true
      → D.create c (config_of req.image) w ≡ (ok id, w')
      → resolve_sandbox S D E c now req (w, db) ≡ (
        inl id,
        (
          (D.ip c id w').1,
          (Registry.insert S (agent_record req now id (or_empty (D.ip c id w').0)) db).1,
        ),
      )
  unfolding resolve_sandbox make_sandbox
  resolved c now req w w' db new made = rw (new, make_sandbox, made, ap (λ r. r.1) made) refl

  -- What is left of a run in a sandbox of an id that has no record.
  abbrev pub Unrecorded : Response → State S D E → Type 0
  Unrecorded r s =
      (b : AgentRunResponse) × (r ≡ write_json 200 (agent_body b))
      × (b.sandbox_id ≡ id)
      × (S.rows s.1.1 ≡ table S sbs)
      × ((c : Context W) (now : Time) (part : Text) (cmd : List Text) (w : W)
          → handle_exec_sandbox S D c id now (ok (part ∷ cmd)) (w, s.1.1)
            ≡ (write_error 404 (text "sandbox not found: " ++ id), (w, s.1.1)))

  module _ (t : Clock) (late : W → Bool) (ctx : Context W) (request_id : Text) where
    after_run-Unrecorded :
        (task_id : Text) (req : AgentRunRequest) (r : Result Text) (s : State S D E)
        → S.rows s.1.1 ≡ table S sbs
        → (after_run S D E task_id req id t.touched t.others r s).0.code ≡ 200
        → Unrecorded
            (after_run S D E task_id req id t.touched t.others r s).0
            (after_run S D E task_id req id t.touched t.others r s).1
    unfolding after_run write_error write_json
    after_run-Unrecorded task_id req (err e) (runs, s) stored h = ground (arith, h)
    after_run-Unrecorded task_id req (ok answer) (runs, (w, db)) stored h =
        let stored' = touch_absent t.touched db stored in
        (_, refl, refl, stored', λ c now part cmd v. exec_absent c now part cmd v _ stored')

    in_sandbox-Unrecorded :
        (req : AgentRunRequest) (runs : Accounting) (s : W × S.Db)
        → S.rows s.1 ≡ table S sbs
        → let out = in_sandbox S D E t (with_timeout late ctx) request_id req (inl id) (runs, s) in
          out.0.code ≡ 200 → Unrecorded out.0 out.1
    unfolding in_sandbox
    in_sandbox-Unrecorded req runs (w, db) stored h =
        after_run-Unrecorded _ req _ (_, (_, db)) stored h

    -- Over a database that stores records of distinct ids: if a request to run the agent has a new
    -- sandbox made under an id that has no record, and SQLite refuses the record, then an answer of
    -- 200 still gives this id. The records are what they were, and any command for the id is answered
    -- with 404.
    pub handle_agent_run-Unrecorded :
        (req : AgentRunRequest) (s : State S D E) (w' : W) {e : Error}
        → S.rows s.1.1 ≡ table S sbs
        → is_empty req.sandbox_id ≡ true
        → let run_ctx = with_timeout late ctx in
          D.create run_ctx (config_of req.image) s.1.0 ≡ (ok id, w')
          → (Registry.insert S
              (agent_record req t.created id (or_empty (D.ip (with_timeout late ctx) id w').0))
              s.1.1).0
            ≡ some e
          → let out = handle_agent_run S D E t late ctx request_id (ok req) s in
            out.0.code ≡ 200 → Unrecorded out.0 out.1
    unfolding handle_agent_run write_error write_json
    handle_agent_run-Unrecorded req (runs, (w, db)) w' {e} stored new made refused =
        elim (Bool-cases (is_empty req.task)) [
          | inl blank ↦ rw blank (λ h. ground (arith, h))
          | inr given ↦
              rw (given, resolved (with_timeout late ctx) t.created req w w' db new made)
                (in_sandbox-Unrecorded req runs _ (unrecorded _ db stored refused))
        ]
