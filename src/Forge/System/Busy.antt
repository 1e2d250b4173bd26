-- ===== src/Forge/System/Busy.antt =====
-- The reaper of internal/sandbox/reaper.go while internal/api/agents.go runs the agent in a sandbox that
-- was there before.
use workspaces.Common.{
  ℕ, zero, suc, Text, text, text_eq, text_eq_refl, is_empty, List, [], ◌∷◌, Bool, true, false, ◌≡◌,
  refl, ◌∙◌, ap, Option, none, some, Result, ok, any, ◌<◌, lt→ltb, inl, inr,
}
use mathlib.Core.Path.{subst}
use workspaces.Sandbox.Driver.{Context, running, sleeping}
use workspaces.Sandbox.Registry.Sql.{Sqlite, IsSqlite, IsHealthy, Time}
use workspaces.Sandbox.Registry.{SandboxRecord}
use workspaces.Sandbox.Registry
use workspaces.Sandbox.Registry.Spec.{find, is_record, IsKeyed, idle}
use workspaces.Sandbox.Registry.Tables.{table}
use workspaces.Sandbox.Registry.Queries.{found}
use workspaces.Sandbox.Registry.Changes.{IsUp}
use workspaces.Sandbox.Reaper.{cutoff}
use workspaces.Sandbox.Reaper.Sweep.{tick_sweep, after_sleep, after_destroy, holds, destroy_all}
use workspaces.Agent.Role.{model_for_role}
use workspaces.Agent.Tools.{defs_for_role}
use workspaces.Agent.Progress.{Progress, max_iterations, initial}
use workspaces.Api.Agents.{AgentRunRequest, Clock, role_of, task_of, with_timeout}
use workspaces.Api.Sandboxes.Records.{get-record}
use workspaces.Api.Routes.{Web, State, Answer, answered}
use workspaces.Forge.{Program}
use workspaces.Forge.Threads.{Thread, done, act, call, followed_by, within, ask_db}
use workspaces.Forge.Threads.Loop.{loop_thread}
use workspaces.Forge.Threads.Agents.{looped_thread, run_thread, known_thread, agent_thread}
use workspaces.Forge.Threads.Requests.{map_thread}
use workspaces.Forge.System.{moved, Reach, here, next}
use workspaces.Forge.System.Turns.{Reach-trans, Reach-tick}

-- A thread and its world after a number of turns.
abbrev pub turns : {W A : Type 0} → ℕ → Thread W A → W → Thread W A × W
turns zero u w = (u, w)
turns (suc n) (done a) w = (done a, w)
turns (suc n) (act f k) w = turns n (k w) (f w)

-- A record that runs or sleeps and was last active before both cutoffs goes with a tick.
reaped :
    (sb : SandboxRecord) (t u : Time)
    → IsUp sb
    → sb.last_active < t
    → sb.last_active < u
    → (after_destroy u (after_sleep t (some sb)) ≡ none)
      × (holds (idle u sleeping) (after_sleep t (some sb)) ≡ true)
unfolding running sleeping text text_eq
reaped sb t u (inl e) h k =
    rw (e, lt→ltb _ _ h, text_eq_refl running, lt→ltb _ _ k, text_eq_refl sleeping) (refl, refl)
reaped sb t u (inr e) h k = rw (e, lt→ltb _ _ h, lt→ltb _ _ k, text_eq_refl sleeping) (refl, refl)

module _ (S : Sqlite) (L : IsSqlite S) (H : IsHealthy S) {W : Type 0} (V : Web) (p : Program S W)
    (t : Clock) (late : W → Bool) (request_id : Text) (ctx : Context W)
    (req : AgentRunRequest) where
  -- The thread of the request with what is left of its loop.
  abbrev pub in_loop : Thread W (Result (Text × Progress)) → Thread (State S W) (Option Answer)
  in_loop u = map_thread some (
      map_thread answered (
        followed_by (within S u)
          (looped_thread S p.server.sandbox p.server.agent t late request_id req req.sandbox_id)))

  -- The loop before its first round.
  abbrev pub whole_loop : Thread W (Result (Text × Progress))
  whole_loop =
      loop_thread p.server.agent max_iterations 0 (with_timeout late ctx) req.sandbox_id
        (model_for_role (role_of req)) (defs_for_role p.server.agent.tools (role_of req))
        (initial (task_of request_id req) (role_of req) t.started)

  abbrev pub requested : Thread (State S W) (Option Answer)
  requested = map_thread some (
      map_thread answered
        (agent_thread S p.server.sandbox p.server.agent t late request_id ctx (ok req)))

  loop_turns :
      (n : ℕ) (u : Thread W (Result (Text × Progress)))
      (ths : List (Thread (State S W) (Option Answer))) (x : State S W)
      → let r = turns n u x.1.0 in
        Reach S V p (in_loop u ∷ ths, x) (in_loop r.0 ∷ ths, (x.0, (r.1, x.1.1)))
  loop_turns zero u ths x = here
  loop_turns (suc n) (done a) ths x = here
  loop_turns (suc n) (act f k) ths (runs, (w, db)) =
      Reach-trans S V p (next here (moved [] ths _ _ refl))
        (loop_turns n (k w) ths (runs, (f w, db)))

  -- The request finds the record of its sandbox, and goes on with the loop.
  found_sandbox :
      (ths : List (Thread (State S W) (Option Answer))) (x : State S W) (sbs : List SandboxRecord)
      {sb : SandboxRecord}
      → S.rows x.1.1 ≡ table S sbs
      → IsKeyed sbs
      → is_empty req.task ≡ false
      → is_empty req.sandbox_id ≡ false
      → find req.sandbox_id sbs ≡ some sb
      → Reach S V p (requested ∷ ths, x) (in_loop whole_loop ∷ ths, x)
  unfolding agent_thread known_thread run_thread
  found_sandbox ths (runs, (w, db)) sbs {sb} stored k some_task given there =
      let run_ctx = with_timeout late ctx in
      let known = λ (r : Result SandboxRecord). map_thread {X = State S W} some (
        map_thread answered
          (known_thread S p.server.sandbox p.server.agent t late request_id run_ctx req r)) in
      let asks : agent_thread S p.server.sandbox p.server.agent t late request_id ctx (ok req)
          ≡ call (ask_db S (Registry.get S req.sandbox_id))
              (known_thread S p.server.sandbox p.server.agent t late request_id run_ctx req) =
        rw (some_task, given, agent_thread) refl in
      subst (λ r. Reach S V p (requested ∷ ths, (runs, (w, db))) (known r ∷ ths, (runs, (w, db))))
        (get-record S L H p.server.sandbox req.sandbox_id db sbs stored k ∙ ap found there)
        (next here
          (moved [] ths _ _ (ap (λ th. map_thread some (map_thread answered th) ∷ ths) asks)))

  -- With an engine in order and a database that stores records of distinct ids: a request to run the
  -- agent in a sandbox whose record runs or sleeps, and was last active before both cutoffs of a
  -- tick, can be at any point of its loop, be it before the first round or after any number of turns,
  -- when the tick comes. The tick then asks the driver to destroy the sandbox and removes its record,
  -- and the loop goes on from where it was: neither the request nor the run has marked the sandbox
  -- as active.
  pub agent_run_reaped :
      (n : ℕ) (ths : List (Thread (State S W) (Option Answer))) (x : State S W)
      (reaper_ctx : Context W) (now : Time) (sbs : List SandboxRecord) {sb : SandboxRecord}
      → S.rows x.1.1 ≡ table S sbs
      → IsKeyed sbs
      → is_empty req.task ≡ false
      → is_empty req.sandbox_id ≡ false
      → find req.sandbox_id sbs ≡ some sb
      → IsUp sb
      → sb.last_active < cutoff now p.reaper.idle_sleep_min
      → sb.last_active < cutoff now p.reaper.idle_destroy_min
      → let r = turns n whole_loop x.1.0 in
        (y : State S W) × Reach S V p (requested ∷ ths, x) (done none ∷ in_loop r.0 ∷ ths, y)
        × ((sbs' : List SandboxRecord) × (S.rows y.1.1 ≡ table S sbs')
            × (find req.sandbox_id sbs' ≡ none))
        × (out : List SandboxRecord) × (y.1.0
            ≡ destroy_all S L H p.server.sandbox reaper_ctx out r.1)
        × (any (is_record req.sandbox_id) out ≡ true)
  agent_run_reaped n ths (runs, (w, db)) reaper_ctx now sbs {sb} stored k some_task given there up
        h₁ h₂ =
      let (u, w') = turns n whole_loop w in
      let ((sbs', stored', k', m), out, all, listed) =
        tick_sweep S L H p.server.sandbox p.reaper reaper_ctx now w' db sbs stored k in
      let (gone, held) = reaped sb _ _ up h₁ h₂ in
      (
        _,
        Reach-trans S V p (found_sandbox ths (runs, (w, db)) sbs stored k some_task given there) (
            Reach-trans S V p (loop_turns n whole_loop ths (runs, (w, db)))
              (Reach-tick S V p reaper_ctx now (in_loop u ∷ ths, (runs, (w', db))))),
        (sbs', stored', m req.sandbox_id ∙ rw there gone),
        out,
        all,
        listed req.sandbox_id ∙ rw there held,
      )
