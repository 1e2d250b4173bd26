-- ===== src/Agent/Engine/Runs.antt =====
-- What a run of the agent returns and records.
use mathlib.Core.Path.{subst}
use workspaces.Common.{
  ◌≤◌, Text, is_empty, List, [], ◌∷◌, ◌++◌, true, ◌&&◌, ◌≡◌, refl, Result, ok, err, Error, arith,
  leb, ◌⊎◌, inl, inr, Bool-cases,
}
use workspaces.Common.Int.{sub_ℕ, add64}
use workspaces.Types.{Task}
use workspaces.Sandbox.Driver.{Context}
use workspaces.Sandbox.Registry.Sql.{Time}
use workspaces.Agent.Role.{Role, model_for_role}
use workspaces.Agent.Ollama.{ChatMessage}
use workspaces.Agent.Tools.{defs_for_role}
use workspaces.Agent.Accounting.{RunStats, Accounting, record_run}
use workspaces.Agent.Engine.{Engine, after_loop, react_loop, run}
use workspaces.Agent.Progress.{Progress, initial, finish, no_answer, max_iterations}
use workspaces.Agent.Engine.Loop.{IsSound, Ends, Post, Failed, react_loop-Post}

-- The stats that are recorded for the variables at the end of the loop.
abbrev pub stamped : Time → Progress → RunStats
stamped finished p = record p.stats {
  finished_at = finished;
  wall_time = sub_ℕ finished p.stats.started_at;
}

-- The last message is a reply that calls no tool.
abbrev pub IsReply : Text → Progress → Type 0
IsReply answer q =
    (before : List ChatMessage) × (m : ChatMessage) × (q.messages ≡ before ++ m ∷ [])
    × (m.tool_calls ≡ [])
    × (m.content ≡ answer)

-- A run that ended well, from what its loop returned: one record is added, of the conversation that
-- the loop left, sound and of one to fifty rounds; the answer is a reply in it that calls no tool, or
-- says that the rounds were used up, after all fifty.
abbrev pub Recorded : Result (Text × Progress) → Time → Accounting → Text → Accounting → Type 0
Recorded loop finished runs answer runs' =
    (a : Text) × (q : Progress) × (loop ≡ ok (a, q))
    × (runs' ≡ runs ++ stamped finished q ∷ [])
    × IsSound q
    × (1 ≤ q.stats.iterations)
    × (q.stats.iterations ≤ max_iterations)
    × (IsReply answer q ⊎ ((answer ≡ no_answer) × (q.stats.iterations ≡ max_iterations)))

module _ {W : Type 0} (E : Engine W) (started finished : Time) (ctx : Context W) (task : Task)
    (role : Role) (id : Text) where
  -- What the ReAct loop of the run returns.
  abbrev pub looped : W → Result (Text × Progress)
  looped w =
      (react_loop E max_iterations 0 ctx id (model_for_role role) (defs_for_role E.tools role)
        (initial task role started) w).0

  initial-IsSound : IsSound (initial task role started)
  unfolding initial add64
  initial-IsSound = record { counted = refl; summed = refl }

  initial_iterations : (initial task role started).stats.iterations ≡ 0
  unfolding initial
  initial_iterations = refl

  finish-Recorded :
      (loop : Result (Text × Progress)) (runs : Accounting) (out : Text × Progress)
      → loop ≡ ok out
      → Ends E max_iterations 0 out
      → Recorded loop finished runs (finish finished out runs).0 (finish finished out runs).1
  unfolding finish record_run
  finish-Recorded loop runs (answer, q) back (sound, most, inl (b, m, e₁, e₂, e₃, l)) =
      elim (Bool-cases (is_empty answer && leb max_iterations q.stats.iterations)) [
        | inl stop ↦
            let all : q.stats.iterations ≡ max_iterations = ground arith in
            rw stop (answer, q, back, refl, sound, omega arith, omega arith, inr (refl, all))
        | inr goes ↦
            rw goes (answer, q, back, refl, sound, omega arith, omega arith, inl (b, m, e₁, e₂, e₃))
      ]
  finish-Recorded loop runs (answer, q) back (sound, most, inr (e₁, e₂)) =
      let stop : (is_empty answer && leb max_iterations q.stats.iterations) ≡ true =
        rw e₁ (ground arith) in
      rw stop (answer, q, back, refl, sound, omega arith, omega arith, inr (refl, e₂))

  abbrev Outcome : Result (Text × Progress) → Accounting → Result Text → Accounting → Type 0
  Outcome loop runs (ok answer) runs' = Recorded loop finished runs answer runs'
  Outcome loop runs (err e) runs' = (runs' ≡ runs) × Failed E ctx e

  after_loop-Outcome :
      (loop r : Result (Text × Progress)) (runs : Accounting) (w : W)
      → loop ≡ r
      → Post E ctx max_iterations 0 r
      → Outcome loop runs (after_loop E finished r runs w).0 (after_loop E finished r runs w).1.0
  unfolding after_loop
  after_loop-Outcome loop (err e) runs w back h = (refl, h)
  after_loop-Outcome loop (ok out) runs w back h = finish-Recorded loop runs out back h

  run-Outcome :
      (runs : Accounting) (w : W)
      → Outcome
          (looped w)
          runs
          (run E started finished ctx task role id (runs, w)).0
          (run E started finished ctx task role id (runs, w)).1.0
  unfolding run
  run-Outcome runs w = after_loop-Outcome (looped w) _ runs _ refl (
      react_loop-Post E max_iterations 0 ctx id (model_for_role role) (defs_for_role E.tools role)
        (initial task role started) w initial-IsSound initial_iterations)

  -- A run that returns an answer has added one record to the accounting, of the conversation that its
  -- loop left, which has one to fifty rounds: its messages are two, one for each round and one for
  -- each tool call, and its total of tokens is the sum of the two counts. The answer is the content
  -- of its last message, which calls no tool, or says that the rounds were used up, after all fifty.
  pub run-Recorded :
      (runs : Accounting) (w : W) {answer : Text}
      → (run E started finished ctx task role id (runs, w)).0 ≡ ok answer
      → Recorded
          (looped w)
          finished
          runs
          answer
          (run E started finished ctx task role id (runs, w)).1.0
  run-Recorded runs w {answer} h =
      subst (λ r. Outcome (looped w) runs r (run E started finished ctx task role id (runs, w)).1.0)
        h (run-Outcome runs w)

  -- A run that returns an error has recorded nothing, and the error has a text in front of what
  -- the context or the chat reported.
  pub run-Failed :
      (runs : Accounting) (w : W) {e : Error}
      → (run E started finished ctx task role id (runs, w)).0 ≡ err e
      → ((run E started finished ctx task role id (runs, w)).1.0 ≡ runs) × Failed E ctx e
  run-Failed runs w {e} h =
      subst (λ r. Outcome (looped w) runs r (run E started finished ctx task role id (runs, w)).1.0)
        h (run-Outcome runs w)
