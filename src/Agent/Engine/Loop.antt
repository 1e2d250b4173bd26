-- ===== src/Agent/Engine/Loop.antt =====
-- What the ReAct loop of internal/agent/agent.go leaves in its variables.
use workspaces.Common.{
  ℕ, zero, suc, ◌+◌, ◌≤◌, ◌<◌, Text, List, [], ◌∷◌, ◌++◌, ◌≡◌, refl, ◌∙◌, ap, sym, Option, none,
  some, Result, ok, err, Error, wrapped, Step, arith, length, length-append, inl, inr, ◌⊎◌,
}
use workspaces.Common.Int.{ℤ, add64, add64_assoc, add64_comm}
use workspaces.Sandbox.Driver.{Context}
use workspaces.Agent.Ollama.{ToolCall, ChatMessage, ChatRequest, ChatResponse, ToolDef}
use workspaces.Agent.Engine.{
  Engine, request, round, after_chat, after_reply, in_round, call_tools, react_loop,
}
use workspaces.Agent.Progress.{Progress, observe}

-- The conversation holds the two messages of its start, a reply for each round and an answer for
-- each tool call; the total of the tokens is the sum of the two counts, as the machine adds.
pub record IsSound (p : Progress) : Type 0 where
  pub counted : length p.messages ≡ 2 + p.stats.iterations + p.stats.tool_calls
  pub summed : p.stats.total_tokens ≡ add64 p.stats.prompt_tokens p.stats.completion_tokens

add64_swap : (a b c d : ℤ) → add64 (add64 a b) (add64 c d) ≡ add64 (add64 a c) (add64 b d)
add64_swap a b c d =
    add64_assoc a b (add64 c d)
    ∙ ap (add64 a)
        (sym (add64_assoc b c d) ∙ ap (λ (t : ℤ). add64 t d) (add64_comm b c) ∙ add64_assoc c b d)
    ∙ sym (add64_assoc a c (add64 b d))

observe-IsSound :
    (resp : ChatResponse) (i : ℕ) (p : Progress)
    → IsSound p
    → p.stats.iterations ≡ i
    → IsSound (observe resp (record p { stats = record p.stats { iterations = i + 1 } }))
unfolding observe
observe-IsSound resp i p s e = record {
  counted = omega (arith, length-append {0} p.messages (resp.reply ∷ []), s.counted);
  summed =
      ap (λ (t : ℤ). add64 t (add64 resp.prompt_eval_count resp.eval_count)) s.summed
      ∙ add64_swap _ _ _ _;
}

module _ {W : Type 0} (E : Engine W) where
  call_tools-IsSound :
      (ctx : Context W) (id : Text) (tcs : List ToolCall) (p : Progress) (w : W)
      → IsSound p
      → IsSound (call_tools E ctx id tcs p w).0
        × ((call_tools E ctx id tcs p w).0.stats.iterations ≡ p.stats.iterations)
  unfolding call_tools
  call_tools-IsSound ctx id [] p w s = (s, refl)
  call_tools-IsSound ctx id (tc ∷ tcs) p w s = call_tools-IsSound ctx id tcs _ _ (record {
    counted = omega (arith, length-append {0} p.messages (_ ∷ []), s.counted);
    summed = s.summed;
  })

  -- The variables at the end of the loop that began round `i` with some rounds left, and the
  -- answer: it is the last message's content, which calls no tool, or there is none and all rounds
  -- are used up.
  abbrev pub Ends : ℕ → ℕ → Text × Progress → Type 0
  Ends left i (answer, q) =
      IsSound q
      × (q.stats.iterations ≤ i + left)
      × (((before : List ChatMessage) × (m : ChatMessage) × (q.messages ≡ before ++ m ∷ [])
            × (m.tool_calls ≡ [])
            × (m.content ≡ answer)
            × (i < q.stats.iterations))
          ⊎ ((answer ≡ []) × (q.stats.iterations ≡ i + left)))

  -- An error of the loop has a text in front of what the context or the chat reported.
  abbrev pub Failed : Context W → Error → Type 0
  Failed ctx e =
      (s : Text) × (d : Error) × (e ≡ wrapped s d)
      × (((v : W) × (ctx v ≡ some d))
          ⊎ ((v : W) × (req : ChatRequest) × ((E.chat ctx req v).0 ≡ err d)))

  abbrev pub Post : Context W → ℕ → ℕ → Result (Text × Progress) → Type 0
  Post ctx left i (ok out) = Ends left i out
  Post ctx left i (err e) = Failed ctx e

  module _ (ctx : Context W) (id : Text) (left i : ℕ)
      (continue : Progress → Step W (Text × Progress))
      (next : (p : Progress) (w : W)
        → IsSound p
        → p.stats.iterations ≡ i + 1
        → Post ctx left (i + 1) (continue p w).0) where
    after_reply-Post :
        (resp : ChatResponse) (tcs : List ToolCall) (p : Progress) (w : W)
        → resp.reply.tool_calls ≡ tcs
        → IsSound (observe resp (in_round E i p))
        → Post ctx
            (suc left)
            i
            (after_reply E continue ctx id resp tcs (observe resp (in_round E i p)) w).0
    unfolding after_reply observe
    after_reply-Post resp [] p w e s =
        (s, omega arith, inl (p.messages, resp.reply, refl, e, refl, omega arith))
    after_reply-Post resp (tc ∷ tcs) p w e s =
        let (s', k) = call_tools-IsSound ctx id (tc ∷ tcs) (observe resp (in_round E i p)) w s in
        let r = call_tools E ctx id (tc ∷ tcs) (observe resp (in_round E i p)) w in
        later (continue r.0 r.1).0 (next r.0 r.1 s' k)
      where
        later : (r : Result (Text × Progress)) → Post ctx left (i + 1) r → Post ctx (suc left) i r
        later (ok out) (sound, h, inl (b, m, e₁, e₂, e₃, l)) =
            (sound, omega arith, inl (b, m, e₁, e₂, e₃, omega arith))
        later (ok out) (sound, h, inr (e₁, e₂)) = (sound, omega arith, inr (e₁, omega arith))
        later (err x) h = h

    round-Post :
        (model : Text) (defs : List ToolDef) (p : Progress) (o : Option Error) (w : W)
        → ctx w ≡ o
        → IsSound p
        → p.stats.iterations ≡ i
        → Post ctx (suc left) i (round E continue i ctx id model defs p o w).0
    unfolding round after_chat
    round-Post model defs p (some x) w c s e = (_, x, refl, inl (w, c))
    round-Post model defs p none w c s e =
        let r = E.chat ctx (request model defs p.messages) w in go r.0 r.1 refl
      where
        go :
            (r : Result ChatResponse) (w' : W)
            → (E.chat ctx (request model defs p.messages) w).0 ≡ r
            → Post ctx (suc left) i (after_chat E continue i ctx id (in_round E i p) r w').0
        go (err x) w' d = (_, x, refl, inr (w, request model defs p.messages, d))
        go (ok resp) w' d =
            after_reply-Post resp resp.reply.tool_calls p w' refl (observe-IsSound resp i p s e)

  pub react_loop-Post :
      (left i : ℕ) (ctx : Context W) (id model : Text) (defs : List ToolDef) (p : Progress) (w : W)
      → IsSound p
      → p.stats.iterations ≡ i
      → Post ctx left i (react_loop E left i ctx id model defs p w).0
  unfolding react_loop
  react_loop-Post zero i ctx id model defs p w s e = (s, omega arith, inr (refl, omega arith))
  react_loop-Post (suc left) i ctx id model defs p w s e =
      round-Post ctx id left i (react_loop E left (i + 1) ctx id model defs)
        (λ p' w'. react_loop-Post left (i + 1) ctx id model defs p' w') model defs p (ctx w) w refl
        s e
