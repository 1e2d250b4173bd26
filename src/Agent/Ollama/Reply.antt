-- ===== src/Agent/Ollama/Reply.antt =====
-- Where a reply of the client in internal/agent/ollama.go comes from.
use workspaces.Common.{
  ℕ, Text, text, ◌++◌, ok, ◌≡◌, ◌∙◌, ap, ◌==◌, false, arith, Result-cases, Bool-cases, inl, inr,
}
use workspaces.Sandbox.Driver.{Context}
use workspaces.Agent.Ollama.{ChatRequest, ChatResponse, Http, chat, read_response}

module _ {W : Type 0} (H : Http W) where
  read_response_ok :
      (code : ℕ) (reply : Text) (w : W) {resp : ChatResponse}
      → (read_response H (code, reply) w).0 ≡ ok resp
      → (code ≡ 200) × (H.decode reply ≡ ok resp)
  unfolding read_response
  read_response_ok code reply w {resp} h = elim (Bool-cases (code == 200)) [
    | inl e ↦ elim (Result-cases (H.decode reply)) [
      | inl (a, d) ↦ (ground arith, ground (arith, h, e, d))
      | inr (x, d) ↦ ground (arith, h, e, d)
    ]
    | inr e ↦ ground (arith, h, e)
  ]

  -- A chat that returns a reply has posted the request, with streaming off, to `/api/chat` under the
  -- base URL; the status was 200, and the reply is what the body decodes to.
  pub chat_ok :
      (base_url : Text) (ctx : Context W) (req : ChatRequest) (w : W) {resp : ChatResponse}
      → (chat H base_url ctx req w).0 ≡ ok resp
      → (body reply : Text) × (H.marshal (record req { stream = false }) ≡ ok body)
        × ((H.post ctx (base_url ++ text "/api/chat") body w).0 ≡ ok (200, reply))
        × (H.decode reply ≡ ok resp)
  unfolding chat
  chat_ok base_url ctx req w {resp} h =
      elim (Result-cases (H.marshal (record req { stream = false }))) [
        | inr (x, m) ↦ ground (arith, h, m)
        | inl (body, m) ↦ elim (Result-cases (H.check_url (base_url ++ text "/api/chat"))) [
          | inr (x, u) ↦ ground (arith, h, m, u)
          | inl (_, u) ↦ elim (Result-cases (H.post ctx (base_url ++ text "/api/chat") body w).0) [
            | inr (x, p) ↦ ground (arith, h, m, u, p)
            | inl ((code, reply), p) ↦
                let w' = (H.post ctx (base_url ++ text "/api/chat") body w).1 in
                let answered : (read_response H (code, reply) w').0 ≡ ok resp =
                  ground (arith, h, m, u, p) in
                let (c, d) = read_response_ok code reply w' answered in
                (body, reply, m, p ∙ ap (λ n. ok (n, reply)) c, d)
          ]
        ]
      ]
