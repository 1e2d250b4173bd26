-- ===== src/Forge/Threads/Requests/Writes.antt =====
-- The writes of every handler of the table of internal/api/routes.go.
use workspaces.Common.{Text, text, is_empty, ◌||◌, Bool-cases, Option-cases, inl, inr}
use workspaces.Common.Runes.{runes}
use workspaces.Sandbox.Driver.{Driver}
use workspaces.Sandbox.Registry.Sql.{Sqlite}
use workspaces.Sandbox.Registry.Changes.{kept}
use workspaces.Agent.Engine.{Engine}
use workspaces.Api.Proxy.{is_numeric}
use workspaces.Api.Routes.{
  Endpoint, health, not_implemented, create_sandbox, list_sandboxes, get_sandbox, exec_sandbox,
  delete_sandbox, sandbox_proxy, agent_run, webhook, Web, Request, answered, proxied,
  register_routes,
}
use workspaces.Forge.Threads.{create_thread, exec_thread, delete_thread}
use workspaces.Forge.Threads.Writes.{
  IsGood, map_thread-IsGood, create_thread-IsGood, exec_thread-IsGood, delete_thread-IsGood,
}
use workspaces.Forge.Threads.Agents.{agent_thread}
use workspaces.Forge.Threads.Agents.Writes.{agent_thread-IsGood}
use workspaces.Forge.Threads.Requests.{proxy_thread, handle_thread, serve_thread}

module _ (S : Sqlite) {W : Type 0} (D : Driver W) (E : Engine W) (V : Web) where
  proxy_thread-IsGood : (id port : Text) (q : Request W) → IsGood S (proxy_thread S D E V id port q)
  unfolding proxy_thread
  proxy_thread-IsGood id port q = elim (Bool-cases (is_empty id || is_empty port)) [
    | inl e ↦ rw (e, IsGood) tt
    | inr e ↦ elim (Bool-cases (is_numeric (runes port))) [
      | inl f ↦ rw (e, f, IsGood) (λ x. (kept, λ y. (kept, tt)))
      | inr f ↦ rw (e, f, IsGood) tt
    ]
  ]

  handle_thread-IsGood :
      (e : Endpoint) (param : Text → Text) (q : Request W)
      → IsGood S (handle_thread S D E V e param q)
  unfolding handle_thread
  handle_thread-IsGood health param q = tt
  handle_thread-IsGood (not_implemented layer week) param q = tt
  handle_thread-IsGood create_sandbox param q =
      map_thread-IsGood S answered (create_thread S D q.ctx q.now (V.decode_create q.body))
        (create_thread-IsGood S D q.ctx q.now (V.decode_create q.body))
  handle_thread-IsGood list_sandboxes param q = λ x. (kept, tt)
  handle_thread-IsGood get_sandbox param q = λ x. (kept, tt)
  handle_thread-IsGood exec_sandbox param q =
      let id = param (text "id") in
      map_thread-IsGood S answered (exec_thread S D q.ctx id q.now (V.decode_exec q.body))
        (exec_thread-IsGood S D q.ctx id q.now (V.decode_exec q.body))
  handle_thread-IsGood delete_sandbox param q =
      let id = param (text "id") in
      map_thread-IsGood S answered (delete_thread S D q.ctx id) (delete_thread-IsGood S D q.ctx id)
  handle_thread-IsGood sandbox_proxy param q =
      let id = param (text "id") in
      let port = param (text "port") in
      map_thread-IsGood S proxied (proxy_thread S D E V id port q) (proxy_thread-IsGood id port q)
  handle_thread-IsGood agent_run param q =
      map_thread-IsGood S answered
        (agent_thread S D E q.clock q.is_late (q.header (text "X-Request-Id")) q.ctx
          (V.decode_run q.body))
        (agent_thread-IsGood S D E q.clock q.is_late (q.header (text "X-Request-Id")) q.ctx
          (V.decode_run q.body))
  handle_thread-IsGood webhook param q = tt

  pub serve_thread-IsGood : (q : Request W) → IsGood S (serve_thread S D E V q)
  unfolding serve_thread
  serve_thread-IsGood q = elim (Option-cases (V.find_route register_routes q.method q.path)) [
    | inl e ↦ rw (e, IsGood) tt
    | inr ((route, param), e) ↦ rw (e, IsGood) (handle_thread-IsGood route.endpoint param q)
  ]
