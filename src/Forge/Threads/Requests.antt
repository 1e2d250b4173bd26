-- ===== src/Forge/Threads/Requests.antt =====
-- Every handler of the table of internal/api/routes.go as a thread.
pub mod Alone
pub mod Writes
use workspaces.Common.{Text, text, is_empty, ◌||◌, ◌++◌, Option, none, some, if◌then◌else◌}
use workspaces.Common.Runes.{runes}
use workspaces.Sandbox.Driver.{Driver}
use workspaces.Sandbox.Registry.Sql.{Sqlite}
use workspaces.Sandbox.Registry
use workspaces.Agent.Engine.{Engine}
use workspaces.Github.{handle_webhook}
use workspaces.Api.Response.{Response, write_error}
use workspaces.Api.Sandboxes.{handle_list_sandboxes, handle_get_sandbox}
use workspaces.Api.Proxy.{Proxied, refused, is_numeric, after_lookup}
use workspaces.Api.Routes.{
  Endpoint, health, not_implemented, create_sandbox, list_sandboxes, get_sandbox, exec_sandbox,
  delete_sandbox, sandbox_proxy, agent_run, webhook, Web, Request, State, Answer, answered, proxied,
  unrouted, list_filter, handle_health, handle_not_implemented, register_routes,
}
use workspaces.Forge.Threads.{
  Thread, done, act, call, on_world, ask_db, create_thread, exec_thread, delete_thread,
}
use workspaces.Forge.Threads.Agents.{agent_thread}

-- A thread whose result is put into another form.
abbrev pub map_thread : {X A B : Type 0} → (A → B) → Thread X A → Thread X B
map_thread g (done a) = done (g a)
map_thread g (act f k) = act f (λ x. map_thread g (k x))

module _ (S : Sqlite) {W : Type 0} (D : Driver W) (E : Engine W) (V : Web) where
  -- `handleSandboxProxy`
  proxy_thread : (id port : Text) → Request W → Thread (State S W) Proxied
  proxy_thread id port q =
      if is_empty id || is_empty port
      then done (refused (write_error 400 (text "sandbox id and port are required")))
      else if is_numeric (runes port)
      then call (ask_db S (Registry.get S id)) (λ found.
        call (on_world S (after_lookup S D V.parse_url q.ctx id port q.path q.raw_path found)) done)
      else done (refused (write_error 400 (text "port must be numeric")))

  unfoldable pub handle_thread : Endpoint → (Text → Text) → Request W → Thread (State S W) Answer
  unfolding proxy_thread
  handle_thread health param q = done (answered handle_health)
  handle_thread (not_implemented layer week) param q =
      done (answered (handle_not_implemented layer week))
  handle_thread create_sandbox param q =
      map_thread answered (create_thread S D q.ctx q.now (V.decode_create q.body))
  handle_thread list_sandboxes param q =
      call (ask_db S (handle_list_sandboxes S D (list_filter q.query))) (λ r. done (answered r))
  handle_thread get_sandbox param q =
      call (ask_db S (handle_get_sandbox S D (param (text "id")))) (λ r. done (answered r))
  handle_thread exec_sandbox param q =
      map_thread answered (exec_thread S D q.ctx (param (text "id")) q.now (V.decode_exec q.body))
  handle_thread delete_sandbox param q =
      map_thread answered (delete_thread S D q.ctx (param (text "id")))
  handle_thread sandbox_proxy param q =
      map_thread proxied (proxy_thread (param (text "id")) (param (text "port")) q)
  handle_thread agent_run param q = map_thread answered (
      agent_thread S D E q.clock q.is_late (q.header (text "X-Request-Id")) q.ctx
        (V.decode_run q.body))
  handle_thread webhook param q =
      done (answered (handle_webhook (q.header (text "X-GitHub-Event"))))

  unfoldable pub serve_thread : Request W → Thread (State S W) Answer
  unfolding handle_thread
  serve_thread q = elim (V.find_route register_routes q.method q.path) [
    | none ↦ done unrouted
    | some (route, param) ↦ handle_thread route.endpoint param q
  ]
