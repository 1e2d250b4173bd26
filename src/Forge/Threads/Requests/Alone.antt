-- ===== src/Forge/Threads/Requests/Alone.antt =====
-- A request of internal/api/routes.go that is handled with nobody in between.
use workspaces.Common.{
  Text, text, is_empty, ◌||◌, ◌≡◌, refl, ◌∙◌, ap, [], Option-cases, Bool-cases, inl, inr,
}
use workspaces.Common.Runes.{runes}
use workspaces.Sandbox.Driver.{Driver}
use workspaces.Sandbox.Registry.Sql.{Sqlite}
use workspaces.Agent.Engine.{Engine}
use workspaces.Api.Proxy.{is_numeric, handle_sandbox_proxy}
use workspaces.Api.Routes.{
  Endpoint, health, not_implemented, create_sandbox, list_sandboxes, get_sandbox, exec_sandbox,
  delete_sandbox, sandbox_proxy, agent_run, webhook, Web, Request, State, Answer, answered, proxied,
  register_routes, handle, serve,
}
use workspaces.Forge.Threads.{Thread, done, act, alone, create_thread, exec_thread, delete_thread}
use workspaces.Forge.Threads.Agents.{agent_thread}
use workspaces.Forge.Threads.Alone.{create_thread-alone, exec_thread-alone, delete_thread-alone}
use workspaces.Forge.Threads.Agents.Alone.{agent_thread-alone}
use workspaces.Forge.Threads.Requests.{map_thread, proxy_thread, handle_thread, serve_thread}

pub map_thread-alone :
    {X A B : Type 0} (g : A → B) (t : Thread X A) (x : X)
    → alone (map_thread g t) x ≡ (g (alone t x).0, (alone t x).1)
unfolding alone
map_thread-alone g (done a) x = refl
map_thread-alone g (act f k) x = map_thread-alone g (k x) (f x)

module _ (S : Sqlite) {W : Type 0} (D : Driver W) (E : Engine W) (V : Web) where
  abbrev tagged : {A : Type 0} → (A → Answer) → A × State S W → Answer × State S W
  tagged g r = (g r.0, r.1)

  proxy_thread-alone :
      (id port : Text) (q : Request W) (s : State S W)
      → alone (proxy_thread S D E V id port q) s ≡ (
          let r = handle_sandbox_proxy S D V.parse_url q.ctx id port q.path q.raw_path s.1 in
          (r.0, (s.0, (r.1, s.1.1))))
  unfolding alone proxy_thread handle_sandbox_proxy
  proxy_thread-alone id port q (runs, (w, db)) = elim (Bool-cases (is_empty id || is_empty port)) [
    | inl e ↦ rw e refl
    | inr e ↦ elim (Bool-cases (is_numeric (runes port))) [
      | inl f ↦ rw (e, f) refl
      | inr f ↦ rw (e, f) refl
    ]
  ]

  handle_thread-alone :
      (e : Endpoint) (param : Text → Text) (q : Request W) (s : State S W)
      → q.clock.others ≡ []
      → alone (handle_thread S D E V e param q) s ≡ handle S D E V e param q s
  unfolding alone handle_thread handle
  handle_thread-alone health param q s quiet = refl
  handle_thread-alone (not_implemented layer week) param q s quiet = refl
  handle_thread-alone create_sandbox param q (runs, (w, db)) quiet =
      map_thread-alone answered (create_thread S D q.ctx q.now (V.decode_create q.body))
        (runs, (w, db))
      ∙ ap (tagged answered)
          (create_thread-alone S D runs q.ctx q.now (V.decode_create q.body) w db)
  handle_thread-alone list_sandboxes param q s quiet = refl
  handle_thread-alone get_sandbox param q s quiet = refl
  handle_thread-alone exec_sandbox param q (runs, (w, db)) quiet =
      map_thread-alone answered
        (exec_thread S D q.ctx (param (text "id")) q.now (V.decode_exec q.body)) (runs, (w, db))
      ∙ ap (tagged answered)
          (exec_thread-alone S D runs q.ctx (param (text "id")) q.now (V.decode_exec q.body) w db)
  handle_thread-alone delete_sandbox param q (runs, (w, db)) quiet =
      map_thread-alone answered (delete_thread S D q.ctx (param (text "id"))) (runs, (w, db))
      ∙ ap (tagged answered) (delete_thread-alone S D runs q.ctx (param (text "id")) w db)
  handle_thread-alone sandbox_proxy param q s quiet =
      map_thread-alone proxied (proxy_thread S D E V (param (text "id")) (param (text "port")) q) s
      ∙ ap (tagged proxied) (proxy_thread-alone (param (text "id")) (param (text "port")) q s)
  handle_thread-alone agent_run param q s quiet =
      map_thread-alone answered
        (agent_thread S D E q.clock q.is_late (q.header (text "X-Request-Id")) q.ctx
          (V.decode_run q.body))
        s
      ∙ ap (tagged answered) (
          agent_thread-alone S D E q.clock q.is_late (q.header (text "X-Request-Id")) quiet q.ctx
            (V.decode_run q.body) s)
  handle_thread-alone webhook param q s quiet = refl

  -- A request that is handled as a thread with nobody in between, with no run of another request
  -- recorded meanwhile, is answered as by the handlers in one go and leaves the same state.
  pub serve_thread-alone :
      (q : Request W) (s : State S W)
      → q.clock.others ≡ []
      → alone (serve_thread S D E V q) s ≡ serve S D E V q s
  unfolding alone serve_thread serve
  serve_thread-alone q s quiet =
      elim (Option-cases (V.find_route register_routes q.method q.path)) [
        | inl e ↦ rw (e, serve, serve_thread) refl
        | inr ((route, param), e) ↦
            rw (e, serve, serve_thread) (handle_thread-alone route.endpoint param q s quiet)
      ]
