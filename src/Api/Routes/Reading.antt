-- ===== src/Api/Routes/Reading.antt =====
-- Requests that only read, by the table of routes of internal/api/routes.go.
use workspaces.Common.{
  Text, text, List, ◌≡◌, refl, none, some, ◌⊎◌, inl, inr, All, Option-cases, arith,
}
use workspaces.Sandbox.Driver.{Driver}
use workspaces.Sandbox.Registry.Sql.{Sqlite}
use workspaces.Agent.Engine.{Engine}
use workspaces.Api.Routes.{
  Endpoint, health, not_implemented, create_sandbox, list_sandboxes, get_sandbox, exec_sandbox,
  delete_sandbox, sandbox_proxy, agent_run, webhook, Route, Web, Request, State, handle, serve,
  register_routes,
}

-- A route takes a method.
abbrev pub Takes : Text → Route → Type 0
Takes method route = (route.method ≡ none) ⊎ (route.method ≡ some method)

-- What chi promises: the route that it finds is one of the table, and takes the method.
pub record IsRouter (V : Web) : Type 1 where
  pub among :
      (routes : List Route) (method path : Text) {route : Route} {param : Text → Text}
      → V.find_route routes method path ≡ some (route, param)
      → (P : Route → Type 0) → All P routes
      → P route
  pub takes :
      (routes : List Route) (method path : Text) {route : Route} {param : Text → Text}
      → V.find_route routes method path ≡ some (route, param)
      → Takes method route

-- An endpoint whose handler writes to neither the database nor the accounting.
abbrev Reads : Endpoint → Type 0
Reads create_sandbox = ⊥
Reads exec_sandbox = ⊥
Reads delete_sandbox = ⊥
Reads agent_run = ⊥
Reads _ = Unit

get_routes-Reads : All (λ r. Takes (text "GET") r → Reads r.endpoint) register_routes
unfolding register_routes text
get_routes-Reads = (
  λ h. tt,
  (
    λ h. tt,
    (
      λ h. tt,
      (
        λ h. tt,
        (
          λ h. ground arith,
          (
            λ h. tt,
            (
              λ h. tt,
              (
                λ h. ground arith,
                (
                  λ h. ground arith,
                  (λ h. tt, (λ h. tt, (λ h. ground arith, (λ h. tt, (λ h. tt, (λ h. tt, tt)))))),
                ),
              ),
            ),
          ),
        ),
      ),
    ),
  ),
)

module _ (S : Sqlite) {W : Type 0} (D : Driver W) (E : Engine W) (V : Web) where
  handle-Reads :
      (e : Endpoint) (param : Text → Text) (q : Request W) (s : State S W)
      → Reads e
      → ((handle S D E V e param q s).1.0 ≡ s.0) × ((handle S D E V e param q s).1.1.1 ≡ s.1.1)
  unfolding handle
  handle-Reads create_sandbox param q s r = elim r [ ]
  handle-Reads exec_sandbox param q s r = elim r [ ]
  handle-Reads delete_sandbox param q s r = elim r [ ]
  handle-Reads agent_run param q s r = elim r [ ]
  handle-Reads health param q s r = (refl, refl)
  handle-Reads (not_implemented layer week) param q s r = (refl, refl)
  handle-Reads list_sandboxes param q s r = (refl, refl)
  handle-Reads get_sandbox param q s r = (refl, refl)
  handle-Reads sandbox_proxy param q s r = (refl, refl)
  handle-Reads webhook param q s r = (refl, refl)

  -- If chi finds only routes of the table that take the method, then a GET request, whatever its
  -- path, changes neither the database nor the accounting of the agent's runs.
  pub serve_get_keeps :
      IsRouter V
      → (q : Request W) (s : State S W) → q.method ≡ text "GET"
      → ((serve S D E V q s).1.0 ≡ s.0) × ((serve S D E V q s).1.1.1 ≡ s.1.1)
  unfolding serve
  serve_get_keeps R q s is_get =
      elim (Option-cases (V.find_route register_routes q.method q.path)) [
        | inl e ↦ rw (e, serve) (refl, refl)
        | inr ((route, param), e) ↦
            let reads =
              R.among register_routes q.method q.path e
                (λ r. Takes (text "GET") r → Reads r.endpoint) get_routes-Reads in
            let taken = R.takes register_routes q.method q.path e in
            rw (e, serve) (handle-Reads route.endpoint param q s (reads (rw is_get at taken)))
      ]
