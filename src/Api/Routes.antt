-- ===== src/Api/Routes.antt =====
-- The table of routes of internal/api/routes.go, and what a request does by it. chi finds the route
-- of a request, and stays a parameter, as does the decoding of JSON.
pub mod Reading
use workspaces.Common.{Text, text, List, [], ◌∷◌, Option, none, some, Result, Bool}
use workspaces.Sandbox.Driver.{Driver, Context}
use workspaces.Sandbox.Registry.Sql.{Sqlite, Time}
use workspaces.Sandbox.Registry.{ListFilter}
use workspaces.Agent.Accounting.{Accounting}
use workspaces.Agent.Engine.{Engine}
use workspaces.Github.{handle_webhook}
use workspaces.Api.Response.{Response, write_json, map_body}
use workspaces.Api.Sandboxes.{
  CreateSandboxRequest, handle_create_sandbox, handle_list_sandboxes, handle_get_sandbox,
  handle_exec_sandbox, handle_delete_sandbox,
}
use workspaces.Api.Agents.{AgentRunRequest, Clock, handle_agent_run}
use workspaces.Api.Proxy.{Proxied, handle_sandbox_proxy}

-- The handlers that routes are bound to.
pub data Endpoint : Type 0 where
  health : Endpoint
  not_implemented : (layer week : Text) → Endpoint
  create_sandbox list_sandboxes get_sandbox exec_sandbox delete_sandbox : Endpoint
  sandbox_proxy : Endpoint
  agent_run : Endpoint
  webhook : Endpoint

-- A route is bound to one method, or with `HandleFunc` to all of them.
pub record Route : Type 0 where
  pub method : Option Text
  pub pattern : Text
  pub endpoint : Endpoint

abbrev get_route : Text → Endpoint → Route
get_route pattern endpoint = record {
  method = some (text "GET");
  pattern = pattern;
  endpoint = endpoint;
}

abbrev post_route : Text → Endpoint → Route
post_route pattern endpoint = record {
  method = some (text "POST");
  pattern = pattern;
  endpoint = endpoint;
}

unfoldable pub register_routes : List Route
register_routes =
    get_route (text "/health") health
    ∷ post_route (text "/tasks") (not_implemented (text "coordinator") (text "7-10"))
    ∷ get_route (text "/tasks") (not_implemented (text "coordinator") (text "7-10"))
    ∷ get_route (text "/tasks/{id}") (not_implemented (text "coordinator") (text "7-10"))
    ∷ post_route (text "/sandboxes") create_sandbox
    ∷ get_route (text "/sandboxes") list_sandboxes
    ∷ get_route (text "/sandboxes/{id}") get_sandbox
    ∷ post_route (text "/sandboxes/{id}/exec") exec_sandbox
    ∷ record {
      method = some (text "DELETE");
      pattern = text "/sandboxes/{id}";
      endpoint = delete_sandbox;
    }
    ∷ record {
      method = none;
      pattern = text "/sandboxes/{id}/port/{port}";
      endpoint = sandbox_proxy;
    }
    ∷ record {
      method = none;
      pattern = text "/sandboxes/{id}/port/{port}/*";
      endpoint = sandbox_proxy;
    }
    ∷ post_route (text "/agent/run") agent_run
    ∷ post_route (text "/webhooks/github") webhook
    ∷ get_route (text "/tasks/{id}/logs/ws") (not_implemented (text "api") (text "10"))
    ∷ get_route (text "/notifications/ws") (not_implemented (text "api") (text "10"))
    ∷ []

unfoldable pub handle_health : Response
unfolding write_json
handle_health = write_json 200 (
    map_body (
      (text "status", text "ok")
      ∷ (text "service", text "forge")
      ∷ (text "version", text "0.0.1")
      ∷ []))

-- The handler that `notImplemented` returns.
unfoldable pub handle_not_implemented : (layer week : Text) → Response
unfolding write_json
handle_not_implemented layer week = write_json 501 (
    map_body
      ((text "error", text "not implemented") ∷ (text "layer", layer) ∷ (text "week", week) ∷ []))

-- What chi and JSON decoding do with a request, and `url.Parse`.
pub record Web : Type 0 where
  -- the first route for a method and a path, with the values of `chi.URLParam`
  pub find_route : List Route → (method path : Text) → Option (Route × (Text → Text))
  pub decode_create : Text → Result CreateSandboxRequest
  -- the field `cmd`
  pub decode_exec : Text → Result (List Text)
  pub decode_run : Text → Result AgentRunRequest
  pub parse_url : Text → Result (Unit {0})

-- A request with the parts that the handlers read; the times are those of `time.Now` on the way.
pub record Request (W : Type 0) : Type 0 where
  pub method : Text
  pub path : Text
  pub raw_path : Text
  pub query : Text → Text
  pub header : Text → Text
  pub body : Text
  pub ctx : Context W
  pub now : Time
  pub clock : Clock
  -- the ten minutes of an agent's run are over
  pub is_late : W → Bool

pub data Answer : Type 0 where
  answered : Response → Answer
  proxied : Proxied → Answer
  -- chi's own answer to a request that no route fits
  unrouted : Answer

-- The state of the server: the engine's accounting, the world and the database.
abbrev pub State : Sqlite → Type 0 → Type 0
State S W = Accounting × (W × S.Db)

-- The filter that the query of a list request names.
unfoldable pub list_filter : (Text → Text) → ListFilter
list_filter query = record {
  status = query (text "status");
  project_id = query (text "project_id");
}

module _ (S : Sqlite) {W : Type 0} (D : Driver W) (E : Engine W) (V : Web) where
  -- A handler on the request, with the values of its path's parameters.
  unfoldable pub handle : Endpoint → (Text → Text) → Request W → State S W → Answer × State S W
  unfolding handle_health handle_not_implemented list_filter
  handle health param q s = (answered handle_health, s)
  handle (not_implemented layer week) param q s = (answered (handle_not_implemented layer week), s)
  handle create_sandbox param q (runs, s) =
      let r = handle_create_sandbox S D q.ctx q.now (V.decode_create q.body) s in
      (answered r.0, (runs, r.1))
  handle list_sandboxes param q s =
      (answered (handle_list_sandboxes S D (list_filter q.query) s.1.1), s)
  handle get_sandbox param q s = (answered (handle_get_sandbox S D (param (text "id")) s.1.1), s)
  handle exec_sandbox param q (runs, s) =
      let r = handle_exec_sandbox S D q.ctx (param (text "id")) q.now (V.decode_exec q.body) s in
      (answered r.0, (runs, r.1))
  handle delete_sandbox param q (runs, s) =
      let r = handle_delete_sandbox S D q.ctx (param (text "id")) s in (answered r.0, (runs, r.1))
  handle sandbox_proxy param q (runs, (w, db)) =
      let r =
        handle_sandbox_proxy S D V.parse_url q.ctx (param (text "id")) (param (text "port")) q.path
          q.raw_path (w, db) in
      (proxied r.0, (runs, (r.1, db)))
  handle agent_run param q s =
      let r =
        handle_agent_run S D E q.clock q.is_late q.ctx (q.header (text "X-Request-Id"))
          (V.decode_run q.body) s in
      (answered r.0, r.1)
  handle webhook param q s = (answered (handle_webhook (q.header (text "X-GitHub-Event"))), s)

  -- The router with all routes registered.
  unfoldable pub serve : Request W → State S W → Answer × State S W
  unfolding handle register_routes
  serve q s = elim (V.find_route register_routes q.method q.path) [
    | none ↦ (unrouted, s)
    | some (route, param) ↦ handle route.endpoint param q s
  ]
