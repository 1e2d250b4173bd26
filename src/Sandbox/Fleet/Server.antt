-- ===== src/Sandbox/Fleet/Server.antt =====
-- The server and the reaper, one request and one tick after the other, and the sandboxes that there
-- are.
use workspaces.Common.{
  Text, text, is_empty, List, [], ◌∷◌, ◌≡◌, refl, some, Result, ok, err, Bool-cases, Option-cases,
  inl, inr, ◌||◌, All,
}
use workspaces.Sandbox.Driver.{Driver, Context}
use workspaces.Sandbox.Fleet.{IsFleet}
use workspaces.Sandbox.Fleet.Records.{IsBacked, moved-IsBacked}
use workspaces.Sandbox.Fleet.Sweep.{tick-IsBacked}
use workspaces.Sandbox.Fleet.Requests.{
  handle_create_sandbox-IsBacked, handle_exec_sandbox-IsBacked, handle_delete_sandbox-IsBacked,
}
use workspaces.Sandbox.Fleet.Agents.{handle_agent_run-IsBacked}
use workspaces.Sandbox.Registry.Sql.{Sqlite, IsSqlite, IsHealthy, Time}
use workspaces.Sandbox.Registry.{SandboxRecord}
use workspaces.Sandbox.Registry
use workspaces.Sandbox.Reaper.{Reaper, tick}
use workspaces.Agent.Engine.{Engine}
use workspaces.Agent.Engine.Frame.{IsCalm}
use workspaces.Common.Runes.{runes}
use workspaces.Api.Proxy.{after_lookup, handle_sandbox_proxy, is_numeric}
use workspaces.Api.Routes.{
  Endpoint, health, not_implemented, create_sandbox, list_sandboxes, get_sandbox, exec_sandbox,
  delete_sandbox, sandbox_proxy, agent_run, webhook, Route, Web, Request, State, handle, serve,
  register_routes,
}

-- What happens to the program: a request, or a tick of the reaper.
pub data Event (W : Type 0) : Type 0 where
  request : Request W → Event W
  tick_at : Context W → Time → Event W

module _ (S : Sqlite) {W : Type 0} (D : Driver W) (E : Engine W) (V : Web) (r : Reaper) where
  abbrev pub step : Event W → State S W → State S W
  step (request q) s = (serve S D E V q s).1
  step (tick_at ctx now) (runs, s) = (runs, tick S D r ctx now s)

  abbrev pub steps : List (Event W) → State S W → State S W
  steps [] s = s
  steps (e ∷ es) s = steps es (step e s)

module _ {W : Type 0} (IsName : Text → Type 0) (V : Web) where
  -- A request to delete a sandbox names one that the driver could have made.
  abbrev pub IsProper : Event W → Type 0
  IsProper (request q) =
      (route : Route) (param : Text → Text)
      → V.find_route register_routes q.method q.path ≡ some (route, param)
      → route.endpoint ≡ delete_sandbox
      → IsName (param (text "id"))
  IsProper (tick_at ctx now) = Unit

module _ {W : Type 0} (D : Driver W) (IsName : Text → Type 0) (Lives : Text → W → Type 0)
    (F : IsFleet D IsName Lives) (S : Sqlite) (L : IsSqlite S) (H : IsHealthy S) (E : Engine W)
    (calm : (i : Text) → IsCalm E (Lives i)) (V : Web) where
  after_lookup-keeps :
      (ctx : Context W) (id port path raw_path : Text) (found : Result SandboxRecord) (w : W)
      {i : Text}
      → Lives i w
      → Lives i (after_lookup S D V.parse_url ctx id port path raw_path found w).1
  unfolding after_lookup
  after_lookup-keeps ctx id port path raw_path (err e) w living = living
  after_lookup-keeps ctx id port path raw_path (ok sb) w living =
      elim (Bool-cases (is_empty sb.ip)) [
        | inl e ↦ rw (e, after_lookup) (F.ip_keeps ctx id w living)
        | inr e ↦ rw (e, after_lookup) living
      ]

  proxy-keeps :
      (ctx : Context W) (id port path raw_path : Text) (w : W) (db : S.Db) {i : Text}
      → Lives i w
      → Lives i (handle_sandbox_proxy S D V.parse_url ctx id port path raw_path (w, db)).1
  unfolding handle_sandbox_proxy
  proxy-keeps ctx id port path raw_path w db living =
      elim (Bool-cases (is_empty id || is_empty port)) [
        | inl e ↦ rw (e, handle_sandbox_proxy) living
        | inr e ↦ elim (Bool-cases (is_numeric (runes port))) [
          | inl n ↦
              rw (e, n, handle_sandbox_proxy)
                (after_lookup-keeps ctx id port path raw_path (Registry.get S id db) w living)
          | inr n ↦ rw (e, n, handle_sandbox_proxy) living
        ]
      ]

  handle-IsBacked :
      (e : Endpoint) (param : Text → Text) (q : Request W) (s : State S W)
      → (e ≡ delete_sandbox → IsName (param (text "id")))
      → IsBacked S IsName Lives s.1
      → IsBacked S IsName Lives (handle S D E V e param q s).1.1
  unfolding handle
  handle-IsBacked health param q s proper backed = backed
  handle-IsBacked (not_implemented layer week) param q s proper backed = backed
  handle-IsBacked create_sandbox param q (runs, s) proper backed =
      handle_create_sandbox-IsBacked D IsName Lives F S L H q.ctx q.now (V.decode_create q.body) s
        backed
  handle-IsBacked list_sandboxes param q s proper backed = backed
  handle-IsBacked get_sandbox param q s proper backed = backed
  handle-IsBacked exec_sandbox param q (runs, s) proper backed =
      handle_exec_sandbox-IsBacked D IsName Lives F S L H q.ctx (param (text "id")) q.now
        (V.decode_exec q.body) s backed
  handle-IsBacked delete_sandbox param q (runs, s) proper backed =
      handle_delete_sandbox-IsBacked D IsName Lives F S L H q.ctx (param (text "id")) s
        (proper refl) backed
  handle-IsBacked sandbox_proxy param q (runs, (w, db)) proper backed =
      moved-IsBacked S IsName Lives
        (λ i living.
          proxy-keeps q.ctx (param (text "id")) (param (text "port")) q.path q.raw_path w db living)
        backed
  handle-IsBacked agent_run param q (runs, s) proper backed =
      handle_agent_run-IsBacked D IsName Lives F S L H E calm q.clock q.is_late q.ctx
        (q.header (text "X-Request-Id")) (V.decode_run q.body) runs s backed
  handle-IsBacked webhook param q s proper backed = backed

  serve-IsBacked :
      (q : Request W) (s : State S W)
      → IsProper IsName V (request q)
      → IsBacked S IsName Lives s.1
      → IsBacked S IsName Lives (serve S D E V q s).1.1
  unfolding serve
  serve-IsBacked q s proper backed =
      elim (Option-cases (V.find_route register_routes q.method q.path)) [
        | inl e ↦ rw (e, serve) backed
        | inr ((route, param), e) ↦
            rw (e, serve) (handle-IsBacked route.endpoint param q s (proper route param e) backed)
      ]

  pub steps-IsBacked :
      (r : Reaper) (es : List (Event W)) (s : State S W)
      → All (IsProper IsName V) es
      → IsBacked S IsName Lives s.1
      → IsBacked S IsName Lives (steps S D E V r es s).1
  steps-IsBacked r [] s proper backed = backed
  steps-IsBacked r (request q ∷ es) s (p, proper) backed =
      steps-IsBacked r es _ proper (serve-IsBacked q s p backed)
  steps-IsBacked r (tick_at ctx now ∷ es) (runs, s) (p, proper) backed =
      steps-IsBacked r es _ proper (tick-IsBacked D IsName Lives F S L H r ctx now s backed)
