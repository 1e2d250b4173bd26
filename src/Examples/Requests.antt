-- ===== src/Examples/Requests.antt =====
-- The handlers of the API on three records.
use mathlib.Core.List.{map}
use workspaces.Common.{
  Text, text, text_eq, List, [], ◌∷◌, ◌++◌, Bool, false, ◌≡◌, refl, some, Result, ok,
  is_deadline_exceeded, arith, inl,
}
use workspaces.Common.Runes.{encode_all}
use workspaces.Common.Posix.{shell_words}
use workspaces.Sandbox.Driver.{Driver}
use workspaces.Sandbox.Registry.Sql.{Row, effect}
use workspaces.Sandbox.Registry.{
  SandboxRecord, to_row, get, scan_record, parse_ts, touch_last_active,
}
use workspaces.Sandbox.Registry
use workspaces.Sandbox.Registry.Spec.{find}
use workspaces.Sandbox.Registry.Tables.{table}
use workspaces.Api.Shell.{build_cmd, shell_words-build_cmd}
use workspaces.Agent.Engine.{run}
use workspaces.Api.Response.{Response, write_error, write_json, no_body}
use workspaces.Api.Sandboxes.{CreateSandboxRequest, handle_create_sandbox}
use workspaces.Api.Sandboxes.Records.{
  Created, Withdrawn, handle_create_sandbox-Created, handle_create_sandbox-Withdrawn,
}
use workspaces.Api.Agents.{AgentRunRequest, Clock, handle_agent_run}
use workspaces.Api.Agents.Timeout.{Expired, handle_agent_run-Expired}
use workspaces.Api.Agents.Outcome.{Answered, resolved, handle_agent_run-Answered}
use workspaces.Api.Proxy.{Proxied, handle_sandbox_proxy, proxy_prefix, serve_http}
use workspaces.Api.Proxy.Served.{Served, handle_sandbox_proxy-Served}
use workspaces.Examples.Memory.{memory, memory-IsSqlite, memory-IsHealthy}
use workspaces.Examples.Fakes.{boxes, engine, slow_engine, always, three, three-IsKeyed}

abbrev db : List Row
db = table memory three

abbrev ids : List Text
ids = text "box-1" ∷ text "box-2" ∷ text "box-3" ∷ []

-- Two arguments, the second with a quote and a space.
shell_words-build_cmd_example :
    shell_words (build_cmd (map encode_all ((101 ∷ []) ∷ (39 ∷ 32 ∷ 233 ∷ []) ∷ [])))
    ≡ some (map encode_all ((101 ∷ []) ∷ (39 ∷ 32 ∷ 233 ∷ []) ∷ []))
shell_words-build_cmd_example = shell_words-build_cmd (101 ∷ []) (39 ∷ 32 ∷ 233 ∷ []) [] (
  (inl (omega arith), tt),
  ((inl (omega arith), (inl (omega arith), (inl (omega arith), tt))), tt),
)

abbrev wanted : Result CreateSandboxRequest
wanted = ok (record { project_id = text "web"; agent_role = text "coder"; image = [] })

handle_create_sandbox-Created_example :
    Created memory memory-IsSqlite memory-IsHealthy boxes three
      (handle_create_sandbox memory boxes always 7 wanted (ids, db)).0
      (handle_create_sandbox memory boxes always 7 wanted (ids, db)).1.1
unfolding handle_create_sandbox Registry.insert effect text_eq text
handle_create_sandbox-Created_example =
    handle_create_sandbox-Created memory memory-IsSqlite memory-IsHealthy boxes always 7 wanted ids
      db three refl three-IsKeyed refl

-- A driver whose new sandbox has the id of an old one.
abbrev confused : Driver (List Text)
confused = record boxes { create = λ ctx cfg w. (ok (text "box-1"), w) }

handle_create_sandbox-Withdrawn_example :
    (memory.rows (handle_create_sandbox memory confused always 7 wanted (ids, db)).1.1
      ≡ table memory three)
    × Withdrawn memory memory-IsSqlite confused always wanted ids
        (handle_create_sandbox memory confused always 7 wanted (ids, db)).1.0
unfolding handle_create_sandbox Registry.insert effect text_eq text
handle_create_sandbox-Withdrawn_example =
    handle_create_sandbox-Withdrawn memory memory-IsSqlite confused always 7 wanted ids db three
      refl (omega arith)

abbrev in_time : List Text → Bool
in_time w = false

abbrev clock : Clock
clock = record { created = 3; started = 4; finished = 9; touched = 10; others = [] }

abbrev fix_it : Text → AgentRunRequest
fix_it id = record { repo_url = []; task = text "fix it"; role = []; image = []; sandbox_id = id }

handle_agent_run-Expired_example :
    (rq : AgentRunRequest) × (ok (fix_it (text "box-1")) ≡ ok rq)
    × (id : Text) × ((resolved memory boxes slow_engine clock in_time always
          (text "r1")
          rq
          (ids, db)).0
        ≡ inl id)
    × Expired memory boxes slow_engine clock in_time always
        (text "r1")
        rq
        id
        []
        (resolved memory boxes slow_engine clock in_time always (text "r1") rq (ids, db)).1
        (handle_agent_run memory boxes slow_engine clock in_time always
          (text "r1")
          (ok (fix_it (text "box-1")))
          ([], (ids, db))).1
unfolding handle_agent_run text get text_eq to_row scan_record run is_deadline_exceeded write_error
handle_agent_run-Expired_example =
    handle_agent_run-Expired memory boxes slow_engine clock in_time always (text "r1")
      (ok (fix_it (text "box-1"))) [] (ids, db) refl

handle_agent_run-Answered_example :
    (rq : AgentRunRequest) × (ok (fix_it (text "box-1")) ≡ ok rq)
    × (id : Text) × ((resolved memory boxes engine clock in_time always (text "r1") rq (ids, db)).0
        ≡ inl id)
    × Answered memory boxes engine clock in_time always
        (text "r1")
        rq
        id
        (resolved memory boxes engine clock in_time always (text "r1") rq (ids, db)).1.0
        []
        (handle_agent_run memory boxes engine clock in_time always
          (text "r1")
          (ok (fix_it (text "box-1")))
          ([], (ids, db))).0
        (handle_agent_run memory boxes engine clock in_time always
          (text "r1")
          (ok (fix_it (text "box-1")))
          ([], (ids, db))).1.0
unfolding handle_agent_run text get text_eq to_row scan_record run write_json
handle_agent_run-Answered_example =
    handle_agent_run-Answered memory boxes engine clock in_time always (text "r1")
      (ok (fix_it (text "box-1"))) [] (ids, db) refl

abbrev any_url : Text → Result (Unit {0})
any_url s = ok tt

-- The server in the sandbox answers every request.
abbrev answering : Text → Text → Text → List Text → Result Response × List Text
answering target path raw_path w = (ok (write_json 200 no_body), target ∷ w)

abbrev handed_over : Proxied × List Text
handed_over =
    handle_sandbox_proxy memory boxes any_url always (text "box-1") (text "3000")
      (proxy_prefix (text "box-1") (text "3000") ++ text "/index.html") [] (ids, db)

handle_sandbox_proxy-Served_example :
    Served memory memory-IsSqlite memory-IsHealthy boxes any_url answering always
      (text "box-1")
      (text "3000")
      (text "/index.html")
      ids
      (find (text "box-1") three)
      handed_over.1
      (serve_http answering (text "3000") handed_over.0 handed_over.1).0
      (serve_http answering (text "3000") handed_over.0 handed_over.1).1
handle_sandbox_proxy-Served_example =
    handle_sandbox_proxy-Served memory memory-IsSqlite memory-IsHealthy boxes any_url answering
      always (text "box-1") (text "3000") (text "/index.html") [] ids db three refl three-IsKeyed
