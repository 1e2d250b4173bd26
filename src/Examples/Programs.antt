-- ===== src/Examples/Programs.antt =====
-- The whole program on a daemon, a database in memory, and a router.
use workspaces.Common.{
  ◌*◌, ◌^◌, any, Text, text, text_eq, List, [], ◌∷◌, Bool, true, false, ◌≡◌, refl, none, some,
  Result, arith, All, inl, inr,
}
use mathlib.Core.List.{map}
use workspaces.Common.Int.{pos}
use workspaces.Sandbox.Driver.{sleeping}
use workspaces.Sandbox.Registry.{ListFilter, SandboxRecord}
use workspaces.Sandbox.Registry.Tables.{table}
use workspaces.Sandbox.Registry.Changes.{IsSound}
use workspaces.Sandbox.Reaper.{cutoff}
use workspaces.Context.{manager}
use workspaces.Api.Routes.{State, Request, serve, register_routes}
use workspaces.Sandbox.Registry.Spec.{passes, find, is_record}
use workspaces.Api.Response.{write_json, list_body, record_to_response}
use workspaces.Api.Sandboxes.{handle_list_sandboxes}
use workspaces.Api.Routes.Reading.{serve_get_keeps}
use workspaces.Forge.{Program}
use workspaces.Forge.System.{
  Pool, Reach, Step, here, next, arrived, ticked, moved, request_thread, reaper_thread,
}
use workspaces.Forge.System.Stale.{remove_thread_stale}
use workspaces.Forge.Threads.{
  Thread, done, alone, advance, create_thread, tick_thread, remove_thread,
}
use workspaces.Forge.Threads.Requests.{serve_thread, handle_thread}
use workspaces.Agent.Progress.{Progress}
use workspaces.Api.Agents.{AgentRunRequest, Clock}
use workspaces.Forge.System.Busy.{turns, whole_loop, requested, in_loop, agent_run_reaped}
use workspaces.Forge.System.Turns.{Reach-serve}
use workspaces.Sandbox.Reaper.Sweep.{destroy_all}
use workspaces.Common.Int.{int64}
use workspaces.Forge.System.Invariant.{Reach-IsSound, Reach-IsShown, IsShown}
use workspaces.Forge.System.Lifecycle.{Lives, Reach-Lives}
use workspaces.Examples.Memory.{memory, memory-IsSqlite, memory-IsHealthy}
use workspaces.Examples.Fakes.{box, boxes, engine, always, at_minute, three, three-IsKeyed}
use workspaces.Examples.Routing.{web, web-IsRouter, asked}

abbrev program : Program memory (List Text)
program = record {
  server = record {
    coordinator = record {
      agent = engine;
      context = manager;
      github = record { token = [] };
      sandbox = boxes;
    };
    github = record { token = [] };
    context = manager;
    sandbox = boxes;
    registry = table memory three;
    agent = engine;
  };
  reaper = record {
    idle_sleep_min = pos 10;
    idle_destroy_min = pos 30;
    tick_interval = 60 * 10 ^ 9;
  };
  addr = text ":7000";
}

abbrev started : State memory (List Text)
started = ([], (text "box-1" ∷ text "box-2" ∷ text "box-3" ∷ [], table memory three))

started-IsSound : IsSound memory (table memory three)
started-IsSound = (three, refl, three-IsKeyed, (inl refl, (inr refl, (inl refl, tt))))

-- A sandbox is asked for. Before its record is stored, an hour after the start, the reaper ticks and
-- lists what is to be put to sleep. The step that follows stores the record.
inserting :
    (s t : Pool memory (List Text)) × Reach memory web program ([], started) s
    × Step memory web program s t
unfolding request_thread reaper_thread serve_thread handle_thread create_thread register_routes text
    text_eq tick_thread
inserting = (
  _,
  _,
  next
      (next
        (next
          (next (next here (arrived (asked (text "POST") (text "/sandboxes") (text "web"))))
            (moved [] _ _ _ refl))
          (ticked always (at_minute 60)))
        (moved [] _ _ _ refl))
      (moved (_ ∷ []) _ _ _ refl),
  moved (_ ∷ []) _ _ _ refl,
)

interleaved : (t : Pool memory (List Text)) × Reach memory web program ([], started) t
interleaved = (inserting.1, next inserting.2 inserting.3)

Reach-Lives_example : Lives memory memory-IsSqlite web program inserting.0.1.1.1 inserting.1.1.1.1
Reach-Lives_example =
    Reach-Lives memory memory-IsSqlite web program inserting.2 started-IsSound inserting.3

Reach-IsSound_example : IsSound memory interleaved.0.1.1.1
Reach-IsSound_example =
    Reach-IsSound memory memory-IsSqlite web program interleaved.1 started-IsSound

abbrev everything : ListFilter
everything = record { status = []; project_id = [] }

Reach-IsShown_example :
    (out : _) × (handle_list_sandboxes memory boxes everything interleaved.0.1.1.1
      ≡ write_json 200 (list_body (map record_to_response out)))
    × All
        (λ sb.
          (passes everything sb ≡ true)
          × IsShown memory memory-IsSqlite memory-IsHealthy web program interleaved.0.1.1.1 sb)
        out
Reach-IsShown_example =
    Reach-IsShown memory memory-IsSqlite memory-IsHealthy web program everything interleaved.1
      started-IsSound

abbrev a_get : Request (List Text)
a_get = asked (text "GET") (text "/sandboxes/box-1") []

-- A request that arrives while the creation and the tick are both under way.
Reach-serve_example : Reach memory web program interleaved.0 (
  done (some (serve memory boxes engine web a_get interleaved.0.1).0) ∷ interleaved.0.0,
  (serve memory boxes engine web a_get interleaved.0.1).1,
)
Reach-serve_example = Reach-serve memory web program a_get interleaved.0 refl

-- The second box is touched between the list and its destruction.
abbrev touched : State memory (List Text)
touched = ([], (started.1.0, table memory (box (text "box-2") sleeping (at_minute 99) ∷ [])))

remove_thread_stale_example :
    ((rest : List SandboxRecord) × (memory.rows
          (alone
            (advance (remove_thread memory boxes program.reaper always (at_minute 100)) started)
            touched).1.1.1
        ≡ table memory rest)
      × (find (text "box-2") rest ≡ none))
    × (out : List SandboxRecord) × ((alone
          (advance (remove_thread memory boxes program.reaper always (at_minute 100)) started)
          touched).1.1.0
        ≡ destroy_all memory memory-IsSqlite memory-IsHealthy boxes always out touched.1.0)
    × (any (is_record (text "box-2")) out ≡ true)
unfolding text text_eq cutoff int64 sleeping
remove_thread_stale_example =
    remove_thread_stale memory memory-IsSqlite memory-IsHealthy boxes program.reaper always
      (at_minute 100) started touched three (box (text "box-2") sleeping (at_minute 99) ∷ [])
      (text "box-2") refl three-IsKeyed refl refl refl (refl, tt)

serve_get_keeps_example :
    ((serve memory boxes engine web (asked (text "GET") (text "/sandboxes/box-1") []) started).1.0
      ≡ started.0)
    × ((serve memory boxes engine web
          (asked (text "GET") (text "/sandboxes/box-1") [])
          started).1.1.1
        ≡ started.1.1)
serve_get_keeps_example =
    serve_get_keeps memory boxes engine web web-IsRouter
      (asked (text "GET") (text "/sandboxes/box-1") []) started refl

abbrev clock : Clock
clock = record { created = 1; started = 2; finished = 3; touched = 4; others = [] }

abbrev in_time : List Text → Bool
in_time w = false

abbrev run_it : AgentRunRequest
run_it = record {
  repo_url = [];
  task = text "fix it";
  role = [];
  image = [];
  sandbox_id = text "box-2";
}

abbrev at_work : Thread (List Text) (Result (Text × Progress)) × List Text
at_work =
    turns 1
      (whole_loop memory memory-IsSqlite memory-IsHealthy web program clock in_time (text "r1")
        always run_it)
      started.1.0

-- The second box sleeps when the agent is sent there.
agent_run_reaped_example :
    (y : State memory (List Text)) × Reach memory web program
      (
        requested memory memory-IsSqlite memory-IsHealthy web program clock in_time
              (text "r1")
              always
              run_it
            ∷ [],
        started,
      )
      (
        done none
            ∷ in_loop memory memory-IsSqlite memory-IsHealthy web program clock in_time
                (text "r1")
                always
                run_it
                at_work.0
            ∷ [],
        y,
      )
    × ((rest : List SandboxRecord) × (memory.rows y.1.1 ≡ table memory rest)
        × (find run_it.sandbox_id rest ≡ none))
    × (out : List SandboxRecord) × (y.1.0
        ≡ destroy_all memory memory-IsSqlite memory-IsHealthy boxes always out at_work.1)
    × (any (is_record run_it.sandbox_id) out ≡ true)
unfolding text text_eq cutoff int64 sleeping
agent_run_reaped_example =
    agent_run_reaped memory memory-IsSqlite memory-IsHealthy web program clock in_time (text "r1")
      always run_it 1 [] started always (at_minute 100) three refl three-IsKeyed refl refl refl
      (inr refl) (omega arith) (omega arith)
