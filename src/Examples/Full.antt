-- ===== src/Examples/Full.antt =====
-- A SQLite whose disk is full: it refuses every new row.
use mathlib.Core.Path.{subst}
use mathlib.Core.List.{Permᴰ}
use workspaces.Common.{
  text, text_eq, List, [], ◌∷◌, false, select, ◌≡◌, refl, Option, none, some, ok, Error, foreign,
  arith,
}
use workspaces.Sandbox.Registry.Sql.{
  Row, Statement, effect, insert_row, update_row, delete_row, set_last_active, set_status_of,
  Sqlite, IsSqlite, IsNewestFirst, meets_all,
}
use workspaces.Sandbox.Registry.Sql
use workspaces.Sandbox.Registry.{to_row, get, scan_record, parse_ts, touch_last_active}
use workspaces.Sandbox.Registry
use workspaces.Sandbox.Registry.Spec.{find}
use workspaces.Sandbox.Registry.Tables.{table}
use workspaces.Agent.Engine.{run}
use workspaces.Api.Response.{write_json}
use workspaces.Api.Agents.{AgentRunRequest, Clock, handle_agent_run}
use workspaces.Api.Agents.Unrecorded.{Unrecorded, handle_agent_run-Unrecorded}
use workspaces.Examples.Memory.{memory, memory-IsSqlite}
use workspaces.Examples.Fakes.{boxes, engine, always, three, three-IsKeyed}

abbrev disk_full : Error
disk_full = foreign (text "database or disk is full")

abbrev exec_full : Statement → List Row → Option Error × List Row
exec_full (insert_row r) db = (some disk_full, db)
exec_full (update_row id r) db = memory.exec (update_row id r) db
exec_full (delete_row id) db = memory.exec (delete_row id) db
exec_full (set_last_active id t) db = memory.exec (set_last_active id t) db
exec_full (set_status_of id s) db = memory.exec (set_status_of id s) db

abbrev full : Sqlite
full = record memory { exec = exec_full }

exec_full_ok :
    (s : Statement) (db : List Row)
    → (exec_full s db).0 ≡ none
    → effect s db ≡ some (exec_full s db).1
exec_full_ok (insert_row r) db h = ground arith
exec_full_ok (update_row id r) db h = memory-IsSqlite.exec_ok (update_row id r) db h
exec_full_ok (delete_row id) db h = memory-IsSqlite.exec_ok (delete_row id) db h
exec_full_ok (set_last_active id t) db h = memory-IsSqlite.exec_ok (set_last_active id t) db h
exec_full_ok (set_status_of id s) db h = memory-IsSqlite.exec_ok (set_status_of id s) db h

exec_full_failed :
    (s : Statement) (db : List Row) (e : Error)
    → (exec_full s db).0 ≡ some e
    → (exec_full s db).1 ≡ db
exec_full_failed (insert_row r) db e h = refl
exec_full_failed (update_row id r) db e h = memory-IsSqlite.exec_failed (update_row id r) db e h
exec_full_failed (delete_row id) db e h = memory-IsSqlite.exec_failed (delete_row id) db e h
exec_full_failed (set_last_active id t) db e h =
    memory-IsSqlite.exec_failed (set_last_active id t) db e h
exec_full_failed (set_status_of id s) db e h =
    memory-IsSqlite.exec_failed (set_status_of id s) db e h

meets_all-full : (cs : List Sql.Condition) (r : Row) → meets_all memory cs r ≡ meets_all full cs r
meets_all-full [] r = refl
meets_all-full (Sql.id_is id ∷ cs) r = rw (meets_all-full cs r) refl
meets_all-full (Sql.status_is s ∷ cs) r = rw (meets_all-full cs r) refl
meets_all-full (Sql.project_is p ∷ cs) r = rw (meets_all-full cs r) refl
meets_all-full (Sql.active_before t ∷ cs) r = rw (meets_all-full cs r) refl

select-full :
    (cs : List Sql.Condition) (rs : List Row)
    → select (meets_all memory cs) rs ≡ select (meets_all full cs) rs
select-full cs [] = refl
select-full cs (r ∷ rs) = rw (select-full cs rs, meets_all-full cs r) refl

newest_full : (rs : List Row) → IsNewestFirst memory rs → IsNewestFirst full rs
newest_full [] h = tt
newest_full (r ∷ rs) (h, hs) = (h, newest_full rs hs)

full-IsSqlite : IsSqlite full
full-IsSqlite = record {
  exec_ok = exec_full_ok;
  exec_failed = exec_full_failed;
  query_ok = λ q db rs h.
      subst (Permᴰ rs) (select-full q.conditions db) (memory-IsSqlite.query_ok q db rs h);
  query_part = λ q db rs h. cc h;
  query_order = λ q db rs h k. newest_full rs (memory-IsSqlite.query_order q db rs h k);
  before-stamp = λ a b. refl;
  parse-stamp = λ t. refl;
}

abbrev clock : Clock
clock = record { created = 3; started = 4; finished = 9; touched = 10; others = [] }

abbrev fix_it : AgentRunRequest
fix_it = record { repo_url = []; task = text "fix it"; role = []; image = []; sandbox_id = [] }

box_9_absent : find (text "box-9") three ≡ none
unfolding text text_eq
box_9_absent = refl

handle_agent_run-Unrecorded_example :
    Unrecorded full full-IsSqlite boxes engine
      (text "box-9")
      three
      three-IsKeyed
      box_9_absent
      (handle_agent_run full boxes engine clock
        (λ w. false)
        always
        (text "r1")
        (ok fix_it)
        ([], ([], table memory three))).0
      (handle_agent_run full boxes engine clock
        (λ w. false)
        always
        (text "r1")
        (ok fix_it)
        ([], ([], table memory three))).1
unfolding handle_agent_run Registry.insert run write_json text text_eq
handle_agent_run-Unrecorded_example =
    handle_agent_run-Unrecorded full full-IsSqlite boxes engine (text "box-9") three three-IsKeyed
      box_9_absent clock (λ w. false) always (text "r1") fix_it ([], ([], table memory three))
      (text "box-9" ∷ []) refl refl refl refl refl
