-- ===== src/Examples/Store.antt =====
-- The registry and the reaper on three records.
use mathlib.Core.List.{Permᴰ}
use workspaces.Common.{
  inl, if◌then◌else◌, leb, ◌^◌, ◌-◌, ◌+◌, ◌*◌, Text, text, text_eq, List, [], ◌∷◌, ◌++◌, ◌≡◌, refl,
  none, some, ok, arith, select, any,
}
use workspaces.Common.Int.{pos}
use workspaces.Sandbox.Driver.{running, sleeping}
use workspaces.Sandbox.Registry.Sql.{Row}
use workspaces.Sandbox.Registry.{SandboxRecord, list, list_older_than, scan_rows, ListFilter}
use workspaces.Sandbox.Registry.Spec.{IsKeyed, find, IsNewestFirst, written, passes, idle, insert}
use workspaces.Sandbox.Registry.Tables.{table, scan_rows-table}
use workspaces.Sandbox.Registry.Refines.{perform, perform-IsHealthy}
use workspaces.Sandbox.Registry.Queries.{list-passes, list_older_than-idle}
use workspaces.Sandbox.Reaper.Overflow.{cutoff_bounds, tick_wrapped}
use workspaces.Sandbox.Reaper.{Reaper, minute, cutoff, tick, run, ticked}
use workspaces.Sandbox.Reaper.Sweep.{
  Leaves, after_sleep, after_destroy, destroy_all, holds, tick_sweep, cutoff_pos,
}
use workspaces.Sandbox.Reaper.Safety.{run_keeps_active}
use workspaces.Sandbox.Reaper.Removal.{tick_skips_sleep}
use workspaces.Examples.Memory.{memory, memory-IsSqlite, memory-IsHealthy}
use workspaces.Examples.Fakes.{
  busy_box, boxes, always, at_minute, three, three-IsKeyed, idle_box, box,
}

abbrev db : List Row
db = table memory three

scan_rows-table_example : scan_rows memory db ≡ ok three
scan_rows-table_example = scan_rows-table memory memory-IsSqlite three

perform-IsHealthy_example :
    ((perform memory (insert (box (text "box-4") running 0)) db).0 ≡ none)
    × (memory.rows (perform memory (insert (box (text "box-4") running 0)) db).1
        ≡ table memory (three ++ box (text "box-4") running 0 ∷ []))
unfolding written text text_eq
perform-IsHealthy_example =
    perform-IsHealthy memory memory-IsSqlite memory-IsHealthy
      (insert (box (text "box-4") running 0)) db three (three ++ box (text "box-4") running 0 ∷ [])
      refl refl

abbrev running_web : ListFilter
running_web = record { status = running; project_id = text "web" }

list-passes_example :
    (out : List SandboxRecord) × (list memory running_web db ≡ ok out)
    × Permᴰ out (select (passes running_web) three)
    × IsNewestFirst out
list-passes_example = list-passes memory memory-IsSqlite running_web db three _ refl refl

list_older_than-idle_example :
    (out : List SandboxRecord) × (list_older_than memory (at_minute 52) sleeping db ≡ (out, none))
    × Permᴰ out (select (idle (at_minute 52) sleeping) three)
list_older_than-idle_example =
    list_older_than-idle memory memory-IsSqlite (at_minute 52) sleeping db three _ refl refl

abbrev pub reaper : Reaper
reaper = record { idle_sleep_min = pos 10; idle_destroy_min = pos 30; tick_interval = 60 * 10 ^ 9 }

abbrev names : List Text
names = text "box-1" ∷ text "box-2" ∷ text "box-3" ∷ []

tick_sweep_example :
    Leaves memory memory-IsSqlite memory-IsHealthy
      (tick memory boxes reaper always (at_minute 60) (names, db)).1
      (λ id.
        after_destroy
          (cutoff (at_minute 60) (pos 30))
          (after_sleep (cutoff (at_minute 60) (pos 10)) (find id three)))
    × (out : List SandboxRecord) × ((tick memory boxes reaper always (at_minute 60) (names, db)).0
        ≡ destroy_all memory memory-IsSqlite memory-IsHealthy boxes always out names)
    × ((id : Text)
        → any (λ sb. text_eq sb.id id) out
          ≡ holds
              (idle (cutoff (at_minute 60) (pos 30)) sleeping)
              (after_sleep (cutoff (at_minute 60) (pos 10)) (find id three)))
tick_sweep_example =
    tick_sweep memory memory-IsSqlite memory-IsHealthy boxes reaper always (at_minute 60) names db
      three refl three-IsKeyed

cutoff_bounds_example : cutoff (at_minute 60) (pos 200000000) ≡ (
    if leb (200000000 * minute) (2 ^ 63)
    then at_minute 60 - 200000000 * minute
    else at_minute 60 + (2 ^ 64 - 200000000 * minute))
cutoff_bounds_example = cutoff_bounds (at_minute 60) 200000000 (omega arith)

-- One that is told to wait for almost four hundred years.
abbrev patient : Reaper
patient = record reaper { idle_sleep_min = pos 200000000; idle_destroy_min = pos 200000000 }

tick_wrapped_example :
    (sbs' : List SandboxRecord) × (memory.rows
        (tick memory boxes patient always (at_minute 60) (names, db)).1
      ≡ table memory sbs')
    × (find (text "box-3") sbs' ≡ none)
unfolding text text_eq
tick_wrapped_example =
    tick_wrapped memory memory-IsSqlite memory-IsHealthy boxes patient always (at_minute 60)
      200000000 200000000 names db three refl refl (omega arith, omega arith)
      (omega arith, omega arith) refl three-IsKeyed (text "box-3") {sb = busy_box} refl (inl refl)
      (omega arith)

tick_skips_sleep_example :
    (sbs' : List SandboxRecord) × (memory.rows
        (tick memory boxes reaper always (at_minute 60) (names, db)).1
      ≡ table memory sbs')
    × (find (text "box-1") sbs' ≡ none)
unfolding text text_eq running sleeping
tick_skips_sleep_example =
    tick_skips_sleep memory memory-IsSqlite memory-IsHealthy boxes reaper always (at_minute 60)
      names db three (text "box-1") {sb = idle_box} refl three-IsKeyed refl refl
      (omega (arith, cutoff_pos (at_minute 60) 10)) (omega (arith, cutoff_pos (at_minute 60) 30))

run_keeps_active_example :
    (sbs' : List SandboxRecord) × (memory.rows
        (run memory boxes reaper always
          (ticked (at_minute 60) ∷ ticked (at_minute 61) ∷ [])
          (names, db)).1
      ≡ table memory sbs')
    × IsKeyed sbs'
    × (find (text "box-3") sbs' ≡ some busy_box)
unfolding text text_eq running
run_keeps_active_example =
    run_keeps_active memory memory-IsSqlite memory-IsHealthy boxes reaper always
      (ticked (at_minute 60) ∷ ticked (at_minute 61) ∷ []) names db three (text "box-3")
      {sb = busy_box} refl three-IsKeyed refl refl
      (
        omega (arith, cutoff_pos (at_minute 60) 10),
        (omega (arith, cutoff_pos (at_minute 61) 10), tt),
      )
