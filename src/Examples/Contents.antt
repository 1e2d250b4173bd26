-- ===== src/Examples/Contents.antt =====
-- The contents of the registry's table.
use workspaces.Common.{Text, text, text_eq, List, [], ◌∷◌, ◌≡◌, refl, none, some, Error, ok, ◌⊎◌}
use workspaces.Sandbox.Registry.Sql.{Time}
use workspaces.Sandbox.Registry.{SandboxRecord, ListFilter, get, list, list_older_than}
use workspaces.Sandbox.Registry.Spec.{IsKeyed, IsNewestFirst, touch, passes, idle}
use workspaces.Sandbox.Registry.Tables.{table}
use workspaces.Sandbox.Registry.Refines.{perform, entry_after}
use workspaces.Sandbox.Registry.Queries.{found}
use workspaces.Sandbox.Registry.Contents.{Contents, of_records, lookup, applied}
use workspaces.Sandbox.Registry.Abstract.{IsOf, Lists, perform-applied, reads-lookup}
use workspaces.Examples.Memory.{memory, memory-IsSqlite, memory-IsHealthy}
use workspaces.Examples.Fakes.{idle_box, dozing_box}

abbrev one_way : List SandboxRecord
one_way = idle_box ∷ dozing_box ∷ []

one_way-IsKeyed : IsKeyed one_way
unfolding text text_eq
one_way-IsKeyed = (refl, (refl, tt))

perform-applied_example :
    ((e : Error) × ((perform memory (touch (text "box-1") 7) (table memory one_way)).0 ≡ some e)
      × IsOf memory
          (of_records one_way one_way-IsKeyed)
          (perform memory (touch (text "box-1") 7) (table memory one_way)).1)
    ⊎ ((d : Contents) × ((perform memory (touch (text "box-1") 7) (table memory one_way)).0 ≡ none)
        × (applied (touch (text "box-1") 7) (of_records one_way one_way-IsKeyed) ≡ some d)
        × ((id : Text)
            → lookup id d
              ≡ entry_after
                  (touch (text "box-1") 7)
                  id
                  (lookup id (of_records one_way one_way-IsKeyed)))
        × IsOf memory d (perform memory (touch (text "box-1") 7) (table memory one_way)).1)
perform-applied_example =
    perform-applied memory memory-IsSqlite (touch (text "box-1") 7)
      (of_records one_way one_way-IsKeyed) (table memory one_way)
      (one_way, one_way-IsKeyed, refl, refl)

abbrev two : Contents
two = of_records one_way one_way-IsKeyed

reads-lookup_example :
    ((id : Text) → get memory id (table memory one_way) ≡ found (lookup id two))
    × ((f : ListFilter)
        → (out : List SandboxRecord) × (list memory f (table memory one_way) ≡ ok out)
          × Lists (passes f) two out
          × IsNewestFirst out)
    × ((cutoff : Time) (status : Text)
        → (out : List SandboxRecord) × (list_older_than memory cutoff status (table memory one_way)
            ≡ (out, none))
          × Lists (idle cutoff status) two out)
reads-lookup_example =
    reads-lookup memory memory-IsSqlite memory-IsHealthy (of_records one_way one_way-IsKeyed)
      (table memory one_way) (one_way, one_way-IsKeyed, refl, refl)
