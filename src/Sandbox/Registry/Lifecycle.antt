-- ===== src/Sandbox/Registry/Lifecycle.antt =====
-- The life of one record of the table of internal/sandbox/registry.go.
use mathlib.Core.Option
use workspaces.Common.{
  Text, text_eq, text_eq_iff, List, true, ◌≡◌, Option, none, some, arith, Option-cases, Bool-cases,
  inl, inr, if◌then◌else◌,
}
use workspaces.Sandbox.Driver.{running, sleeping}
use workspaces.Sandbox.Registry.Sql.{Sqlite, IsSqlite, Time}
use workspaces.Sandbox.Registry.{SandboxRecord}
use workspaces.Sandbox.Registry.Spec.{
  Write, insert, update, delete, touch, set_status, written, find,
}
use workspaces.Sandbox.Registry.Tables.{table}
use workspaces.Sandbox.Registry.Refines.{
  perform, perform_failed, perform-written, find-written, find_absent, entry_after,
}
use workspaces.Sandbox.Registry.Changes.{IsMade, IsSound, Change, kept, wrote}

-- What may become of the record of an id: it is made and runs, it is used, it is put to sleep, it is
-- removed. One that sleeps is never made to run again, and nothing else of a record ever changes.
pub data Moves : Option SandboxRecord → Option SandboxRecord → Type 0 where
  stays : (o : Option SandboxRecord) → Moves o o
  made : (sb : SandboxRecord) → sb.status ≡ running → Moves none (some sb)
  used :
      (sb : SandboxRecord) (now : Time) → Moves (some sb) (some (record sb { last_active = now }))
  slept : (sb : SandboxRecord) → Moves (some sb) (some (record sb { status = sleeping }))
  removed : (sb : SandboxRecord) → Moves (some sb) none

-- The write of one id leaves the other ids alone.
only :
    (i id : Text) (old new : Option SandboxRecord)
    → (text_eq i id ≡ true → Moves old new)
    → Moves old (if text_eq i id then new else old)
only i id old new h = elim (Bool-cases (text_eq i id)) [
  | inl e ↦ rw e (h e)
  | inr e ↦ rw e (stays old)
]

none_left : (o : Option SandboxRecord) → Moves o none
none_left none = stays none
none_left (some sb) = removed sb

used_now :
    (now : Time) (o : Option SandboxRecord)
    → Moves o (Option.map {A = SandboxRecord} (λ sb. record sb { last_active = now }) o)
used_now now none = stays none
used_now now (some sb) = used sb now

put_to_sleep :
    (o : Option SandboxRecord)
    → Moves o (Option.map {A = SandboxRecord} (λ sb. record sb { status = sleeping }) o)
put_to_sleep none = stays none
put_to_sleep (some sb) = slept sb

insert_absent :
    (sb : SandboxRecord) (sbs : List SandboxRecord) {sbs' : List SandboxRecord}
    → written (insert sb) sbs ≡ some sbs'
    → find sb.id sbs ≡ none
unfolding written
insert_absent sb sbs h = find_absent sb.id sbs (ground arith)

entry_after-Moves :
    (w : Write) (sbs : List SandboxRecord) (id : Text) {sbs' : List SandboxRecord}
    → IsMade w
    → written w sbs ≡ some sbs'
    → Moves (find id sbs) (entry_after w id (find id sbs))
entry_after-Moves (insert sb) sbs id runs h = only sb.id id _ _ (λ e.
    let same : find id sbs ≡ none = rw (← (text_eq_iff sb.id id).0 e) (insert_absent sb sbs h) in
    rw same (made sb runs))
entry_after-Moves (update sb) sbs id impossible h = elim impossible [ ]
entry_after-Moves (delete i) sbs id _ h = only i id _ _ (λ _. none_left (find id sbs))
entry_after-Moves (touch i t) sbs id _ h = only i id _ _ (λ _. used_now t (find id sbs))
entry_after-Moves (set_status i s) sbs id sleeps h =
    rw sleeps (only i id _ _ (λ _. put_to_sleep (find id sbs)))

module _ (S : Sqlite) (L : IsSqlite S) where
  pub Change-Moves :
      {db db' : S.Db}
      → Change S db db'
      → IsSound S db
      → (sbs sbs' : List SandboxRecord) × (S.rows db ≡ table S sbs)
        × (S.rows db' ≡ table S sbs')
        × ((id : Text) → Moves (find id sbs) (find id sbs'))
  Change-Moves kept (sbs, stored, k, up) = (sbs, sbs, stored, stored, λ id. stays (find id sbs))
  Change-Moves {db} (wrote w allowed) (sbs, stored, k, up) =
      elim (Option-cases (perform S w db).0) [
        | inl done ↦
            let (sbs', taken, stored') = perform-written S L w db sbs stored done in
            (
              sbs,
              sbs',
              stored,
              stored',
              λ id. rw (find-written w sbs id taken) (entry_after-Moves w sbs id allowed taken),
            )
        | inr (e, failed) ↦
            (sbs, sbs, stored, perform_failed S L w db sbs stored failed, λ id. stays (find id sbs))
      ]
