-- ===== src/Sandbox/Registry/Changes.antt =====
-- The changes that the program makes to the table of internal/sandbox/registry.go.
use mathlib.Core.Path.{subst}
use workspaces.Common.{
  Text, List, [], ◌∷◌, ◌≡◌, some, All, All-append, arith, ◌⊎◌, inl, inr, Option-cases, Bool-cases,
}
use workspaces.Sandbox.Driver.{running, sleeping}
use workspaces.Sandbox.Registry.Sql.{Sqlite, IsSqlite}
use workspaces.Sandbox.Registry.{SandboxRecord}
use workspaces.Sandbox.Registry.Spec.{
  Write, insert, update, delete, touch, set_status, written, adjust, remove, is_record, IsKeyed,
}
use workspaces.Sandbox.Registry.Tables.{table}
use workspaces.Sandbox.Registry.Refines.{perform, perform_failed, perform-written, written-IsKeyed}

-- The writes that the handlers and the reaper make: a new record runs, and a status is only ever set
-- to sleeping.
abbrev pub IsMade : Write → Type 0
IsMade (insert sb) = sb.status ≡ running
IsMade (update sb) = ⊥
IsMade (delete id) = Unit
IsMade (touch id t) = Unit
IsMade (set_status id s) = s ≡ sleeping

-- A record that runs or sleeps.
abbrev pub IsUp : SandboxRecord → Type 0
IsUp sb = (sb.status ≡ running) ⊎ (sb.status ≡ sleeping)

adjust-All :
    (P : SandboxRecord → Type 0) (i : Text) (f : SandboxRecord → SandboxRecord)
    → ((sb : SandboxRecord) → P sb → P (f sb))
    → (sbs : List SandboxRecord) → All P sbs
    → All P (adjust i f sbs)
adjust-All P i f keeps [] h = tt
adjust-All P i f keeps (sb ∷ sbs) (p, ps) = elim (Bool-cases (is_record i sb)) [
  | inl e ↦ rw e (keeps sb p, adjust-All P i f keeps sbs ps)
  | inr e ↦ rw e (p, adjust-All P i f keeps sbs ps)
]

remove-All :
    (P : SandboxRecord → Type 0) (i : Text) (sbs : List SandboxRecord)
    → All P sbs
    → All P (remove i sbs)
remove-All P i [] h = tt
remove-All P i (sb ∷ sbs) (p, ps) = elim (Bool-cases (is_record i sb)) [
  | inl e ↦ rw e (remove-All P i sbs ps)
  | inr e ↦ rw e (p, remove-All P i sbs ps)
]

written-IsUp :
    (w : Write) (sbs : List SandboxRecord) {sbs' : List SandboxRecord}
    → IsMade w
    → All IsUp sbs
    → written w sbs ≡ some sbs'
    → All IsUp sbs'
unfolding written
written-IsUp (insert sb) sbs made up h =
    subst (All IsUp) (ground arith) (All-append IsUp sbs (sb ∷ []) up (inl made, tt))
written-IsUp (update sb) sbs made up h = elim made [ ]
written-IsUp (delete i) sbs made up h = subst (All IsUp) (ground arith) (remove-All IsUp i sbs up)
written-IsUp (touch i t) sbs made up h =
    subst (All IsUp) (ground arith)
      (adjust-All IsUp i (λ sb. record sb { last_active = t }) (λ sb u. u) sbs up)
written-IsUp (set_status i s) sbs made up h =
    subst (All IsUp) (ground arith)
      (adjust-All IsUp i (λ sb. record sb { status = s }) (λ sb u. inr made) sbs up)

module _ (S : Sqlite) where
  -- At most one write, whatever becomes of it.
  pub data Change (db : S.Db) : S.Db → Type 0 where
    kept : Change db db
    wrote : (w : Write) → IsMade w → Change db (perform S w db).1

  -- The database stores records of distinct ids that run or sleep.
  abbrev pub IsSound : S.Db → Type 0
  IsSound db = (sbs : List SandboxRecord) × (S.rows db ≡ table S sbs) × IsKeyed sbs × All IsUp sbs

  module _ (L : IsSqlite S) where
    perform-IsSound : (w : Write) (db : S.Db) → IsMade w → IsSound db → IsSound (perform S w db).1
    perform-IsSound w db made (sbs, stored, k, up) = elim (Option-cases (perform S w db).0) [
      | inl done ↦
          let (sbs', taken, stored') = perform-written S L w db sbs stored done in
          (sbs', stored', written-IsKeyed w sbs k taken, written-IsUp w sbs made up taken)
      | inr (e, failed) ↦ (sbs, perform_failed S L w db sbs stored failed, k, up)
    ]

    pub Change-IsSound : {db db' : S.Db} → Change db db' → IsSound db → IsSound db'
    Change-IsSound kept sound = sound
    Change-IsSound {db} (wrote w made) sound = perform-IsSound w db made sound
