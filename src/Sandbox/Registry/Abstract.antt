-- ===== src/Sandbox/Registry/Abstract.antt =====
-- The table of internal/sandbox/registry.go against its contents.
use mathlib.Core.List.{Permᴰ}
use mathlib.Core.Path.{subst}
use workspaces.Common.{
  arith, text_eq_iff, if◌then◌else◌, Text, List, [], ◌∷◌, Bool, false, ◌≡◌, refl, sym, ◌∙◌, Option,
  none, some, Error, select, Option-cases, Bool-cases, inl, inr, ok, ◌⊎◌,
}
use workspaces.Sandbox.Registry.Sql.{Time, Sqlite, IsSqlite, IsHealthy, id_is}
use workspaces.Sandbox.Registry.{
  SandboxRecord, ListFilter, get, list, list_query, list_older_than, older_query,
}
use workspaces.Sandbox.Registry.Spec.{Write, IsKeyed, IsNewestFirst, find, is_record, idle, passes}
use workspaces.Sandbox.Registry.Tables.{table}
use workspaces.Sandbox.Registry.Queries.{
  found, get-find, list-passes, list_older_than-idle, any-Permᴰ, any-select_absent,
}
use workspaces.Sandbox.Registry.Refines.{
  perform, entry_after, perform_failed, perform-written, written-IsKeyed, find_absent,
}
use workspaces.Sandbox.Registry.Contents.{
  Contents, of_records, lookup, applied, applied-written, lookup-applied,
}

-- What a test leaves of a record that may be there.
abbrev kept : (SandboxRecord → Bool) → Option SandboxRecord → Option SandboxRecord
kept p none = none
kept p (some sb) = if p sb then some sb else none

-- The list has each record of the contents that passes the test, once, and no other.
abbrev pub Lists : (SandboxRecord → Bool) → Contents → List SandboxRecord → Type 0
Lists p c out = IsKeyed out × ((id : Text) → find id out ≡ kept p (lookup id c))

IsKeyed_swap :
    (a b : SandboxRecord) (l : List SandboxRecord) → IsKeyed (b ∷ a ∷ l) → IsKeyed (a ∷ b ∷ l)
IsKeyed_swap a b l (fresh, (fresh', k)) = (
  ground (arith, fresh, fresh', text_eq_iff b.id a.id, text_eq_iff a.id b.id),
  (ground (arith, fresh), k),
)

IsKeyed-Permᴰ : {xs ys : List SandboxRecord} → Permᴰ xs ys → IsKeyed ys → IsKeyed xs
IsKeyed-Permᴰ Permᴰ.nil k = tt
IsKeyed-Permᴰ (Permᴰ.cons {a} {b} e d) (fresh, k) =
    (rw e (any-Permᴰ (is_record b.id) d ∙ fresh), IsKeyed-Permᴰ d k)
IsKeyed-Permᴰ (Permᴰ.swap {a} {b} {a'} {b'} {l} e f) k =
    subst (λ x. IsKeyed (x ∷ b ∷ l)) (sym e)
      (subst (λ y. IsKeyed (b' ∷ y ∷ l)) (sym f) (IsKeyed_swap b' a' l k))
IsKeyed-Permᴰ (Permᴰ.trans d e) k = IsKeyed-Permᴰ d (IsKeyed-Permᴰ e k)

find-reordered :
    (id : Text) {xs ys : List SandboxRecord} → Permᴰ xs ys → IsKeyed ys → find id xs ≡ find id ys
find-reordered id Permᴰ.nil k = refl
find-reordered id (Permᴰ.cons e d) (fresh, k) = rw (e, find-reordered id d k) refl
find-reordered id (Permᴰ.swap {a} {b} {a'} {b'} {l} e f) (fresh, k) =
    rw (e, f)
      (ground (arith, fresh, text_eq_iff b'.id id, text_eq_iff a'.id id, text_eq_iff a'.id b'.id))
find-reordered id (Permᴰ.trans d e) k =
    find-reordered id d (IsKeyed-Permᴰ e k) ∙ find-reordered id e k

select-IsKeyed :
    (p : SandboxRecord → Bool) (sbs : List SandboxRecord) → IsKeyed sbs → IsKeyed (select p sbs)
select-IsKeyed p [] k = tt
select-IsKeyed p (sb ∷ sbs) (fresh, k) = elim (Bool-cases (p sb)) [
  | inl h ↦ rw h (any-select_absent sb.id p sbs fresh, select-IsKeyed p sbs k)
  | inr h ↦ rw h (select-IsKeyed p sbs k)
]

select-kept :
    (id : Text) (p : SandboxRecord → Bool) (sbs : List SandboxRecord)
    → IsKeyed sbs
    → find id (select p sbs) ≡ kept p (find id sbs)
select-kept id p [] k = refl
select-kept id p (sb ∷ sbs) (fresh, k) = ground (
  arith,
  select-kept id p sbs k,
  any-select_absent sb.id p sbs fresh,
  find_absent sb.id (select p sbs),
  text_eq_iff sb.id id,
)

module _ (S : Sqlite) where
  -- A database stores the contents.
  abbrev pub IsOf : Contents → S.Db → Type 0
  IsOf c db =
      (sbs : List SandboxRecord) × (k : IsKeyed sbs) × (S.rows db ≡ table S sbs)
      × (c ≡ of_records sbs k)

  module _ (L : IsSqlite S) where
    -- Whatever SQLite does with a write of the program over a database that stores some contents: if
    -- the write succeeds, then the contents admit it and the database stores what it makes of them,
    -- which finds under each id what the write leaves there; and if it fails, the contents stay.
    pub perform-applied :
        (w : Write) (c : Contents) (db : S.Db)
        → IsOf c db
        → ((e : Error) × ((perform S w db).0 ≡ some e) × IsOf c (perform S w db).1)
          ⊎ ((d : Contents) × ((perform S w db).0 ≡ none)
              × (applied w c ≡ some d)
              × ((id : Text) → lookup id d ≡ entry_after w id (lookup id c))
              × IsOf d (perform S w db).1)
    perform-applied w c db (sbs, k, stored, is) = elim (Option-cases (perform S w db).0) [
      | inl done ↦
          let (sbs', taken, stored') = perform-written S L w db sbs stored done in
          let k' = written-IsKeyed w sbs k taken in
          let step : applied w c ≡ some (of_records sbs' k') =
            rw is (applied-written w sbs k k' taken) in
          inr (
            of_records sbs' k',
            done,
            step,
            (λ id. lookup-applied w id c step),
            (sbs', k', stored', refl),
          )
      | inr (e, failed) ↦ inl (e, failed, (sbs, k, perform_failed S L w db sbs stored failed, is))
    ]

    module _ (H : IsHealthy S) where
      get-lookup :
          (id : Text) (c : Contents) (db : S.Db) → IsOf c db → get S id db ≡ found (lookup id c)
      unfolding lookup
      get-lookup id c db (sbs, k, stored, is) =
          let (rs, answered) =
            H.answers (record { conditions = id_is id ∷ []; newest_first = false }) db in
          rw is (get-find S L id db sbs rs stored k answered)

      listed :
          (p : SandboxRecord → Bool) (c : Contents) (sbs out : List SandboxRecord) (k : IsKeyed sbs)
          → c ≡ of_records sbs k
          → Permᴰ out (select p sbs)
          → Lists p c out
      unfolding lookup
      listed p c sbs out k is perm =
          let k' = select-IsKeyed p sbs k in
          (IsKeyed-Permᴰ perm k', λ id. rw is (find-reordered id perm k' ∙ select-kept id p sbs k))

      -- With an engine in order, every read of a database is answered from the contents that it
      -- stores: a request for an id with the record found there, or the error for none; a list
      -- request with each record that passes the filter, once, and no other, the newest first; and
      -- a search for idle records with each one of the status, or of any if it is empty, that was
      -- last active before the cutoff, once, and no other.
      pub reads-lookup :
          (c : Contents) (db : S.Db)
          → IsOf c db
          → ((id : Text) → get S id db ≡ found (lookup id c))
            × ((f : ListFilter)
                → (out : List SandboxRecord) × (list S f db ≡ ok out)
                  × Lists (passes f) c out
                  × IsNewestFirst out)
            × ((cutoff : Time) (status : Text)
                → (out : List SandboxRecord) × (list_older_than S cutoff status db ≡ (out, none))
                  × Lists (idle cutoff status) c out)
      reads-lookup c db (sbs, k, stored, is) = (
        λ id. get-lookup id c db (sbs, k, stored, is),
        λ f.
            let (rs, answered) = H.answers (list_query S f) db in
            let (out, e, perm, order) = list-passes S L f db sbs rs stored answered in
            (out, e, listed (passes f) c sbs out k is perm, order),
        λ cutoff status.
            let (rs, answered) = H.answers (older_query S cutoff status) db in
            let (out, e, perm) = list_older_than-idle S L cutoff status db sbs rs stored answered in
            (out, e, listed (idle cutoff status) c sbs out k is perm),
      )
