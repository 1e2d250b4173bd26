-- ===== src/Sandbox/Fleet/Records.antt =====
-- The records of the registry against the sandboxes that there are.
use workspaces.Common.{
  Text, text_eq, text_eq_iff, List, [], ◌∷◌, ◌++◌, true, false, ◌≡◌, refl, none, some, any, arith,
  Bool-cases, Option-cases, inl, inr,
}
use workspaces.Sandbox.Registry.Sql.{Sqlite, IsSqlite, IsHealthy, Time}
use workspaces.Sandbox.Registry.{SandboxRecord}
use workspaces.Sandbox.Registry.Spec.{
  find, is_record, IsKeyed, Write, written, adjust, remove, insert, delete, touch,
}
use workspaces.Sandbox.Registry.Tables.{table}
use workspaces.Sandbox.Registry.Refines.{
  perform, perform-IsHealthy, find-written, written-IsKeyed, entry_after,
}

any-found :
    (id : Text) (sbs : List SandboxRecord)
    → any (is_record id) sbs ≡ true
    → (sb : SandboxRecord) × (find id sbs ≡ some sb)
any-found id [] h = cc h
any-found id (sb ∷ sbs) h = elim (Bool-cases (is_record id sb)) [
  | inl e ↦ (sb, rw e refl)
  | inr e ↦ let (sb', found) = any-found id sbs (rw e at h) in (sb', rw e found)
]

module _ (S : Sqlite) {W : Type 0} (IsName : Text → Type 0) (Lives : Text → W → Type 0) where
  -- Every record is that of a sandbox which is there.
  abbrev pub IsBacked : W × S.Db → Type 0
  IsBacked (w, db) =
      (sbs : List SandboxRecord) × (S.rows db ≡ table S sbs)
      × IsKeyed sbs
      × ((id : Text) (sb : SandboxRecord) → find id sbs ≡ some sb → IsName id × Lives id w)

  -- The world moves on, and loses no sandbox.
  pub moved-IsBacked :
      {w w' : W} {db : S.Db}
      → ((i : Text) → Lives i w → Lives i w')
      → IsBacked (w, db)
      → IsBacked (w', db)
  moved-IsBacked keeps (sbs, stored, k, backed) = (
    sbs,
    stored,
    k,
    λ id sb found. let (name, lives) = backed id sb found in (name, keeps id lives),
  )

  module _ (L : IsSqlite S) (H : IsHealthy S) where
    perform-IsBacked :
        (u : Write) {w : W} (db : S.Db) (sbs sbs' : List SandboxRecord)
        → S.rows db ≡ table S sbs
        → IsKeyed sbs
        → written u sbs ≡ some sbs'
        → ((id : Text) (sb : SandboxRecord)
            → entry_after u id (find id sbs) ≡ some sb
            → IsName id × Lives id w)
        → ((perform S u db).0 ≡ none) × IsBacked (w, (perform S u db).1)
    perform-IsBacked u db sbs sbs' stored k taken backed =
        let (done, stored') = perform-IsHealthy S L H u db sbs sbs' stored taken in
        (
          done,
          (
            sbs',
            stored',
            written-IsKeyed u sbs k taken,
            λ id sb found. backed id sb (rw (find-written u sbs id taken) at found),
          ),
        )

    pub touch-IsBacked :
        (id : Text) (t : Time) {w : W} {db : S.Db}
        → IsBacked (w, db)
        → IsBacked (w, (perform S (touch id t) db).1)
    touch-IsBacked id t {w} {db} (sbs, stored, k, backed) =
        (perform-IsBacked (touch id t) {w = w} db sbs
          (adjust id (λ sb. record sb { last_active = t }) sbs) stored k (unfold written in refl)
          (λ j sb found. elim (Option-cases (find j sbs)) [
            | inl e ↦ ground (arith, found, e)
            | inr (old, e) ↦ backed j old e
          ])).1

    -- A sandbox that was not there before gets its record.
    pub insert-IsBacked :
        (sb : SandboxRecord) {w w' : W} {db : S.Db}
        → IsBacked (w, db)
        → ¬ Lives sb.id w
        → ((i : Text) → Lives i w → Lives i w')
        → IsName sb.id
        → Lives sb.id w'
        → ((perform S (insert sb) db).0 ≡ none) × IsBacked (w', (perform S (insert sb) db).1)
    insert-IsBacked sb {w} {w'} {db} (sbs, stored, k, backed) absent keeps name lives =
        elim (Bool-cases (any (is_record sb.id) sbs)) [
          | inl taken ↦
              let (old, found) = any-found sb.id sbs taken in
              elim (absent (backed sb.id old found).1) [ ]
          | inr free ↦
              perform-IsBacked (insert sb) {w = w'} db sbs (sbs ++ sb ∷ []) stored k
                (unfold written in rw free refl)
                (λ j old found. elim (Bool-cases (text_eq sb.id j)) [
                  | inl e ↦ rw (← (text_eq_iff sb.id j).0 e) (name, lives)
                  | inr e ↦
                      let (named, living) = backed j old (rw e at found) in (named, keeps j living)
                ])
        ]

    -- The record of a sandbox goes, and no other sandbox has gone.
    pub delete-IsBacked :
        (i : Text) {w w' : W} {db : S.Db}
        → IsBacked (w, db)
        → ((j : Text) → text_eq i j ≡ false → Lives j w → Lives j w')
        → IsBacked (w', (perform S (delete i) db).1)
    delete-IsBacked i {w} {w'} {db} (sbs, stored, k, backed) keeps =
        (perform-IsBacked (delete i) {w = w'} db sbs (remove i sbs) stored k
          (unfold written in refl)
          (λ j old found. elim (Bool-cases (text_eq i j)) [
            | inl e ↦ ground (arith, found, e)
            | inr e ↦
                let (named, living) = backed j old (rw e at found) in (named, keeps j e living)
          ])).1
