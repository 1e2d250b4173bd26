-- ===== src/Sandbox/Registry/Refines.antt =====
-- The writes of the registry against the list of records.
use mathlib.Core.Path.{ap}
use mathlib.Core.Option
use workspaces.Common.{
  Text, List, [], ◌∷◌, ◌++◌, false, ◌≡◌, refl, sym, ◌∙◌, Option, none, some, Error, any, any-append,
  if◌then◌else◌, arith, Option-cases, text_eq, text_eq_iff, inl, inr,
}
use workspaces.Sandbox.Registry.Sql.{Sqlite, IsSqlite, IsHealthy, effect}
use workspaces.Sandbox.Registry.{SandboxRecord}
use workspaces.Sandbox.Registry
use workspaces.Sandbox.Registry.Spec.{
  Write, insert, update, delete, touch, set_status, written, is_record, adjust, remove, IsKeyed,
  find, replaced,
}
use workspaces.Sandbox.Registry.Tables.{table, statement, effect-statement}

module _ (S : Sqlite) where
  -- The operation of the registry behind a write.
  unfoldable pub perform : Write → S.Db → Option Error × S.Db
  perform (insert sb) = Registry.insert S sb
  perform (update sb) = Registry.update S sb
  perform (delete id) = Registry.delete S id
  perform (touch id t) = Registry.touch_last_active S id t
  perform (set_status id s) = Registry.set_status S id s

  -- It sends one statement, keeps the engine's database and fails if the engine does.
  perform-exec :
      (w : Write) (db : S.Db)
      → ((perform w db).1 ≡ (S.exec (statement S w) db).1)
        × ((perform w db).0 ≡ none → (S.exec (statement S w) db).0 ≡ none)
        × ((e : Error)
            → (perform w db).0 ≡ some e
            → (d : Error) × ((S.exec (statement S w) db).0 ≡ some d))
  unfolding perform Registry.insert Registry.update Registry.delete Registry.touch_last_active
      Registry.set_status statement
  perform-exec (insert sb) db = (refl, ground arith, λ e h. ground arith)
  perform-exec (update sb) db = (refl, ground arith, λ e h. ground arith)
  perform-exec (delete id) db = (refl, ground arith, λ e h. ground arith)
  perform-exec (touch id t) db = (refl, ground arith, λ e h. ground arith)
  perform-exec (set_status id s) db = (refl, ground arith, λ e h. ground arith)

  module _ (L : IsSqlite S) (w : Write) (db : S.Db) (sbs : List SandboxRecord)
      (stored : S.rows db ≡ table S sbs) where
    sent : S.rows (perform w db).1 ≡ S.rows (S.exec (statement S w) db).1
    sent = ap S.rows (perform-exec w db).0

    -- Over a database that stores a list of records, a write that fails leaves the stored records
    -- alone.
    pub perform_failed :
        {e : Error} → (perform w db).0 ≡ some e → S.rows (perform w db).1 ≡ table S sbs
    perform_failed {e} failed =
        let (d, f) = (perform-exec w db).2 e failed in
        sent ∙ L.exec_failed (statement S w) db d f ∙ stored

    admitted :
        (perform w db).0 ≡ none
        → Option.map (table S) (written w sbs) ≡ some (S.rows (perform w db).1)
    admitted done =
        sym (effect-statement S w sbs)
        ∙ sym (ap (effect (statement S w)) stored)
        ∙ L.exec_ok (statement S w) db ((perform-exec w db).1 done)
        ∙ ap some (sym sent)

    -- Over a database that stores a list of records, a write that succeeds is one that the
    -- records admit, and the database then stores what it makes of them.
    pub perform-written :
        (perform w db).0 ≡ none
        → (sbs' : List SandboxRecord) × (written w sbs ≡ some sbs')
          × (S.rows (perform w db).1 ≡ table S sbs')
    perform-written done = elim (Option-cases (written w sbs)) [
      | inl refused ↦ cc (admitted done, ap (Option.map (table S)) refused)
      | inr (sbs', taken) ↦
          (sbs', taken, ground (arith, admitted done, ap (Option.map (table S)) taken))
    ]

-- What a write leaves under an id, from what it finds there.
abbrev pub entry_after : Write → Text → Option SandboxRecord → Option SandboxRecord
entry_after (insert sb) id old = if text_eq sb.id id then some sb else old
entry_after (update sb) id old = if text_eq sb.id id then Option.map (replaced sb) old else old
entry_after (delete i) id old = if text_eq i id then none else old
entry_after (touch i t) id old =
    if text_eq i id
    then Option.map {A = SandboxRecord} (λ sb. record sb { last_active = t }) old
    else old
entry_after (set_status i s) id old =
    if text_eq i id
    then Option.map {A = SandboxRecord} (λ sb. record sb { status = s }) old
    else old

pub find-adjust :
    (i id : Text) (f : SandboxRecord → SandboxRecord)
    → ((sb : SandboxRecord) → (f sb).id ≡ sb.id)
    → (sbs : List SandboxRecord)
    → find id (adjust i f sbs) ≡ (if text_eq i id then Option.map f (find id sbs) else find id sbs)
find-adjust i id f keeps [] = ground arith
find-adjust i id f keeps (sb ∷ sbs) = ground (
  arith,
  keeps sb,
  find-adjust i id f keeps sbs,
  text_eq_iff i id,
  text_eq_iff sb.id i,
  text_eq_iff sb.id id,
)

pub find-remove :
    (i id : Text) (sbs : List SandboxRecord)
    → find id (remove i sbs) ≡ (if text_eq i id then none else find id sbs)
find-remove i id [] = ground arith
find-remove i id (sb ∷ sbs) =
    ground
      (arith, find-remove i id sbs, text_eq_iff i id, text_eq_iff sb.id i, text_eq_iff sb.id id)

pub find_absent :
    (id : Text) (sbs : List SandboxRecord) → any (is_record id) sbs ≡ false → find id sbs ≡ none
find_absent id [] h = refl
find_absent id (sb ∷ sbs) h = ground (arith, find_absent id sbs)

find-append :
    (id : Text) (new : SandboxRecord) (sbs : List SandboxRecord)
    → any (is_record new.id) sbs ≡ false
    → find id (sbs ++ new ∷ []) ≡ (if text_eq new.id id then some new else find id sbs)
find-append id new [] fresh = refl
find-append id new (sb ∷ sbs) fresh = ground (
  arith,
  find-append id new sbs,
  text_eq_iff new.id id,
  text_eq_iff sb.id new.id,
  text_eq_iff sb.id id,
)

-- A write acts on the map from ids to records: under each id it leaves what `entry_after` says.
pub find-written :
    (w : Write) (sbs : List SandboxRecord) {sbs' : List SandboxRecord} (id : Text)
    → written w sbs ≡ some sbs'
    → find id sbs' ≡ entry_after w id (find id sbs)
unfolding written
find-written (insert sb) sbs id h = ground (arith, find-append id sb sbs)
find-written (update sb) sbs id h =
    ground (arith, find-adjust sb.id id (replaced sb) (λ _. refl) sbs)
find-written (delete i) sbs id h = ground (arith, find-remove i id sbs)
find-written (touch i t) sbs id h =
    ground (arith, find-adjust i id (λ sb. record sb { last_active = t }) (λ _. refl) sbs)
find-written (set_status i s) sbs id h =
    ground (arith, find-adjust i id (λ sb. record sb { status = s }) (λ _. refl) sbs)

any-adjust :
    (i id : Text) (f : SandboxRecord → SandboxRecord)
    → ((sb : SandboxRecord) → (f sb).id ≡ sb.id)
    → (sbs : List SandboxRecord) → any (is_record id) (adjust i f sbs) ≡ any (is_record id) sbs
any-adjust i id f keeps [] = refl
any-adjust i id f keeps (sb ∷ sbs) = ground (arith, keeps sb, any-adjust i id f keeps sbs)

any-remove :
    (i id : Text) (sbs : List SandboxRecord)
    → any (is_record id) sbs ≡ false
    → any (is_record id) (remove i sbs) ≡ false
any-remove i id [] h = refl
any-remove i id (sb ∷ sbs) h = ground (arith, any-remove i id sbs)

adjust-IsKeyed :
    (i : Text) (f : SandboxRecord → SandboxRecord)
    → ((sb : SandboxRecord) → (f sb).id ≡ sb.id)
    → (sbs : List SandboxRecord) → IsKeyed sbs
    → IsKeyed (adjust i f sbs)
adjust-IsKeyed i f keeps [] k = tt
adjust-IsKeyed i f keeps (sb ∷ sbs) k =
    ground (arith, keeps sb, any-adjust i sb.id f keeps sbs, adjust-IsKeyed i f keeps sbs)

pub remove-IsKeyed : (i : Text) (sbs : List SandboxRecord) → IsKeyed sbs → IsKeyed (remove i sbs)
remove-IsKeyed i [] k = tt
remove-IsKeyed i (sb ∷ sbs) k = ground (arith, any-remove i sb.id sbs, remove-IsKeyed i sbs)

append-IsKeyed :
    (new : SandboxRecord) (sbs : List SandboxRecord)
    → any (is_record new.id) sbs ≡ false
    → IsKeyed sbs
    → IsKeyed (sbs ++ new ∷ [])
append-IsKeyed new [] fresh k = (refl, tt)
append-IsKeyed new (sb ∷ sbs) fresh k = ground (
  arith,
  append-IsKeyed new sbs,
  any-append (is_record sb.id) sbs (new ∷ []),
  text_eq_iff new.id sb.id,
  text_eq_iff sb.id new.id,
)

-- No write lists an id twice.
pub written-IsKeyed :
    (w : Write) (sbs : List SandboxRecord) {sbs' : List SandboxRecord}
    → IsKeyed sbs
    → written w sbs ≡ some sbs'
    → IsKeyed sbs'
unfolding written
written-IsKeyed (insert sb) sbs k h = ground (arith, append-IsKeyed sb sbs)
written-IsKeyed (update sb) sbs k h =
    ground (arith, adjust-IsKeyed sb.id (replaced sb) (λ _. refl) sbs k)
written-IsKeyed (delete i) sbs k h = ground (arith, remove-IsKeyed i sbs k)
written-IsKeyed (touch i t) sbs k h =
    ground (arith, adjust-IsKeyed i (λ sb. record sb { last_active = t }) (λ _. refl) sbs k)
written-IsKeyed (set_status i s) sbs k h =
    ground (arith, adjust-IsKeyed i (λ sb. record sb { status = s }) (λ _. refl) sbs k)

module _ (S : Sqlite) (L : IsSqlite S) (H : IsHealthy S) where
  -- With an engine in order and a database that stores a list of records, a write that the
  -- records admit succeeds, and the database then stores what it makes of them.
  pub perform-IsHealthy :
      (w : Write) (db : S.Db) (sbs sbs' : List SandboxRecord)
      → S.rows db ≡ table S sbs
      → written w sbs ≡ some sbs'
      → ((perform S w db).0 ≡ none) × (S.rows (perform S w db).1 ≡ table S sbs')
  perform-IsHealthy w db sbs sbs' stored taken = (done, kept)
    where
      accepted : (S.exec (statement S w) db).0 ≡ none
      accepted = H.accepts (statement S w) db (table S sbs') (
          ap (effect (statement S w)) stored
          ∙ effect-statement S w sbs
          ∙ ap (Option.map (table S)) taken)

      not_failed : (o : Option Error) → (perform S w db).0 ≡ o → o ≡ none
      not_failed none e = refl
      not_failed (some e) failed = let (d, f) = (perform-exec S w db).2 e failed in cc accepted

      done : (perform S w db).0 ≡ none
      done = not_failed (perform S w db).0 refl

      kept : S.rows (perform S w db).1 ≡ table S sbs'
      kept =
          let (sbs'', taken', stored') = perform-written S L w db sbs stored done in
          let same : sbs'' ≡ sbs' = cc in rw (← same) stored'
