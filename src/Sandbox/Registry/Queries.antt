-- ===== src/Sandbox/Registry/Queries.antt =====
-- The reads of the registry against the list of records.
use mathlib.Core.Path.{ap, subst}
use mathlib.Core.List.{Permᴰ}
use workspaces.Common.{
  ◌++◌, Error, Text, List, [], ◌∷◌, Bool, false, ◌≡◌, refl, sym, ◌∙◌, Option, none, some, Result,
  ok, err, wrapped, no_rows, text, any, select, map, arith, ltb, Bool-cases, text_eq_iff, inl, inr,
}
use workspaces.Sandbox.Registry.Sql.{
  Row, Time, Sqlite, IsSqlite, meets_all, Query, id_is, IsNewestFirst as IsNewestFirst_rows,
}
use workspaces.Sandbox.Registry.{
  SandboxRecord, ListFilter, to_row, get, list, list_query, list_older_than, older_query,
  scan_first,
}
use workspaces.Sandbox.Registry.Spec.{is_record, find, passes, idle, IsNewestFirst, IsKeyed}
use workspaces.Sandbox.Registry.Tables.{table, scan_record-to_row, scan_rows-table}

module _ {A B : Type 0} (f : A → B) where
  -- A reordering of images is the image of a reordering.
  Permᴰ-map_inv :
      {ys zs : List B} (xs : List A)
      → Permᴰ ys zs
      → zs ≡ map f xs
      → (ws : List A) × (ys ≡ map f ws) × Permᴰ ws xs
  Permᴰ-map_inv [] Permᴰ.nil e = ([], refl, Permᴰ.nil)
  Permᴰ-map_inv (x ∷ xs) Permᴰ.nil e = cc
  Permᴰ-map_inv xs (Permᴰ.trans p q) e =
      let (ws, e₁, r₁) = Permᴰ-map_inv xs q e in
      let (vs, e₂, r₂) = Permᴰ-map_inv ws p e₁ in (vs, e₂, Permᴰ.trans r₂ r₁)
  Permᴰ-map_inv [] (Permᴰ.cons h p) e = cc
  Permᴰ-map_inv (x ∷ xs) (Permᴰ.cons h p) e =
      let (ws, e₁, r₁) = Permᴰ-map_inv xs p (cc) in (x ∷ ws, cc, Permᴰ.cons refl r₁)
  Permᴰ-map_inv [] (Permᴰ.swap h k) e = cc
  Permᴰ-map_inv (x ∷ []) (Permᴰ.swap h k) e = cc
  Permᴰ-map_inv (x ∷ y ∷ xs) (Permᴰ.swap h k) e = (y ∷ x ∷ xs, cc, Permᴰ.swap refl refl)

  select-map : (p : B → Bool) (xs : List A) → select p (map f xs) ≡ map f (select (λ x. p (f x)) xs)
  select-map p [] = refl
  select-map p (x ∷ xs) = ground (arith, select-map p xs)

module _ {A : Type 0} where
  Permᴰ-eq_nil : {ys zs : List A} → Permᴰ ys zs → zs ≡ [] → ys ≡ []
  Permᴰ-eq_nil Permᴰ.nil e = refl
  Permᴰ-eq_nil (Permᴰ.trans p q) e = Permᴰ-eq_nil p (Permᴰ-eq_nil q e)
  Permᴰ-eq_nil (Permᴰ.cons h p) e = cc
  Permᴰ-eq_nil (Permᴰ.swap h k) e = cc

  Permᴰ-eq_singleton : {ys zs : List A} (x : A) → Permᴰ ys zs → zs ≡ x ∷ [] → ys ≡ x ∷ []
  Permᴰ-eq_singleton x Permᴰ.nil e = e
  Permᴰ-eq_singleton x (Permᴰ.trans p q) e = Permᴰ-eq_singleton x p (Permᴰ-eq_singleton x q e)
  Permᴰ-eq_singleton x (Permᴰ.cons h p) e = let n = Permᴰ-eq_nil p (cc) in cc
  Permᴰ-eq_singleton x (Permᴰ.swap h k) e = cc

  -- A reordering passes every test of some element that the list passes.
  pub any-Permᴰ : (p : A → Bool) {ys zs : List A} → Permᴰ ys zs → any p ys ≡ any p zs
  any-Permᴰ p Permᴰ.nil = refl
  any-Permᴰ p (Permᴰ.cons h d) = rw (h, any-Permᴰ p d)
  any-Permᴰ p (Permᴰ.swap h k) = rw (h, k) (ground arith)
  any-Permᴰ p (Permᴰ.trans d e) = any-Permᴰ p d ∙ any-Permᴰ p e

  select-cong : (p q : A → Bool) → ((a : A) → p a ≡ q a) → (xs : List A) → select p xs ≡ select q xs
  select-cong p q h [] = refl
  select-cong p q h (x ∷ xs) = rw (h x, select-cong p q h xs)

select-find :
    (id : Text) (sbs : List SandboxRecord)
    → any (is_record id) sbs ≡ false
    → select (is_record id) sbs ≡ []
select-find id [] h = refl
select-find id (sb ∷ sbs) h = ground (arith, select-find id sbs)

pub any-select_absent :
    (id : Text) (p : SandboxRecord → Bool) (sbs : List SandboxRecord)
    → any (is_record id) sbs ≡ false
    → any (is_record id) (select p sbs) ≡ false
any-select_absent id p [] h = refl
any-select_absent id p (sb ∷ sbs) h = ground (arith, any-select_absent id p sbs)

-- What a read of an id returns from the record that it finds.
abbrev pub found : Option SandboxRecord → Result SandboxRecord
found none = err (wrapped (text "registry scan: ") no_rows)
found (some sb) = ok sb

module _ (S : Sqlite) (L : IsSqlite S) where
  -- The rows of a query are the records that meet its conditions, stored.
  query-table :
      (q : Query) (db : S.Db) (sbs : List SandboxRecord) (rs : List Row) (p : SandboxRecord → Bool)
      → S.rows db ≡ table S sbs
      → S.query q db ≡ ok (rs, none)
      → ((sb : SandboxRecord) → meets_all S q.conditions (to_row S sb) ≡ p sb)
      → (out : List SandboxRecord) × (rs ≡ table S out) × Permᴰ out (select p sbs)
  query-table q db sbs rs p stored answered same =
      Permᴰ-map_inv (to_row S) (select p sbs) (L.query_ok q db rs answered) (
        ap (select (meets_all S q.conditions)) stored
        ∙ select-map (to_row S) (meets_all S q.conditions) sbs
        ∙ ap (table S) (select-cong _ p same sbs))

  list_query-passes :
      (f : ListFilter) (sb : SandboxRecord)
      → meets_all S (list_query S f).conditions (to_row S sb) ≡ passes f sb
  unfolding list_query to_row
  list_query-passes f sb = ground arith

  older_query-idle :
      (cutoff : Time) (status : Text) (sb : SandboxRecord)
      → meets_all S (older_query S cutoff status).conditions (to_row S sb) ≡ idle cutoff status sb
  unfolding older_query to_row
  older_query-idle cutoff status sb = ground (arith, L.before-stamp sb.last_active cutoff)

  any-newer :
      (t : Time) (out : List SandboxRecord)
      → any (λ r. S.before (S.stamp t) r.created_at) (table S out)
        ≡ any (λ q. ltb t q.created_at) out
  unfolding to_row
  any-newer t [] = refl
  any-newer t (sb ∷ out) = rw (L.before-stamp t sb.created_at, any-newer t out)

  IsNewestFirst-table :
      (out : List SandboxRecord) → IsNewestFirst_rows S (table S out) → IsNewestFirst out
  unfolding to_row
  IsNewestFirst-table [] h = tt
  IsNewestFirst-table (sb ∷ out) (h, hs) =
      (sym (any-newer sb.created_at out) ∙ h, IsNewestFirst-table out hs)

  -- Over a database that stores a list of records, a list request that SQLite answers returns
  -- exactly the records that pass the filter, the newest first.
  pub list-passes :
      (f : ListFilter) (db : S.Db) (sbs : List SandboxRecord) (rs : List Row)
      → S.rows db ≡ table S sbs
      → S.query (list_query S f) db ≡ ok (rs, none)
      → (out : List SandboxRecord) × (list S f db ≡ ok out)
        × Permᴰ out (select (passes f) sbs)
        × IsNewestFirst out
  unfolding list list_query
  list-passes f db sbs rs stored answered =
      let (out, e, perm) =
        query-table (list_query S f) db sbs rs (passes f) stored answered (list_query-passes f) in
      (
        out,
        rw (answered, list, e) (rw (scan_rows-table S L out) refl),
        perm,
        IsNewestFirst-table out
            (subst (IsNewestFirst_rows S) e (L.query_order _ db rs answered refl)),
      )

  -- Over a database that stores a list of records, a search for idle records that SQLite answers
  -- returns exactly those of the status, or of any if it is empty, that were last active before
  -- the cutoff, in some order.
  pub list_older_than-idle :
      (cutoff : Time) (status : Text) (db : S.Db) (sbs : List SandboxRecord) (rs : List Row)
      → S.rows db ≡ table S sbs
      → S.query (older_query S cutoff status) db ≡ ok (rs, none)
      → (out : List SandboxRecord) × (list_older_than S cutoff status db ≡ (out, none))
        × Permᴰ out (select (idle cutoff status) sbs)
  unfolding list_older_than
  list_older_than-idle cutoff status db sbs rs stored answered =
      let (out, e, perm) =
        query-table (older_query S cutoff status) db sbs rs (idle cutoff status) stored answered
          (older_query-idle cutoff status) in
      (out, rw (answered, list_older_than, e) (rw (scan_rows-table S L out) refl), perm)

  id_is-is_record :
      (id : Text) (sb : SandboxRecord) → meets_all S (id_is id ∷ []) (to_row S sb) ≡ is_record id sb
  unfolding to_row
  id_is-is_record id sb = ground arith

  -- The first record of a reordering of the records of one id.
  first-found :
      (id : Text) (sbs out : List SandboxRecord)
      → IsKeyed sbs
      → Permᴰ out (select (is_record id) sbs)
      → scan_first S (table S out) none ≡ found (find id sbs)
  unfolding scan_first
  first-found id [] out keyed perm = rw (Permᴰ-eq_nil perm refl)
  first-found id (sb ∷ sbs) out (fresh, keyed) perm = elim (Bool-cases (is_record id sb)) [
    | inl same ↦
        let e = (text_eq_iff sb.id id).0 same in
        let none_left = select-find id sbs (rw e at fresh) in
        rw (Permᴰ-eq_singleton sb perm (ground arith), same) (scan_record-to_row S L sb)
    | inr differs ↦ rw differs (first-found id sbs out keyed (rw differs at perm))
  ]

  no_rows_read :
      (rs rest : List Row) (e : Error)
      → rs ++ rest ≡ []
      → (x : Error) × (scan_first S rs (some e) ≡ err x)
  unfolding scan_first
  no_rows_read [] rest e h = (wrapped (text "registry scan: ") e, refl)
  no_rows_read (r ∷ rs) rest e h = cc h

  absent_select :
      (id : Text) (sbs : List SandboxRecord) → find id sbs ≡ none → select (is_record id) sbs ≡ []
  absent_select id [] h = refl
  absent_select id (sb ∷ sbs) h = ground (arith, absent_select id sbs)

  -- A read of an id without a record that breaks off with an error returns an error.
  pub get_broken :
      (id : Text) (db : S.Db) (sbs : List SandboxRecord) (rs : List Row) {e : Error}
      → S.rows db ≡ table S sbs
      → find id sbs ≡ none
      → S.query (record { conditions = id_is id ∷ []; newest_first = false }) db ≡ ok (rs, some e)
      → (x : Error) × (get S id db ≡ err x)
  unfolding get
  get_broken id db sbs rs {e} stored absent broken =
      let (rest, perm) = L.query_part _ db rs broken in
      let none_meet : select (meets_all S (id_is id ∷ [])) (S.rows db) ≡ [] =
        ap (select (meets_all S (id_is id ∷ []))) stored
        ∙ select-map (to_row S) (meets_all S (id_is id ∷ [])) sbs
        ∙ ap (table S)
            (select-cong _ (is_record id) (id_is-is_record id) sbs ∙ absent_select id sbs absent) in
      rw (broken, get) (no_rows_read rs rest e (Permᴰ-eq_nil perm none_meet))

  -- Over a database that stores records of distinct ids, a read that SQLite answers returns the
  -- one record of the id, or the error of no rows.
  pub get-find :
      (id : Text) (db : S.Db) (sbs : List SandboxRecord) (rs : List Row)
      → S.rows db ≡ table S sbs
      → IsKeyed sbs
      → S.query (record { conditions = id_is id ∷ []; newest_first = false }) db ≡ ok (rs, none)
      → get S id db ≡ found (find id sbs)
  unfolding get
  get-find id db sbs rs stored keyed answered =
      let (out, e, perm) =
        query-table _ db sbs rs (is_record id) stored answered (id_is-is_record id) in
      rw (answered, get, e) (first-found id sbs out keyed perm)
