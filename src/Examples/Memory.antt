-- ===== src/Examples/Memory.antt =====
-- A SQLite that keeps its rows in a list, with times that are stored as one number.
use mathlib.Core.Path.{subst}
use mathlib.Core.List.{Permᴰ}
use mathlib.Core.List.Permᴰ
use workspaces.Common.{
  Result, ℕ, Text, text, text_eq, List, [], ◌∷◌, Bool, true, false, ◌&&◌, ◌||◌, ◌≡◌, refl, Option,
  none, some, ok, Error, foreign, any, select, ltb, if◌then◌else◌, arith, Bool-cases, inl, inr,
}
use workspaces.Sandbox.Registry.Sql.{
  Row, Time, Query, Statement, effect, Sqlite, IsSqlite, IsHealthy, IsNewestFirst, meets_all,
  rfc3339_nano,
}
use workspaces.Sandbox.Registry.Sql

abbrev stored : Text → ℕ
stored [] = 0
stored (n ∷ s) = n

abbrev earlier : Text → Text → Bool
earlier a b = ltb (stored a) (stored b)

abbrev parse : Text → Text → Option Time
parse layout (n ∷ []) = some n
parse layout _ = none

abbrev place : Row → List Row → List Row
place r [] = r ∷ []
place r (q ∷ rs) = if earlier r.created_at q.created_at then q ∷ place r rs else r ∷ q ∷ rs

abbrev sort : List Row → List Row
sort [] = []
sort (r ∷ rs) = place r (sort rs)

abbrev answer : Option (List Row) → List Row → Option Error × List Row
answer none db = (some (foreign (text "UNIQUE constraint failed: sandboxes.id")), db)
answer (some rs) db = (none, rs)

abbrev conditions_hold : List Sql.Condition → Row → Bool
conditions_hold [] r = true
conditions_hold (Sql.id_is id ∷ cs) r = text_eq r.id id && conditions_hold cs r
conditions_hold (Sql.status_is s ∷ cs) r = text_eq r.status s && conditions_hold cs r
conditions_hold (Sql.project_is p ∷ cs) r = text_eq r.project_id p && conditions_hold cs r
conditions_hold (Sql.active_before t ∷ cs) r = earlier r.last_active t && conditions_hold cs r

abbrev pub memory : Sqlite
memory = record {
  Db = List Row;
  rows = λ db. db;
  exec = λ s db. answer (effect s db) db;
  query = λ q db.
      let found = select (conditions_hold q.conditions) db in
      ok (if q.newest_first then sort found else found, none);
  stamp = λ t. t ∷ [];
  before = earlier;
  parse = parse;
}

place-Permᴰ : (r : Row) (rs : List Row) → Permᴰ (place r rs) (r ∷ rs)
place-Permᴰ r [] = Permᴰ.refl (r ∷ [])
place-Permᴰ r (q ∷ rs) = elim (Bool-cases (earlier r.created_at q.created_at)) [
  | inl e ↦ rw e (Permᴰ.trans (Permᴰ.cons refl (place-Permᴰ r rs)) (Permᴰ.swap refl refl))
  | inr e ↦ rw e (Permᴰ.refl (r ∷ q ∷ rs))
]

sort-Permᴰ : (rs : List Row) → Permᴰ (sort rs) rs
sort-Permᴰ [] = Permᴰ.nil
sort-Permᴰ (r ∷ rs) = Permᴰ.trans (place-Permᴰ r (sort rs)) (Permᴰ.cons refl (sort-Permᴰ rs))

-- No row of a list was created later than a time.
abbrev none_later : Text → List Row → Bool
none_later t rs = any (λ q. earlier t q.created_at) rs

none_later-place :
    (t : Text) (r : Row) (rs : List Row)
    → none_later t (place r rs) ≡ (earlier t r.created_at || none_later t rs)
none_later-place t r [] = ground arith
none_later-place t r (q ∷ rs) = ground (arith, none_later-place t r rs)

none_later-earlier :
    (t u : Text) (rs : List Row)
    → none_later t rs ≡ false
    → earlier u t ≡ false
    → none_later u rs ≡ false
none_later-earlier t u [] h k = refl
none_later-earlier t u (r ∷ rs) h k = ground (arith, none_later-earlier t u rs)

place-IsNewestFirst :
    (r : Row) (rs : List Row) → IsNewestFirst memory rs → IsNewestFirst memory (place r rs)
place-IsNewestFirst r [] h = (refl, tt)
place-IsNewestFirst r (q ∷ rs) (h, hs) = elim (Bool-cases (earlier r.created_at q.created_at)) [
  | inl e ↦ rw e (ground (arith, none_later-place q.created_at r rs), place-IsNewestFirst r rs hs)
  | inr e ↦ rw e (ground (arith, none_later-earlier q.created_at r.created_at rs), (h, hs))
]

sort-IsNewestFirst : (rs : List Row) → IsNewestFirst memory (sort rs)
sort-IsNewestFirst [] = tt
sort-IsNewestFirst (r ∷ rs) = place-IsNewestFirst r (sort rs) (sort-IsNewestFirst rs)

conditions_hold-meets_all :
    (cs : List Sql.Condition) (r : Row) → conditions_hold cs r ≡ meets_all memory cs r
conditions_hold-meets_all [] r = refl
conditions_hold-meets_all (Sql.id_is id ∷ cs) r = rw (conditions_hold-meets_all cs r) refl
conditions_hold-meets_all (Sql.status_is s ∷ cs) r = rw (conditions_hold-meets_all cs r) refl
conditions_hold-meets_all (Sql.project_is p ∷ cs) r = rw (conditions_hold-meets_all cs r) refl
conditions_hold-meets_all (Sql.active_before t ∷ cs) r = rw (conditions_hold-meets_all cs r) refl

select-meets_all :
    (cs : List Sql.Condition) (rs : List Row)
    → select (conditions_hold cs) rs ≡ select (meets_all memory cs) rs
select-meets_all cs [] = refl
select-meets_all cs (r ∷ rs) = rw (select-meets_all cs rs, conditions_hold-meets_all cs r) refl

answer_ok :
    (o : Option (List Row)) (db : List Row) → (answer o db).0 ≡ none → o ≡ some (answer o db).1
answer_ok none db h = ground arith
answer_ok (some rs) db h = refl

answer_failed :
    (o : Option (List Row)) (db : List Row) (e : Error)
    → (answer o db).0 ≡ some e
    → (answer o db).1 ≡ db
answer_failed none db e h = refl
answer_failed (some rs) db e h = ground arith

answer_accepts : (o : Option (List Row)) (db rs : List Row) → o ≡ some rs → (answer o db).0 ≡ none
answer_accepts none db rs h = ground arith
answer_accepts (some _) db rs h = refl

sorted-Permᴰ :
    (newest_first : Bool) (found rs : List Row)
    → ◌≡◌ {A = Result (List Row × Option Error)}
        (ok (if newest_first then sort found else found, none))
        (ok (rs, none))
    → Permᴰ rs found
sorted-Permᴰ true found rs h = subst (λ xs. Permᴰ xs found) (ground arith) (sort-Permᴰ found)
sorted-Permᴰ false found rs h = subst (λ xs. Permᴰ xs found) (ground arith) (Permᴰ.refl found)

sorted-IsNewestFirst :
    (newest_first : Bool) (found rs : List Row)
    → ◌≡◌ {A = Result (List Row × Option Error)}
        (ok (if newest_first then sort found else found, none))
        (ok (rs, none))
    → newest_first ≡ true
    → IsNewestFirst memory rs
sorted-IsNewestFirst true found rs h k =
    subst (IsNewestFirst memory) (ground arith) (sort-IsNewestFirst found)
sorted-IsNewestFirst false found rs h k = ground arith

pub memory-IsSqlite : IsSqlite memory
memory-IsSqlite = record {
  exec_ok = λ s db. answer_ok (effect s db) db;
  exec_failed = λ s db. answer_failed (effect s db) db;
  query_ok = λ q db rs h.
      subst (Permᴰ rs) (select-meets_all q.conditions db)
        (sorted-Permᴰ q.newest_first (select (conditions_hold q.conditions) db) rs h);
  query_part = λ q db rs h. cc h;
  query_order =
      λ q db rs. sorted-IsNewestFirst q.newest_first (select (conditions_hold q.conditions) db) rs;
  before-stamp = λ a b. refl;
  parse-stamp = λ t. refl;
}

pub memory-IsHealthy : IsHealthy memory
memory-IsHealthy = record {
  accepts = λ s db. answer_accepts (effect s db) db;
  answers = λ q db. (_, refl);
}
