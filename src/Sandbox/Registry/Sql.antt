-- ===== src/Sandbox/Registry/Sql.antt =====
-- The SQL of internal/sandbox/registry.go: the table `sandboxes`, the statements that the program
-- sends, what each of them means by the rules of SQL, and SQLite itself as a parameter.
use mathlib.Core.List.{Permᴰ}
use workspaces.Common.{
  ℕ, Text, text_eq, List, [], ◌∷◌, ◌++◌, Bool, true, false, ◌&&◌, ◌≡◌, Option, none, some, Result,
  ok, Error, any, select, text, ltb, if◌then◌else◌,
}
use workspaces.Common.Int.{ℤ}

-- Nanoseconds since an origin that lies before every time of the program.
abbrev pub Time : Type 0
Time = ℕ

-- `time.RFC3339Nano`.
unfoldable pub rfc3339_nano : Text
rfc3339_nano = text "2006-01-02T15:04:05.999999999Z07:00"

-- A row; the times are the texts that the table stores.
pub record Row : Type 0 where
  pub id : Text
  pub ip : Text
  pub status : Text
  pub project_id : Text
  pub agent_role : Text
  pub created_at : Text
  pub last_active : Text
  pub mem_usage : ℤ
  pub transport : Text

-- The conditions that a `WHERE` clause joins by `AND`.
pub data Condition : Type 0 where
  id_is : Text → Condition
  status_is : Text → Condition
  project_is : Text → Condition
  active_before : Text → Condition

pub record Query : Type 0 where
  pub conditions : List Condition
  -- `ORDER BY created_at DESC`
  pub newest_first : Bool

pub data Statement : Type 0 where
  insert_row : Row → Statement
  -- every column but `id` and `created_at`, from the row
  update_row : Text → Row → Statement
  delete_row : Text → Statement
  set_last_active : Text → Text → Statement
  set_status_of : Text → Text → Statement

abbrev pub has_id : Text → Row → Bool
has_id id r = text_eq r.id id

-- `SET …`: what an `UPDATE` does to a row that its `WHERE id=?` selects.
abbrev pub on_id : Text → (Row → Row) → Row → Row
on_id id f r = if has_id id r then f r else r

abbrev pub update_all : (Row → Row) → List Row → List Row
update_all f [] = []
update_all f (r ∷ rs) = f r ∷ update_all f rs

abbrev pub delete_id : Text → List Row → List Row
delete_id id [] = []
delete_id id (r ∷ rs) = if has_id id r then delete_id id rs else r ∷ delete_id id rs

abbrev pub replace_columns : Row → Row → Row
replace_columns new r = record new { id = r.id; created_at = r.created_at }

-- The table after a statement; `none` where the primary key refuses the row.
unfoldable pub effect : Statement → List Row → Option (List Row)
effect (insert_row new) rs = if any (has_id new.id) rs then none else some (rs ++ new ∷ [])
effect (update_row id new) rs = some (update_all (on_id id (replace_columns new)) rs)
effect (delete_row id) rs = some (delete_id id rs)
effect (set_last_active id t) rs =
    some (update_all (on_id id (λ r. record r { last_active = t })) rs)
effect (set_status_of id s) rs = some (update_all (on_id id (λ r. record r { status = s })) rs)

-- The engine, the way its driver stores a `time.Time`, and `time.Parse`.
pub record Sqlite : Type 1 where
  pub Db : Type 0
  pub rows : Db → List Row
  pub exec : Statement → Db → Option Error × Db
  -- the rows that were read, and what `rows.Err()` says when there are no more; an error of `Query`
  pub query : Query → Db → Result (List Row × Option Error)
  -- the text under which a time is bound, and scanned back
  pub stamp : Time → Text
  -- `<` on two stored times
  pub before : Text → Text → Bool
  -- `time.Parse(layout, s)`
  pub parse : Text → Text → Option Time

module _ (S : Sqlite) where
  -- A row meets a condition.
  abbrev pub meets : Condition → Row → Bool
  meets (id_is id) r = text_eq r.id id
  meets (status_is s) r = text_eq r.status s
  meets (project_is p) r = text_eq r.project_id p
  meets (active_before t) r = S.before r.last_active t

  abbrev pub meets_all : List Condition → Row → Bool
  meets_all [] r = true
  meets_all (c ∷ cs) r = meets c r && meets_all cs r

  -- No row was created later than the one before it.
  abbrev pub IsNewestFirst : List Row → Type 0
  IsNewestFirst [] = Unit
  IsNewestFirst (r ∷ rs) =
      (any (λ q. S.before r.created_at q.created_at) rs ≡ false) × IsNewestFirst rs

  -- What SQLite and its driver promise. A statement that succeeds has its effect, one that fails
  -- has none. A query returns the rows that meet its conditions, in some order. A stored time is
  -- scanned back in the layout RFC3339Nano.
  pub record IsSqlite : Type 0 where
    pub exec_ok :
        (s : Statement) (db : S.Db)
        → (S.exec s db).0 ≡ none
        → effect s (S.rows db) ≡ some (S.rows (S.exec s db).1)
    pub exec_failed :
        (s : Statement) (db : S.Db) (e : Error)
        → (S.exec s db).0 ≡ some e
        → S.rows (S.exec s db).1 ≡ S.rows db
    pub query_ok :
        (q : Query) (db : S.Db) (rs : List Row)
        → S.query q db ≡ ok (rs, none)
        → Permᴰ rs (select (meets_all q.conditions) (S.rows db))
    -- what was read when an error came is a part of that
    pub query_part :
        (q : Query) (db : S.Db) (rs : List Row) {e : Error}
        → S.query q db ≡ ok (rs, some e)
        → (rest : List Row) × Permᴰ (rs ++ rest) (select (meets_all q.conditions) (S.rows db))
    pub query_order :
        (q : Query) (db : S.Db) (rs : List Row)
        → S.query q db ≡ ok (rs, none)
        → q.newest_first ≡ true
        → IsNewestFirst rs
    pub before-stamp : (a b : Time) → S.before (S.stamp a) (S.stamp b) ≡ ltb a b
    pub parse-stamp : (t : Time) → S.parse rfc3339_nano (S.stamp t) ≡ some t

  -- An engine that is in order: it refuses only what the primary key refuses, and answers queries.
  pub record IsHealthy : Type 0 where
    pub accepts :
        (s : Statement) (db : S.Db) (rs : List Row)
        → effect s (S.rows db) ≡ some rs
        → (S.exec s db).0 ≡ none
    pub answers : (q : Query) (db : S.Db) → (rs : List Row) × (S.query q db ≡ ok (rs, none))
