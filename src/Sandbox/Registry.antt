-- ===== src/Sandbox/Registry.antt =====
-- internal/sandbox/registry.go. SQLite is a parameter: a statement of the program is a value of
-- `Statement` or `Query`, and `Sqlite` runs it on a database.
pub mod Abstract
pub mod Sql
pub mod Spec
pub mod Tables
pub mod Refines
pub mod Queries
pub mod Changes
pub mod Contents
pub mod Open
pub mod Lifecycle
pub mod Listing
use workspaces.Common.{
  ℕ, Text, text, quote, is_empty, List, [], ◌∷◌, ◌++◌, Option, none, some, Result, ok, err, Error,
  message, wrapped, no_rows, wrap_err, if◌then◌else◌, true, false,
}
use workspaces.Common.Int.{ℤ}
use workspaces.Sandbox.Driver.{Status}
use workspaces.Sandbox.Registry.Sql.{
  Row, Time, Condition, id_is, status_is, project_is, active_before, Query, Statement, insert_row,
  update_row, delete_row, set_last_active, set_status_of, Sqlite, rfc3339_nano,
}

pub record SandboxRecord : Type 0 where
  pub id : Text
  pub ip : Text
  pub status : Status
  pub project_id : Text
  pub agent_role : Text
  pub created_at : Time
  pub last_active : Time
  pub mem_usage : ℤ
  pub transport : Text

pub record ListFilter : Type 0 where
  pub status : Text
  pub project_id : Text

-- The layouts that `parseTS` tries, in its order.
unfoldable pub ts_layouts : List Text
ts_layouts =
    rfc3339_nano
    ∷ text "2006-01-02T15:04:05Z07:00"
    ∷ text "2006-01-02 15:04:05.999999999-07:00"
    ∷ text "2006-01-02 15:04:05.999999999Z07:00"
    ∷ text "2006-01-02 15:04:05Z"
    ∷ text "2006-01-02 15:04:05"
    ∷ []

-- What `r.db.Exec` returned, with the caller's text in front of an error.
abbrev exec_err : Text → Option Error → Option Error
exec_err s none = none
exec_err s (some e) = some (wrapped s e)

module _ (S : Sqlite) where
  open S use {Db, exec, query, stamp, parse}

  -- `insert_row` with each column from the record.
  unfoldable pub to_row : SandboxRecord → Row
  to_row sb = record {
    id = sb.id;
    ip = sb.ip;
    status = sb.status;
    project_id = sb.project_id;
    agent_role = sb.agent_role;
    created_at = stamp sb.created_at;
    last_active = stamp sb.last_active;
    mem_usage = sb.mem_usage;
    transport = sb.transport;
  }

  unfoldable pub insert : SandboxRecord → Db → Option Error × Db
  unfolding to_row
  insert sb db =
      let r = exec (insert_row (to_row sb)) db in (exec_err (text "registry insert: ") r.0, r.1)

  unfoldable pub update : SandboxRecord → Db → Option Error × Db
  unfolding to_row
  update sb db =
      let r = exec (update_row sb.id (to_row sb)) db in
      (exec_err (text "registry update: ") r.0, r.1)

  unfoldable pub delete : Text → Db → Option Error × Db
  delete id db = let r = exec (delete_row id) db in (exec_err (text "registry delete: ") r.0, r.1)

  -- `now` is the time that `time.Now()` returns.
  unfoldable pub touch_last_active : Text → Time → Db → Option Error × Db
  touch_last_active id now db =
      let r = exec (set_last_active id (stamp now)) db in
      (exec_err (text "registry touch: ") r.0, r.1)

  unfoldable pub set_status : Text → Status → Db → Option Error × Db
  set_status id status db =
      let r = exec (set_status_of id status) db in
      (exec_err (text "registry set status: ") r.0, r.1)

  try_layouts : List Text → Text → Result Time
  try_layouts [] s = err (message (text "unknown timestamp format: " ++ quote s))
  try_layouts (l ∷ ls) s =
      let rest = try_layouts ls s in elim (parse l s) [ some t ↦ ok t | none ↦ rest ]

  unfoldable pub parse_ts : Text → Result Time
  unfolding try_layouts ts_layouts
  parse_ts s = try_layouts ts_layouts s

  unfoldable pub scan_record : Row → Result SandboxRecord
  unfolding parse_ts
  scan_record r = elim (parse_ts r.created_at) [
    | err e ↦ err (wrapped (text "registry parse created_at: ") e)
    | ok created ↦ elim (parse_ts r.last_active) [
      | err e ↦ err (wrapped (text "registry parse last_active: ") e)
      | ok active ↦ ok (record {
        id = r.id;
        ip = r.ip;
        status = r.status;
        project_id = r.project_id;
        agent_role = r.agent_role;
        created_at = created;
        last_active = active;
        mem_usage = r.mem_usage;
        transport = r.transport;
      })
    ]
  ]

  -- The loop over `rows.Next()`.
  unfoldable pub scan_rows : List Row → Result (List SandboxRecord)
  unfolding scan_record
  scan_rows [] = ok []
  scan_rows (r ∷ rs) = elim (scan_record r) [
    | err e ↦ err e
    | ok sb ↦ elim (scan_rows rs) [ err e ↦ err e | ok sbs ↦ ok (sb ∷ sbs) ]
  ]

  -- `QueryRow` with `Scan`: the first row, or the error that kept it from being read.
  scan_first : List Row → Option Error → Result SandboxRecord
  scan_first [] none = err (wrapped (text "registry scan: ") no_rows)
  scan_first [] (some e) = err (wrapped (text "registry scan: ") e)
  scan_first (r ∷ rs) o = scan_record r

  unfoldable pub get : Text → Db → Result SandboxRecord
  unfolding scan_first
  get id db = elim (query (record { conditions = id_is id ∷ []; newest_first = false }) db) [
    | err e ↦ err (wrapped (text "registry scan: ") e)
    | ok (rs, o) ↦ scan_first rs o
  ]

  -- A condition is added for each field of the filter that is set.
  unfoldable pub list_query : ListFilter → Query
  list_query f = record {
    conditions =
        (if is_empty f.status then [] else status_is f.status ∷ [])
        ++ (if is_empty f.project_id then [] else project_is f.project_id ∷ []);
    newest_first = true;
  }

  -- `out` is returned beside an error of `rows.Err()`, and the callers do not look at it then.
  unless : Option Error → Result (List SandboxRecord) → Result (List SandboxRecord)
  unless o (err e) = err e
  unless none (ok out) = ok out
  unless (some e) (ok out) = err e

  unfoldable pub list : ListFilter → Db → Result (List SandboxRecord)
  unfolding list_query scan_rows unless
  list f db = elim (query (list_query f) db) [
    | err e ↦ err (wrapped (text "registry list: ") e)
    | ok (rs, o) ↦ unless o (scan_rows rs)
  ]

  unfoldable pub older_query : Time → Text → Query
  older_query cutoff status = record {
    conditions =
        active_before (stamp cutoff) ∷ (if is_empty status then [] else status_is status ∷ []);
    newest_first = false;
  }

  -- A row that cannot be scanned leaves no list.
  beside : Option Error → Result (List SandboxRecord) → List SandboxRecord × Option Error
  beside o (err e) = ([], some e)
  beside o (ok out) = (out, o)

  -- The list, which the reaper goes through whatever the error beside it says.
  unfoldable pub list_older_than : Time → Text → Db → List SandboxRecord × Option Error
  unfolding older_query scan_rows beside
  list_older_than cutoff status db = elim (query (older_query cutoff status) db) [
    | err e ↦ ([], some (wrapped (text "registry list older than: ") e))
    | ok (rs, o) ↦ beside o (scan_rows rs)
  ]
