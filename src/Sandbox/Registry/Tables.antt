-- ===== src/Sandbox/Registry/Tables.antt =====
-- The table that stores a list of records, and what the statements do to such a table.
use mathlib.Core.Path.{ap}
use mathlib.Core.Option
use mathlib.Core.List.{map-append}
use workspaces.Common.{Text, List, [], ◌∷◌, ◌≡◌, refl, some, any, map, arith, ok}
use workspaces.Sandbox.Registry.Sql.{
  Row, Time, effect, Sqlite, IsSqlite, has_id, on_id, update_all, delete_id, insert_row, update_row,
  delete_row, set_last_active, set_status_of, Statement,
}
use workspaces.Sandbox.Registry.{SandboxRecord, to_row, scan_record, scan_rows, parse_ts}
use workspaces.Sandbox.Registry.Spec.{
  Write, insert, update, delete, touch, set_status, written, is_record, adjust, remove,
}

module _ (S : Sqlite) where
  -- The stored form of a list of records.
  abbrev pub table : List SandboxRecord → List Row
  table = map (to_row S)

  -- The SQL statement that a write sends.
  unfoldable pub statement : Write → Statement
  statement (insert sb) = insert_row (to_row S sb)
  statement (update sb) = update_row sb.id (to_row S sb)
  statement (delete id) = delete_row id
  statement (touch id t) = set_last_active id (S.stamp t)
  statement (set_status id s) = set_status_of id s

  any-table :
      (id : Text) (sbs : List SandboxRecord) → any (has_id id) (table sbs) ≡ any (is_record id) sbs
  unfolding to_row
  any-table id [] = refl
  any-table id (sb ∷ sbs) = rw (any-table id sbs)

  delete_id-table :
      (id : Text) (sbs : List SandboxRecord) → delete_id id (table sbs) ≡ table (remove id sbs)
  unfolding to_row
  delete_id-table id [] = refl
  delete_id-table id (sb ∷ sbs) = ground (arith, delete_id-table id sbs)

  update_all-table :
      (id : Text) (f : SandboxRecord → SandboxRecord) (g : Row → Row)
      → ((sb : SandboxRecord) → g (to_row S sb) ≡ to_row S (f sb))
      → (sbs : List SandboxRecord) → update_all (on_id id g) (table sbs) ≡ table (adjust id f sbs)
  unfolding to_row
  update_all-table id f g h [] = refl
  update_all-table id f g h (sb ∷ sbs) = ground (arith, update_all-table id f g h sbs, h sb)

  -- A statement does to the stored table what its write does to the records.
  pub effect-statement :
      (w : Write) (sbs : List SandboxRecord)
      → effect (statement w) (table sbs) ≡ Option.map table (written w sbs)
  unfolding effect statement written to_row
  effect-statement (insert sb) sbs =
      rw any-table (ground (arith, map-append (to_row S) sbs (sb ∷ [])))
  effect-statement (update sb) sbs = ap some (update_all-table sb.id _ _ (λ _. refl) sbs)
  effect-statement (delete id) sbs = ap some (delete_id-table id sbs)
  effect-statement (touch id t) sbs = ap some (update_all-table id _ _ (λ _. refl) sbs)
  effect-statement (set_status id s) sbs = ap some (update_all-table id _ _ (λ _. refl) sbs)

  module _ (L : IsSqlite S) where
    parse_ts-stamp : (t : Time) → parse_ts S (S.stamp t) ≡ ok t
    unfolding parse_ts
    parse_ts-stamp t = rw (L.parse-stamp t)

    -- A stored record is scanned back.
    pub scan_record-to_row : (sb : SandboxRecord) → scan_record S (to_row S sb) ≡ ok sb
    unfolding scan_record to_row
    scan_record-to_row sb = rw (parse_ts-stamp sb.created_at, parse_ts-stamp sb.last_active)

    -- The rows that store a list of records are scanned back to these records, in the same order.
    pub scan_rows-table : (sbs : List SandboxRecord) → scan_rows S (table sbs) ≡ ok sbs
    unfolding scan_rows
    scan_rows-table [] = refl
    scan_rows-table (sb ∷ sbs) = rw (scan_record-to_row sb, scan_rows-table sbs)
