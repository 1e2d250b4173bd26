-- ===== src/Sandbox/Registry/Open.antt =====
-- `NewRegistry` and `migrate` of internal/sandbox/registry.go. The file system and the database
-- driver are a parameter; a call of the SDK is a step on the world `W`.
use workspaces.Common.{Text, text, is_empty, ◌++◌, Step, context, ◌>>=◌, ◌>>◌, if◌then◌else◌}
use workspaces.Sandbox.Env.{Environ}
use workspaces.Sandbox.Registry.Sql.{Sqlite}

pub record Opener (S : Sqlite) (W : Type 0) : Type 0 where
  -- `filepath.Dir`
  pub dir : Text → Text
  -- `os.MkdirAll(path, 0755)`
  pub mkdir_all : Text → Step W (Unit {0})
  -- `sql.Open("sqlite", path)`, and then `SetMaxOpenConns(1)`
  pub open_db : Text → Step W S.Db
  -- `db.Exec(stmt)` of a statement without parameters
  pub exec_text : Text → S.Db → Step W S.Db

unfoldable pub default_path : Text
default_path = text "./data/forge.db"

unfoldable pub wal_pragma : Text
wal_pragma = text "PRAGMA journal_mode=WAL"

unfoldable pub create_table : Text
create_table =
    text
      "CREATE TABLE IF NOT EXISTS sandboxes (\n\t\tid          TEXT PRIMARY KEY,\n\t\tip          TEXT NOT NULL,\n\t\tstatus      TEXT NOT NULL,\n\t\tproject_id  TEXT,\n\t\tagent_role  TEXT,\n\t\tcreated_at  TIMESTAMP NOT NULL,\n\t\tlast_active TIMESTAMP NOT NULL,\n\t\tmem_usage   INTEGER DEFAULT 0,\n\t\ttransport   TEXT DEFAULT 'none'\n\t)"

-- The path that is opened: the argument, else the environment's, else the default.
unfoldable pub choose_path : Environ → Text → Text
unfolding default_path
choose_path E path =
    let given = if is_empty path then E.getenv (text "FORGE_DB_PATH") else path in
    if is_empty given then default_path else given

module _ (S : Sqlite) {W : Type 0} (O : Opener S W) where
  unfoldable pub migrate : S.Db → Step W S.Db
  unfolding create_table
  migrate db = context (text "registry: migrate: ") (O.exec_text create_table db)

  unfoldable pub open_at : Text → Step W S.Db
  unfolding migrate wal_pragma
  open_at path = do
    context (text "registry: mkdir " ++ O.dir path ++ text ": ") (O.mkdir_all (O.dir path))
    db ← context (text "registry: open " ++ path ++ text ": ") (O.open_db path)
    db' ← context (text "registry: WAL pragma: ") (O.exec_text wal_pragma db)
    migrate db'

  unfoldable pub new_registry : Environ → Text → Step W S.Db
  unfolding open_at choose_path
  new_registry E path = open_at (choose_path E path)
