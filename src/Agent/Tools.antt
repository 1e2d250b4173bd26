-- ===== src/Agent/Tools.antt =====
-- internal/agent/tools.go: the tools, what each does in a sandbox, and their registry.
pub mod Files
pub mod Output
pub mod Roles
pub mod Paths
use workspaces.Common.{
  ℕ, zero, suc, Text, text, text_eq, is_empty, List, [], ◌∷◌, ◌++◌, Bool, true, false, not, ◌&&◌,
  Option, none, some, Result, ok, err, Error, message, wrapped, Step, attempt, ◌>>=◌, ◌>>◌, pure,
  fail, context, if◌then◌else◌, trim_right, join, decimal, length, last_index, take, ◌==◌,
}
use workspaces.Common.Int.{ℤ, pos, decimal_ℤ}
use workspaces.Sandbox.Driver.{Context, Driver, ExecResult}
use workspaces.Agent.Role.{Role, tool_names_for_role}
use workspaces.Agent.Ollama.{Arguments, ToolParam, ToolFuncParams, ToolFunction, ToolDef}

-- `strArg`
unfoldable pub str_arg : Arguments → Text → Text
str_arg [] key = []
str_arg ((k, v) ∷ args) key = if text_eq k key then v else str_arg args key

abbrev pub is_zero : ℤ → Bool
is_zero (pos zero) = true
is_zero _ = false

-- A heading and a stream, unless the stream is empty.
abbrev section : Text → Text → List Text
section heading stream = if is_empty stream then [] else (heading ++ stream) ∷ []

-- What `execCmd` makes of a result.
unfoldable pub format_result : ExecResult → Text
format_result res =
    let out = trim_right b'\n' res.stdout in
    let errs = trim_right b'\n' res.stderr in
    let parts =
      section (text "[stdout]\n") out
      ++ section (text "[stderr]\n") errs
      ++ (text "[exit_code=" ++ decimal_ℤ res.exit_code ++ text "]") ∷ [] in
    join (text "\n") (
      if is_empty out && is_empty errs && is_zero res.exit_code
      then text "(command produced no output)" ∷ parts
      else parts)

-- `path[:strings.LastIndex(path, "/")+1]`
unfoldable pub parent_dir : Text → Text
parent_dir path = elim (last_index path b'/') [ some i ↦ take (suc i) path | none ↦ [] ]

unfoldable pub mkdir_command : Text → Text
mkdir_command dir = text "mkdir -p " ++ dir

abbrev pub Execute : Type 0 → Type 0
Execute W = Context W → Text → Driver W → Arguments → Step W Text

module _ {W : Type 0} where
  unfoldable pub exec_cmd : Context W → Text → Driver W → Text → Step W Text
  exec_cmd ctx sandbox drv cmd = do res ← drv.exec ctx sandbox cmd; pure (format_result res)

  unfoldable pub bash : Execute W
  unfolding exec_cmd
  bash ctx sandbox drv args =
      let cmd = str_arg args (text "command") in
      if is_empty cmd
      then fail (message (text "bash: command is required"))
      else exec_cmd ctx sandbox drv cmd

  unfoldable pub read_file : Execute W
  read_file ctx sandbox drv args =
      let path = str_arg args (text "path") in
      if is_empty path
      then fail (message (text "read_file: path is required"))
      else drv.read_file ctx sandbox path

  -- The exit code of `mkdir` is not looked at.
  make_parent : Context W → Text → Driver W → Text → Step W (Unit {0})
  make_parent ctx sandbox drv dir =
      if not (is_empty dir) && not (text_eq dir (text "/"))
      then (do
        _ ← context (text "write_file: mkdir: ") (drv.exec ctx sandbox (mkdir_command dir))
        pure tt)
      else pure tt

  unfoldable pub write_file : Execute W
  unfolding make_parent
  write_file ctx sandbox drv args =
      let path = str_arg args (text "path") in
      let content = str_arg args (text "content") in
      if is_empty path then fail (message (text "write_file: path is required")) else (do
        make_parent ctx sandbox drv (parent_dir path)
        drv.write_file ctx sandbox path content
        pure (text "wrote " ++ decimal (length content) ++ text " bytes to " ++ path))

pub record Tool (W : Type 0) : Type 0 where
  pub name : Text
  pub description : Text
  pub parameters : ToolFuncParams
  pub execute : Execute W

-- The map of a registry, without its hash order.
abbrev pub ToolRegistry : Type 0 → Type 0
ToolRegistry W = List (Tool W)

module _ {W : Type 0} where
  -- `r.tools[t.Name] = t`
  unfoldable pub register : ToolRegistry W → Tool W → ToolRegistry W
  register [] t = t ∷ []
  register (u ∷ us) t = if text_eq u.name t.name then t ∷ us else u ∷ register us t

  unfoldable pub get : ToolRegistry W → Text → Option (Tool W)
  get [] name = none
  get (t ∷ ts) name = if text_eq t.name name then some t else get ts name

  abbrev pub def_of : Tool W → ToolDef
  def_of t = record {
    type_name = text "function";
    function = record { name = t.name; description = t.description; parameters = t.parameters };
  }

  -- The loop of `DefsForRole` passes over a name that is not registered.
  unfoldable pub defs_of : ToolRegistry W → List Text → List ToolDef
  unfolding get
  defs_of reg [] = []
  defs_of reg (n ∷ names) =
      let rest = defs_of reg names in elim (get reg n) [ some t ↦ def_of t ∷ rest | none ↦ rest ]

  unfoldable pub defs_for_role : ToolRegistry W → Role → List ToolDef
  unfolding defs_of
  defs_for_role reg role = defs_of reg (tool_names_for_role role)
