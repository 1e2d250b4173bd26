-- ===== src/Sandbox/Fleet/Tools.antt =====
-- The tools of internal/agent/tools.go and the sandboxes that there are.
use workspaces.Common.{
  ℕ, Text, text, text_eq, is_empty, [], ◌∷◌, not, ◌&&◌, ◌≡◌, some, All, arith, Bool-cases,
  Result-cases, inl, inr,
}
use mathlib.Core.Path.{subst}
use workspaces.Sandbox.Driver.{Driver, Context}
use workspaces.Sandbox.Fleet.{IsFleet}
use workspaces.Agent.Ollama.{Arguments, ChatRequest}
use workspaces.Agent.Tools.{
  Tool, ToolRegistry, get, exec_cmd, bash, read_file, write_file, str_arg, mkdir_command,
  parent_dir,
}
use workspaces.Agent.Catalog.{new_tool_registry}
use workspaces.Agent.Engine.{Engine}
use workspaces.Agent.Engine.Frame.{IsCalm}

get-All :
    {W : Type 0} (P : Tool W → Type 0) (tools : ToolRegistry W) (name : Text) {tool : Tool W}
    → All P tools
    → get tools name ≡ some tool
    → P tool
unfolding get
get-All P [] name h found = cc found
get-All P (t ∷ ts) name (p, ps) found = elim (Bool-cases (text_eq t.name name)) [
  | inl e ↦ subst P (ground (arith, e, found)) p
  | inr e ↦ get-All P ts name ps (rw (e, get) at found)
]

module _ {W : Type 0} (D : Driver W) (IsName : Text → Type 0) (Lives : Text → W → Type 0)
    (F : IsFleet D IsName Lives) (i : Text) where
  exec_cmd-keeps :
      (ctx : Context W) (id cmd : Text) (w : W) → Lives i w → Lives i (exec_cmd ctx id D cmd w).1
  unfolding exec_cmd
  exec_cmd-keeps ctx id cmd w living =
      subst (Lives i) (ground arith) (F.exec_keeps ctx id cmd w living)

  bash-keeps :
      (ctx : Context W) (id : Text) (args : Arguments) (w : W)
      → Lives i w
      → Lives i (bash ctx id D args w).1
  unfolding bash
  bash-keeps ctx id args w living = elim (Bool-cases (is_empty (str_arg args (text "command")))) [
    | inl e ↦ rw (e, bash) living
    | inr e ↦ rw (e, bash) (exec_cmd-keeps ctx id (str_arg args (text "command")) w living)
  ]

  read_file-keeps :
      (ctx : Context W) (id : Text) (args : Arguments) (w : W)
      → Lives i w
      → Lives i (read_file ctx id D args w).1
  unfolding read_file
  read_file-keeps ctx id args w living = elim (Bool-cases (is_empty (str_arg args (text "path")))) [
    | inl e ↦ rw (e, read_file) living
    | inr e ↦ rw (e, read_file) (F.read_file_keeps ctx id (str_arg args (text "path")) w living)
  ]

  write_file-keeps :
      (ctx : Context W) (id : Text) (args : Arguments) (w : W)
      → Lives i w
      → Lives i (write_file ctx id D args w).1
  unfolding write_file
  write_file-keeps ctx id args w living =
      let path = str_arg args (text "path") in
      let content = str_arg args (text "content") in
      let dir = parent_dir path in
      let made = D.exec ctx id (mkdir_command dir) w in
      elim (Bool-cases (is_empty path)) [
        | inl e ↦ subst (Lives i) (ground (arith, e)) living
        | inr e ↦ elim (Bool-cases (not (is_empty dir) && not (text_eq dir (text "/")))) [
          | inl k ↦ elim (Result-cases made.0) [
            | inl (_, m) ↦ subst (Lives i) (ground (arith, e, k, m)) (
                F.write_file_keeps ctx id path content made.1
                  (F.exec_keeps ctx id (mkdir_command dir) w living))
            | inr (f, m) ↦
                subst (Lives i) (ground (arith, e, k, m))
                  (F.exec_keeps ctx id (mkdir_command dir) w living)
          ]
          | inr k ↦
              subst (Lives i) (ground (arith, e, k))
                (F.write_file_keeps ctx id path content w living)
        ]
      ]

  -- An engine with the tools of `NewToolRegistry` on the driver spoils no sandbox, if neither the
  -- model nor waiting does.
  pub tools-IsCalm :
      (E : Engine W)
      → E.sandbox ≡ D
      → E.tools ≡ new_tool_registry W
      → ((ctx : Context W) (req : ChatRequest) (w : W) → Lives i w → Lives i (E.chat ctx req w).1)
      → ((ctx : Context W) (ms : ℕ) (w : W) → Lives i w → Lives i (E.wait ctx ms w).1)
      → IsCalm E (Lives i)
  unfolding new_tool_registry
  tools-IsCalm E here known chats waits = record {
    chat_keeps = chats;
    tool_keeps = λ name {tool} found ctx id args w living. rw here (
        get-All
          (λ t.
            (ctx : Context W) (id : Text) (args : Arguments) (w : W)
            → Lives i w
            → Lives i (t.execute ctx id D args w).1)
          (new_tool_registry W) name
          (
            bash-keeps,
            (
              read_file-keeps,
              (
                write_file-keeps,
                (
                  λ c s a v h. h,
                  (λ c s a v h. h, (λ c s a v h. h, (λ c s a v h. h, (λ c s a v h. h, tt)))),
                ),
              ),
            ),
          )
          (rw known at found) ctx id args w living);
    wait_keeps = waits;
  }
