-- ===== src/Agent/Tools/Files.antt =====
-- The tools read_file and write_file of internal/agent/tools.go on the driver of
-- internal/sandbox/docker.go.
use workspaces.Common.{
  Text, text, is_empty, ◌++◌, true, false, ok, ◌≡◌, arith, Result-cases, Bool-cases, inl, inr,
  trim_right, decimal, length,
}
use workspaces.Sandbox.Driver.{Context}
use workspaces.Sandbox.Env.{Environ}
use workspaces.Sandbox.Docker.Client.{Client}
use workspaces.Sandbox.Docker.Setup.{World}
use workspaces.Sandbox.Docker.Paths.{slash, is_nested}
use workspaces.Sandbox.Docker.Files.{docker_driver}
use workspaces.Sandbox.Docker.Files
use workspaces.Sandbox.Docker.Effects.{IsFileStore, read_file-write_file}
use workspaces.Agent.Ollama.{Arguments}
use workspaces.Agent.Tools.{str_arg, parent_dir, make_parent, read_file, write_file}

module _ {W : Type 0} (C : Client W) (E : Environ) where
  -- A reply of the tool comes from a write of the driver, behind the directory.
  write_file-wrote :
      (ctx : Context (World C)) (id : Text) (args : Arguments) (s : World C) {reply : Text}
      → (write_file ctx id (docker_driver C E) args s).0 ≡ ok reply
      → let path = str_arg args (text "path") in
        let content = str_arg args (text "content") in
        (is_empty path ≡ false)
        × (reply ≡ text "wrote " ++ decimal (length content) ++ text " bytes to " ++ path)
        × (s' : World C) × ((Files.write_file C ctx id path content s').0 ≡ ok tt)
        × ((write_file ctx id (docker_driver C E) args s).1
            ≡ (Files.write_file C ctx id path content s').1)
  unfolding write_file
  write_file-wrote ctx id args s {reply} h =
      let path = str_arg args (text "path") in
      let content = str_arg args (text "content") in
      let made = make_parent ctx id (docker_driver C E) (parent_dir path) s in
      elim (Bool-cases (is_empty path)) [
        | inl e ↦ ground (arith, e)
        | inr e ↦ elim (Result-cases made.0) [
          | inr (x, f) ↦ ground (arith, e, f)
          | inl (_, f) ↦ elim (Result-cases (Files.write_file C ctx id path content made.1).0) [
            | inr (x, g) ↦ ground (arith, e, f, g)
            | inl (_, g) ↦ (e, ground (arith, e, f, g), made.1, g, ground (arith, e, f, g))
          ]
        ]
      ]

  -- If the tool write_file replies, which it does with the length of the content and the path, then
  -- the tool read_file replies for the same path with the content, on a Docker that gives back what
  -- was copied into a container, where the path has a directory and no slash at its end. Neither the
  -- attempt to make the directory nor a connection that is made on the way changes that.
  pub read_file_written :
      IsFileStore C
      → (ctx ctx' : Context (World C)) (id : Text) (args args' : Arguments) (s : World C)
        {reply : Text}
      → let path = str_arg args (text "path") in
        let content = str_arg args (text "content") in
        str_arg args' (text "path") ≡ path
        → trim_right slash path ≡ path
        → is_nested path ≡ true
        → (write_file ctx id (docker_driver C E) args s).0 ≡ ok reply
        → (reply ≡ text "wrote " ++ decimal (length content) ++ text " bytes to " ++ path)
          × ((read_file ctx' id
                (docker_driver C E)
                args'
                (write_file ctx id (docker_driver C E) args s).1).0
              ≡ ok content)
  unfolding read_file
  read_file_written F ctx ctx' id args args' s same clean nested h =
      let (given, said, s', written, left) = write_file-wrote ctx id args s h in
      (
        said,
        rw (same, given, left)
            (read_file-write_file C F ctx ctx' id (str_arg args (text "path"))
              (str_arg args (text "content")) s' clean nested written),
      )
