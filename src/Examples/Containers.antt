-- ===== src/Examples/Containers.antt =====
-- The Docker driver on a daemon that cannot start containers and finds no user forge.
use workspaces.Common.{
  Result, Text, text, text_eq, List, [], ◌∷◌, true, false, ◌&&◌, ◌≡◌, refl, none, ok, if◌then◌else◌,
  trim_right, last_index, ◌++◌, decimal, length, contains, succeeded,
}
use workspaces.Common.Int.{pos}
use workspaces.Sandbox.Driver.{Config, running}
use workspaces.Sandbox.Env.{Environ}
use workspaces.Sandbox.Docker.Client.{fresh, lookup}
use workspaces.Sandbox.Registry.Sql.{Row, effect}
use workspaces.Sandbox.Registry
use workspaces.Sandbox.Registry.Tables.{table}
use workspaces.Api.Response.{Response}
use workspaces.Api.Sandboxes.{CreateSandboxRequest, handle_create_sandbox}
use workspaces.Api.Sandboxes.Containers.{IsKept, Orphan, handle_create_sandbox-IsKept}
use workspaces.Sandbox.Docker.Setup.{World, init_client, ensure_network, ensure_image}
use workspaces.Sandbox.Docker.Create.{create}
use workspaces.Sandbox.Docker.Containers.{IsGrown, IsLeftOver, held, create-Grows}
use workspaces.Sandbox.Docker.Exec.{
  exec, run_exec, is_user_missing, use_forge, cached, learned, forge_attempt, cached-exec,
}
use workspaces.Sandbox.Docker.Files.{docker_driver, destroy}
use workspaces.Sandbox.Docker.Files
use workspaces.Sandbox.Docker.Effects.{is_gone, removal, destroy_gone}
use workspaces.Agent.Ollama.{Arguments}
use workspaces.Agent.Tools.{str_arg}
use workspaces.Agent.Tools
use workspaces.Agent.Tools.Files.{read_file_written}
use workspaces.Examples.Daemon.{
  daemon, daemon-IsDaemon, daemon-IsFileStore, starting, starting-IsDaemon, starting-IsNaming,
}
use workspaces.Examples.Memory.{memory}
use workspaces.Examples.Fakes.{box, always}

abbrev pub bare_environ : Environ
bare_environ = record { getenv = λ key. []; scan_int = λ s. none; scan_float = λ s. none }

abbrev pub plain : Config
plain = record { image = []; env = []; cpus = pos 0; mem_mb = pos 0 }

abbrev connected : World daemon
connected = (
  record { connected = true; net_once = false; has_forge_user = (text "c1", true) ∷ [] },
  (text "c1" ∷ [], []),
)

create-Grows_example :
    IsGrown
      (IsLeftOver bare_environ daemon daemon-IsDaemon always plain connected)
      (create bare_environ daemon always plain connected).0
      (held bare_environ daemon daemon-IsDaemon connected)
      (held bare_environ daemon daemon-IsDaemon
        (create bare_environ daemon always plain connected).1)
create-Grows_example = create-Grows bare_environ daemon daemon-IsDaemon always plain connected

destroy_gone_example :
    (succeeded (destroy daemon always (text "c1") connected).0
      ≡ is_gone daemon (removal daemon always (text "c1") connected))
    × (cached daemon (text "c1") (destroy daemon always (text "c1") connected).1 ≡ (
        if is_gone daemon (removal daemon always (text "c1") connected)
          && text_eq (text "c1") (text "c1")
        then none
        else cached daemon (text "c1") connected))
destroy_gone_example = destroy_gone daemon always (text "c1") (text "c1") connected refl

abbrev notes : Text
notes = text "/home/forge/notes.txt"

abbrev note : Arguments
note = (text "path", notes) ∷ (text "content", text "hello") ∷ []

-- The first use of the driver, which has to connect.
abbrev unconnected : World daemon
unconnected = (fresh, (text "c1" ∷ [], []))

read_file_written_example :
    (text "wrote 5 bytes to /home/forge/notes.txt"
      ≡ text "wrote "
        ++ decimal (length (str_arg note (text "content")))
        ++ text " bytes to "
        ++ str_arg note (text "path"))
    × ((Tools.read_file always
          (text "c1")
          (docker_driver daemon bare_environ)
          ((text "path", notes) ∷ [])
          (Tools.write_file always
            (text "c1")
            (docker_driver daemon bare_environ)
            note
            unconnected).1).0
        ≡ ok (str_arg note (text "content")))
unfolding text trim_right last_index Tools.write_file str_arg text_eq decimal Tools.parent_dir exec
    init_client lookup run_exec is_user_missing contains Files.write_file
read_file_written_example =
    read_file_written daemon bare_environ daemon-IsFileStore always always (text "c1") note
      ((text "path", notes) ∷ []) unconnected refl refl refl refl

cached-exec_example :
    cached daemon (text "c1") (exec daemon always (text "c1") (text "ls") connected).1 ≡ (
      if use_forge daemon (text "c1") connected.0 && text_eq (text "c1") (text "c1")
      then learned
          (forge_attempt daemon always (text "c1") (text "ls") connected).0
          (cached daemon (text "c1") connected)
      else cached daemon (text "c1") connected)
cached-exec_example = cached-exec daemon always (text "c1") (text "ls") connected (text "c1") refl

-- The record of the new sandbox cannot be stored, since its name is taken.
abbrev taken : List Row
taken = table memory (box (text "forge-sandbox-01234567") running 0 ∷ [])

abbrev wanted : Result CreateSandboxRequest
wanted = ok (record { project_id = []; agent_role = []; image = [] })

abbrev refused_create : Response × (World starting × List Row)
refused_create =
    handle_create_sandbox memory (docker_driver starting bare_environ) always 7 wanted
      ((fresh, ([], [])), taken)

handle_create_sandbox-IsKept_example :
    IsKept
      (Orphan memory bare_environ starting starting-IsDaemon starting-IsNaming always wanted
        (fresh, ([], [])))
      refused_create.0.code
      (held bare_environ starting starting-IsDaemon (fresh, ([], [])))
      (held bare_environ starting starting-IsDaemon refused_create.1.0)
handle_create_sandbox-IsKept_example =
    handle_create_sandbox-IsKept memory bare_environ starting starting-IsDaemon starting-IsNaming
      always 7 (ok (record { project_id = []; agent_role = []; image = [] })) (fresh, ([], []))
      taken

refused_create_code : refused_create.0.code ≡ 500
unfolding handle_create_sandbox create init_client ensure_network text_eq text ensure_image
    Registry.insert effect
refused_create_code = refl
