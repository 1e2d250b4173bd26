-- ===== src/Examples/Hosts.antt =====
-- The start of the program and its end, on a host with a daemon and a database in memory.
use workspaces.Common.{
  some, ℕ, Text, text, text_eq, quote, [], ◌++◌, Bool, false, ◌≡◌, refl, Option, none, ok, err,
  Error, message, wrapped, error_text, if◌then◌else◌,
}
use workspaces.Sandbox.Driver.{new_driver}
use workspaces.Sandbox.Docker.Client.{fresh}
use workspaces.Sandbox.Docker.Setup.{World}
use workspaces.Agent.Accounting.{new_accounting}
use workspaces.Api.Server.{HttpServer, cancelled, http_server, run}
use workspaces.Forge.{Program, Host, Exit, fatal, shut_down, exit_of, driver_kind, start}
use workspaces.Forge.System.{Pool, Reach, here, Main, not_started, stopped}
use workspaces.Forge.Ending.{EndsWell, Main-unknown_driver, Main-shut_down}
use workspaces.Examples.Memory.{memory}
use workspaces.Examples.Daemon.{daemon}
use workspaces.Examples.Routing.{web}

-- A host with one variable set, whose database is in memory.
abbrev host_with : Text → Text → Host memory daemon
host_with key value = record {
  environ = record {
    getenv = λ k. if text_eq k key then value else [];
    scan_int = λ s. none;
    scan_float = λ s. none;
  };
  http = record {
    marshal = λ req. ok [];
    check_url = λ url. ok tt;
    post = λ ctx url body w. (ok (200, []), w);
    decode = λ body. err (message (text "EOF"));
  };
  opener = record {
    dir = λ path. path;
    mkdir_all = λ path w. (ok tt, w);
    open_db = λ path w. (ok [], w);
    exec_text = λ stmt db w. (ok db, w);
  };
  wait = λ ctx ms w. (ok tt, w);
}

abbrev podman_host : Host memory daemon
podman_host = host_with (text "SANDBOX_DRIVER") (text "podman")

abbrev firecracker_host : Host memory daemon
firecracker_host = host_with (text "SANDBOX_DRIVER") (text "firecracker")

abbrev never_closed : Error → Bool
never_closed e = false

abbrev shuts : HttpServer → ℕ → World daemon → Option Error × World daemon
shuts srv t w = (none, w)

abbrev idle_daemon : World daemon
idle_daemon = (fresh, ([], []))

abbrev refusal : Exit
refusal = fatal (
    text "forge: sandbox driver init failed: "
    ++ (text "unknown sandbox driver: " ++ quote (driver_kind memory daemon podman_host)))

abbrev bad_kind : Error
bad_kind =
    wrapped (text "forge: sandbox driver init failed: ")
      (message (text "unknown sandbox driver: " ++ quote (text "podman")))

unknown_driver :
    Main memory daemon podman_host web never_closed shuts idle_daemon none
      (fatal (error_text bad_kind))
      idle_daemon
unfolding start driver_kind text text_eq new_driver
unknown_driver = not_started refl

Main-unknown_driver_example : (fatal (error_text bad_kind) ≡ refusal) × (idle_daemon ≡ idle_daemon)
unfolding text_eq driver_kind text
Main-unknown_driver_example =
    Main-unknown_driver memory daemon podman_host web never_closed shuts refl refl unknown_driver

-- The firecracker driver, a server that is shut down at once.
firecracker-Main :
    Main memory daemon firecracker_host web never_closed shuts idle_daemon
      (some cancelled)
      shut_down
      idle_daemon
unfolding start driver_kind text text_eq new_driver exit_of run
firecracker-Main = stopped cancelled refl here

Main-shut_down_example :
    (p : Program memory (World daemon)) × (v : World daemon) × (start memory daemon firecracker_host
        idle_daemon
      ≡ (ok p, v))
    × (t : Pool memory (World daemon)) × Reach memory web p
        ([], (new_accounting, (v, p.server.registry)))
        t
    × EndsWell memory daemon firecracker_host web never_closed shuts
        (some cancelled)
        (http_server p.addr)
        t.1.1.0
        idle_daemon
Main-shut_down_example =
    Main-shut_down memory daemon firecracker_host web never_closed shuts firecracker-Main refl
