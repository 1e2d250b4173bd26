-- ===== src/Examples/Network.antt =====
-- Goroutines that ask one daemon for the network, and a request for a container of others.
use workspaces.Common.{
  text, [], ◌∷◌, ◌≡◌, ◌≤◌, refl, true, false, none, some, err, Error, message, wrapped, All,
  text_eq,
}
use workspaces.Sandbox.Driver.{Context}
use workspaces.Sandbox.Docker.Client.{Client, DockerState, fresh}
use workspaces.Sandbox.Docker.Setup.{inspect_network, ensure_network}
use workspaces.Sandbox.Docker.Once.{
  new_once, calling, locking, checking, asking, returned, error_of, ask_docker, act_once, Group,
  IsFatal, acted, called, Moves, here, next,
}
use workspaces.Sandbox.Docker.Once.Alone.{at_rest, ensure_network-Moves}
use workspaces.Sandbox.Docker.Once.Crash.{crash}
use workspaces.Sandbox.Docker.Once.Safety.{holders, IsClean, Moves-IsSafe}
use workspaces.Examples.Daemon.{Daemon, daemon}
use workspaces.Examples.Fakes.{always, three}
use workspaces.Examples.Memory.{memory, memory-IsSqlite, memory-IsHealthy}
use workspaces.Examples.Containers.{bare_environ}
use workspaces.Sandbox.Docker.Files.{docker_driver}
use workspaces.Sandbox.Registry.Tables.{table}
use workspaces.Api.Sandboxes.{handle_delete_sandbox}
use workspaces.Api.Sandboxes.Unlisted.{handle_delete_sandbox_unlisted}

-- One that does not find out whether the network exists.
abbrev cut_off : Client Daemon
cut_off = record daemon { network_inspect = λ c n w. (err (message (text "no route")), w) }

abbrev no_route : Error
no_route = wrapped (text "sandbox-net inspect: ") (message (text "no route"))

cut_off-asked : ask_docker cut_off always ([], []) ≡ (some no_route, ([], []))
unfolding ask_docker text inspect_network text_eq
cut_off-asked = refl

crash_example :
    Moves cut_off
      ([], (new_once, ([], [])))
      (returned (some no_route) ∷ returned none ∷ [], (new_once, ([], [])))
    × (t : Group Daemon) × Moves cut_off ([], (new_once, ([], []))) t
    × IsFatal t
crash_example = crash cut_off always ([], []) cut_off-asked

daemon-answers : (ctx : Context Daemon) (w : Daemon) → (ask_docker daemon ctx w).0 ≡ none
unfolding ask_docker text inspect_network text_eq
daemon-answers ctx w = refl

-- One makes the network while another waits at the lock.
waiting :
    Moves daemon
      ([], (new_once, ([], [])))
      (asking ∷ locking ∷ [], (record { locked = true; finished = false }, ([], [])))
unfolding act_once new_once
waiting =
    next
      (next
        (next (next (next (next here called) called) (acted always [] _ calling refl refl))
          (acted always (locking ∷ []) [] calling refl refl))
        (acted always [] _ locking refl refl))
      (acted always [] _ checking refl refl)

Moves-IsSafe_example :
    (holders (asking ∷ locking ∷ []) ≤ 1)
    × (¬ IsFatal {W = Daemon}
        (asking ∷ locking ∷ [], (record { locked = true; finished = false }, ([], []))))
    × All IsClean (asking ∷ locking ∷ [])
Moves-IsSafe_example = Moves-IsSafe daemon daemon-answers waiting

ensure_network-Moves_example :
    let r = ensure_network cut_off (λ s. none) (fresh, ([], [])) in
    Moves cut_off
      ([], (at_rest false, ([], [])))
      (returned (error_of r.0) ∷ [], (at_rest r.1.0.net_once, r.1.1))
ensure_network-Moves_example = ensure_network-Moves cut_off always fresh ([], [])

-- One that keeps a container which the program did not make.
abbrev others : Daemon
others = (text "postgres" ∷ [], [])

abbrev joined : DockerState
joined = record fresh { connected = true }

handle_delete_sandbox_unlisted_example :
    let r =
      handle_delete_sandbox memory
        (docker_driver daemon bare_environ)
        always
        (text "postgres")
        ((joined, others), table memory three) in
    (r.0.code ≡ 204) × (r.1.0.1 ≡ ([], [])) × (memory.rows r.1.1 ≡ table memory three)
unfolding text text_eq
handle_delete_sandbox_unlisted_example =
    handle_delete_sandbox_unlisted memory memory-IsSqlite memory-IsHealthy daemon bare_environ
      always (text "postgres") joined others (table memory three) three refl refl refl refl
