-- ===== src/Sandbox/Driver.antt =====
-- internal/sandbox/driver.go: the driver interface and its data. `W` is the state of everything
-- outside the process; a `Context` tells from it whether the request is cancelled. The CPU share
-- of a sandbox is counted in billionths of a core.
use workspaces.Common.{
  Text, text, quote, text_eq, Result, ok, err, Error, message, Option, Step, List,
}
use workspaces.Common.{if◌then◌else◌, ◌++◌}
use workspaces.Common.Int.{ℤ}

pub record Config : Type 0 where
  pub image : Text
  pub env : List (Text × Text)
  pub cpus : ℤ
  pub mem_mb : ℤ

pub record ExecResult : Type 0 where
  pub stdout : Text
  pub stderr : Text
  pub exit_code : ℤ

abbrev pub Status : Type 0
Status = Text

unfoldable pub running : Status
running = text "running"

unfoldable pub sleeping : Status
sleeping = text "sleeping"

unfoldable pub dead : Status
dead = text "dead"

-- The error of a context that is done, if it is.
abbrev pub Context : Type 0 → Type 0
Context W = W → Option Error

pub record Driver (W : Type 0) : Type 0 where
  pub create : Context W → Config → Step W Text
  pub exec : Context W → Text → Text → Step W ExecResult
  pub write_file : Context W → Text → Text → Text → Step W (Unit {0})
  pub read_file : Context W → Text → Text → Step W Text
  pub destroy : Context W → Text → Step W (Unit {0})
  -- The status is returned beside an error too.
  pub status : Context W → Text → W → (Status × Option Error) × W
  pub ip : Context W → Text → Step W Text

pub data DriverKind : Type 0 where
  docker_driver firecracker_driver : DriverKind

unfoldable pub new_driver : Text → Result DriverKind
unfolding text
new_driver kind =
    if text_eq kind (text "docker")
    then ok docker_driver
    else if text_eq kind (text "firecracker")
    then ok firecracker_driver
    else err (message (text "unknown sandbox driver: " ++ quote kind))
