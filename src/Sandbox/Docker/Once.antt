-- ===== src/Sandbox/Docker/Once.antt =====
-- `ensureNetwork` of internal/sandbox/docker.go in several goroutines: `sync.Once` with its mutex and its
-- flag, and the assignment that puts a fresh one in its place after an error.
pub mod Safety
pub mod Crash
pub mod Alone
use workspaces.Common.{
  List, ◌∷◌, ◌++◌, Bool, true, false, ◌≡◌, Option, none, some, Result, ok, err, Error,
  if◌then◌else◌,
}
use workspaces.Sandbox.Driver.{Context}
use workspaces.Sandbox.Docker.Client.{Client, fresh}
use workspaces.Sandbox.Docker.Setup.{World, inspect_network}

-- `sync.Once`.
pub record Once : Type 0 where
  pub locked : Bool
  pub finished : Bool

unfoldable pub new_once : Once
new_once = record { locked = false; finished = false }

-- Where a goroutine is in `ensureNetwork`, with the value of `ensureErr`.
pub data Place : Type 0 where
  -- at `Do`, before it looks at the flag
  calling : Place
  -- at the lock of the mutex
  locking : Place
  -- it holds the mutex and looks at the flag again
  checking : Place
  -- it holds the mutex and runs the function
  asking : Place
  -- it unlocks the mutex
  unlocking : Option Error → Place
  -- behind `Do`
  behind : Option Error → Place
  returned : Option Error → Place

abbrev pub error_of : Result (Unit {0}) → Option Error
error_of (ok _) = none
error_of (err e) = some e

module _ {W : Type 0} (C : Client W) where
  -- What the function that `Do` runs does to Docker, and the error that it leaves.
  unfoldable pub ask_docker : Context W → W → Option Error × W
  ask_docker ctx w = let r = inspect_network C (λ s. ctx s.1) (fresh, w) in (error_of r.0, r.1.1)

  -- The next action of a goroutine: `none` where it blocks, or has nothing left to do. The flag is
  -- set when the function returns, before the mutex is unlocked.
  unfoldable pub act_once : Context W → Place → Once → W → Option (Place × (Once × W))
  unfolding new_once ask_docker
  act_once ctx calling o w = some (if o.finished then behind none else locking, (o, w))
  act_once ctx locking o w =
      if o.locked then none else some (checking, (record o { locked = true }, w))
  act_once ctx checking o w = some (if o.finished then unlocking none else asking, (o, w))
  act_once ctx asking o w =
      let r = ask_docker ctx w in some (unlocking r.0, (record o { finished = true }, r.1))
  act_once ctx (unlocking e) o w =
      if o.locked then some (behind e, (record o { locked = false }, w)) else none
  act_once ctx (behind none) o w = some (returned none, (o, w))
  act_once ctx (behind (some e)) o w = some (returned (some e), (new_once, w))
  act_once ctx (returned e) o w = none

-- The goroutines, and what they share.
abbrev pub Group : Type 0 → Type 0
Group W = List Place × (Once × W)

-- To unlock a mutex that is not locked is a fatal error, which ends the process.
abbrev pub IsFatal : {W : Type 0} → Group W → Type 0
IsFatal s =
    (before after : List Place) × (e : Option Error) × (s.0 ≡ before ++ unlocking e ∷ after)
    × (s.1.0.locked ≡ false)

module _ {W : Type 0} (C : Client W) where
  pub data Move (s : Group W) : Group W → Type 0 where
    -- one more request creates a sandbox
    called : Move s (calling ∷ s.0, s.1)
    acted :
        (ctx : Context W) (before after : List Place) (p : Place) {p' : Place} {o : Once} {w : W}
        → s.0 ≡ before ++ p ∷ after
        → act_once C ctx p s.1.0 s.1.1 ≡ some (p', (o, w))
        → Move s (before ++ p' ∷ after, (o, w))

  pub data Moves (s : Group W) : Group W → Type 0 where
    here : Moves s s
    next : {t u : Group W} → Moves s t → Move t u → Moves s u
