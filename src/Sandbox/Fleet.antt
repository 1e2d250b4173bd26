-- ===== src/Sandbox/Fleet.antt =====
-- What internal/sandbox/driver.go promises its callers: which sandboxes there are, under the methods
-- of a driver.
pub mod Records
pub mod Sweep
pub mod Requests
pub mod Agents
pub mod Server
pub mod Tools
use workspaces.Common.{Text, text_eq, false, ◌≡◌, ok, err, Error}
use workspaces.Sandbox.Driver.{Driver, Context, Config}

-- `IsName` says which ids the driver gives to sandboxes, and `Lives` which sandboxes there are.
pub record IsFleet {W : Type 0} (D : Driver W) (IsName : Text → Type 0) (Lives : Text → W → Type 0)
    : Type 0 where
  pub create_named :
      (ctx : Context W) (cfg : Config) (w : W) {id : Text}
      → (D.create ctx cfg w).0 ≡ ok id
      → IsName id
  pub create_lives :
      (ctx : Context W) (cfg : Config) (w : W) {id : Text}
      → (D.create ctx cfg w).0 ≡ ok id
      → Lives id (D.create ctx cfg w).1
  -- a new sandbox has an id of its own
  pub create_fresh :
      (ctx : Context W) (cfg : Config) (w : W) {id : Text}
      → (D.create ctx cfg w).0 ≡ ok id
      → ¬ Lives id w
  pub create_keeps :
      (ctx : Context W) (cfg : Config) (w : W) {i : Text}
      → Lives i w
      → Lives i (D.create ctx cfg w).1
  pub exec_keeps :
      (ctx : Context W) (id cmd : Text) (w : W) {i : Text}
      → Lives i w
      → Lives i (D.exec ctx id cmd w).1
  pub write_file_keeps :
      (ctx : Context W) (id path content : Text) (w : W) {i : Text}
      → Lives i w
      → Lives i (D.write_file ctx id path content w).1
  pub read_file_keeps :
      (ctx : Context W) (id path : Text) (w : W) {i : Text}
      → Lives i w
      → Lives i (D.read_file ctx id path w).1
  pub status_keeps :
      (ctx : Context W) (id : Text) (w : W) {i : Text} → Lives i w → Lives i (D.status ctx id w).1
  pub ip_keeps :
      (ctx : Context W) (id : Text) (w : W) {i : Text} → Lives i w → Lives i (D.ip ctx id w).1
  -- the end of one sandbox is not that of another
  pub destroy_keeps :
      (ctx : Context W) (id : Text) (w : W) {i : Text}
      → IsName id
      → text_eq id i ≡ false
      → Lives i w
      → Lives i (D.destroy ctx id w).1
  -- a sandbox that could not be destroyed is still there
  pub destroy_failed :
      (ctx : Context W) (id : Text) (w : W) {e : Error} {i : Text}
      → (D.destroy ctx id w).0 ≡ err e
      → Lives i w
      → Lives i (D.destroy ctx id w).1
