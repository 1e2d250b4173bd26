-- ===== src/Sandbox/Docker/Client.antt =====
-- What internal/sandbox/docker.go uses of the Docker SDK, as a parameter over the state `W` of the
-- daemon, and the fields of `DockerDriver`.
use workspaces.Common.{
  Text, List, [], ◌∷◌, Option, none, some, Bool, false, Result, ok, Error, Step, if◌then◌else◌,
  text_eq, ◌≡◌, arith, text_eq_iff, refl,
}
use workspaces.Common.Int.{ℤ}
use workspaces.Sandbox.Driver.{Context}

pub record ContainerConfig : Type 0 where
  pub image : Text
  pub env : List Text
  pub working_dir : Text
  pub cmd : List Text
  pub memory : ℤ
  pub nano_cpus : ℤ
  pub network : Text

pub record ExecOptions : Type 0 where
  pub user : Text
  pub working_dir : Text
  pub env : List Text
  pub cmd : List Text

-- One step of a `tar.Reader`: an entry's content, or the error of reading the header or the content.
pub data TarItem : Type 0 where
  entry : Text → TarItem
  bad_header : Error → TarItem
  bad_content : Error → TarItem

-- A network of a container, with the address in it.
abbrev pub Endpoint : Type 0
Endpoint = Text × Text

pub record Inspection : Type 0 where
  pub state : Text
  -- in the order in which a `range` meets them
  pub networks : List Endpoint

pub record Client (W : Type 0) : Type 0 where
  pub connect : Step W (Unit {0})
  pub network_inspect : Context W → Text → Step W (Unit {0})
  -- the name, the subnet and the gateway of a bridge
  pub network_create : Context W → Text → Text → Text → Step W (Unit {0})
  pub image_inspect : Context W → Text → Step W (Unit {0})
  pub image_pull : Context W → Text → Step W (Unit {0})
  pub new_uuid : W → Text × W
  -- the result is the id that Docker gives to the container
  pub container_create : Context W → ContainerConfig → Text → Step W Text
  pub container_start : Context W → Text → Step W (Unit {0})
  pub container_stop : Context W → Text → Step W (Unit {0})
  pub container_remove : Context W → Text → Step W (Unit {0})
  pub container_inspect : Context W → Text → Step W Inspection
  pub exec_create : Context W → Text → ExecOptions → Step W Text
  -- attaches, and reads both streams to their ends
  pub exec_attach : Context W → Text → Step W (Text × Text)
  pub exec_inspect : Context W → Text → Step W ℤ
  -- a tar archive of one file: its name and its content
  pub tar_pack : Text → Text → Result Text
  pub copy_to : Context W → Text → Text → Text → Step W (Unit {0})
  pub copy_from : Context W → Text → Text → Step W (List TarItem)
  -- `client.IsErrNotFound`
  pub is_not_found : Error → Bool

-- The fields of `DockerDriver`: whether the client exists, whether `netOnce` has run, and the cache
-- `hasForgeUser`.
pub record DockerState : Type 0 where
  pub connected : Bool
  pub net_once : Bool
  pub has_forge_user : List (Text × Bool)

abbrev pub fresh : DockerState
fresh = record { connected = false; net_once = false; has_forge_user = [] }

-- `m[k]`, `m[k] = v` and `delete(m, k)` on the cache.
unfoldable pub lookup : Text → List (Text × Bool) → Option Bool
lookup k [] = none
lookup k ((j, v) ∷ m) = if text_eq j k then some v else lookup k m

unfoldable pub insert : Text → Bool → List (Text × Bool) → List (Text × Bool)
insert k v [] = (k, v) ∷ []
insert k v ((j, w) ∷ m) = if text_eq j k then (k, v) ∷ m else (j, w) ∷ insert k v m

unfoldable pub erase : Text → List (Text × Bool) → List (Text × Bool)
erase k [] = []
erase k ((j, w) ∷ m) = let rest = erase k m in if text_eq j k then rest else (j, w) ∷ rest

pub lookup-insert :
    (k j : Text) (v : Bool) (m : List (Text × Bool))
    → lookup j (insert k v m) ≡ (if text_eq k j then some v else lookup j m)
unfolding lookup insert
lookup-insert k j v [] = refl
lookup-insert k j v ((i, w) ∷ m) =
    ground (arith, lookup-insert k j v m, text_eq_iff k j, text_eq_iff i k, text_eq_iff i j)

pub lookup-erase :
    (k j : Text) (m : List (Text × Bool))
    → lookup j (erase k m) ≡ (if text_eq k j then none else lookup j m)
unfolding lookup erase
lookup-erase k j [] = ground arith
lookup-erase k j ((i, w) ∷ m) =
    ground (arith, lookup-erase k j m, text_eq_iff k j, text_eq_iff i k, text_eq_iff i j)

-- A call of the client from a method of the driver, whose world holds the driver's fields too.
abbrev pub call {ℓ} :
    {W : Type 0} {A : Type ℓ}
    → (Context W → Step W A)
    → Context (DockerState × W)
    → Step (DockerState × W) A
call f ctx (d, w) = let r = f (λ v. ctx (d, v)) w in (r.0, (d, r.1))

abbrev pub set_state :
    {W : Type 0} → (DockerState → DockerState) → Step (DockerState × W) (Unit {0})
set_state f (d, w) = (ok tt, (f d, w))
