-- ===== src/Sandbox/Docker/Host.antt =====
-- The driver of internal/sandbox/docker.go as a fleet: which containers Docker knows, by their
-- names, under each method.
pub mod Methods
pub mod Created
use workspaces.Common.{Text, text, text_eq, ◌++◌, Bool, true, false, ◌||◌, ok, err, Error, ◌≡◌}
use workspaces.Sandbox.Driver.{Context}
use workspaces.Sandbox.Docker.Client.{Client, ContainerConfig, ExecOptions}

-- The names that `Create` gives.
abbrev pub IsName : Text → Type 0
IsName id = (suffix : Text) × (id ≡ text "forge-sandbox-" ++ suffix)

-- What Docker promises of the names of its containers: creation and removal alone change which it
-- knows.
pub record IsHost {W : Type 0} (C : Client W) (knows : Text → W → Bool) : Type 0 where
  pub connect_keeps : (n : Text) (w : W) → knows n (C.connect w).1 ≡ knows n w
  pub network_inspect_keeps :
      (n : Text) (c : Context W) (net : Text) (w : W)
      → knows n (C.network_inspect c net w).1 ≡ knows n w
  pub network_create_keeps :
      (n : Text) (c : Context W) (net subnet gw : Text) (w : W)
      → knows n (C.network_create c net subnet gw w).1 ≡ knows n w
  pub image_inspect_keeps :
      (n : Text) (c : Context W) (img : Text) (w : W)
      → knows n (C.image_inspect c img w).1 ≡ knows n w
  pub image_pull_keeps :
      (n : Text) (c : Context W) (img : Text) (w : W) → knows n (C.image_pull c img w).1 ≡ knows n w
  pub new_uuid_keeps : (n : Text) (w : W) → knows n (C.new_uuid w).1 ≡ knows n w
  pub start_keeps :
      (n : Text) (c : Context W) (id : Text) (w : W)
      → knows n (C.container_start c id w).1 ≡ knows n w
  pub stop_keeps :
      (n : Text) (c : Context W) (id : Text) (w : W)
      → knows n (C.container_stop c id w).1 ≡ knows n w
  pub inspect_keeps :
      (n : Text) (c : Context W) (id : Text) (w : W)
      → knows n (C.container_inspect c id w).1 ≡ knows n w
  pub exec_create_keeps :
      (n : Text) (c : Context W) (id : Text) (o : ExecOptions) (w : W)
      → knows n (C.exec_create c id o w).1 ≡ knows n w
  pub exec_attach_keeps :
      (n : Text) (c : Context W) (id : Text) (w : W) → knows n (C.exec_attach c id w).1 ≡ knows n w
  pub exec_inspect_keeps :
      (n : Text) (c : Context W) (id : Text) (w : W) → knows n (C.exec_inspect c id w).1 ≡ knows n w
  pub copy_to_keeps :
      (n : Text) (c : Context W) (id dir archive : Text) (w : W)
      → knows n (C.copy_to c id dir archive w).1 ≡ knows n w
  pub copy_from_keeps :
      (n : Text) (c : Context W) (id path : Text) (w : W)
      → knows n (C.copy_from c id path w).1 ≡ knows n w
  pub create_knows :
      (n : Text) (c : Context W) (cfg : ContainerConfig) (name : Text) (w : W) {id : Text}
      → (C.container_create c cfg name w).0 ≡ ok id
      → knows n (C.container_create c cfg name w).1 ≡ (text_eq name n || knows n w)
  pub create_failed :
      (n : Text) (c : Context W) (cfg : ContainerConfig) (name : Text) (w : W) {e : Error}
      → (C.container_create c cfg name w).0 ≡ err e
      → knows n (C.container_create c cfg name w).1 ≡ knows n w
  -- a name that is in use is refused
  pub create_fresh :
      (c : Context W) (cfg : ContainerConfig) (name : Text) (w : W) {id : Text}
      → (C.container_create c cfg name w).0 ≡ ok id
      → knows name w ≡ false
  -- the id of a container is that of no other one
  pub remove_made :
      (n : Text) (c : Context W) (cfg : ContainerConfig) (name : Text) (w : W) {id : Text}
      → (C.container_create c cfg name w).0 ≡ ok id
      → text_eq name n ≡ false
      → (c' : Context W) (w' : W) → knows n (C.container_remove c' id w').1 ≡ knows n w'
  -- a name of this form is no container's id
  pub remove_keeps :
      (n : Text) (c : Context W) (name : Text) (w : W)
      → IsName name
      → text_eq name n ≡ false
      → knows n (C.container_remove c name w).1 ≡ knows n w
  pub remove_failed :
      (n : Text) (c : Context W) (id : Text) (w : W) {e : Error}
      → (C.container_remove c id w).0 ≡ err e
      → knows n (C.container_remove c id w).1 ≡ knows n w
