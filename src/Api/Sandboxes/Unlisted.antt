-- ===== src/Api/Sandboxes/Unlisted.antt =====
-- `handleDeleteSandbox` of internal/api/sandboxes.go on the Docker driver, for a container that the
-- registry does not list.
use workspaces.Common.{Text, List, [], ◌∷◌, ◌≡◌, refl, ◌∙◌, ap, true, none, some, ok, arith}
use workspaces.Sandbox.Driver.{Context, Driver}
use workspaces.Sandbox.Env.{Environ}
use workspaces.Sandbox.Docker.Client.{Client, DockerState}
use workspaces.Sandbox.Docker.Setup.{World, init_client}
use workspaces.Sandbox.Docker.Files.{docker_driver, destroy}
use workspaces.Sandbox.Registry.Sql.{Sqlite, IsSqlite, IsHealthy}
use workspaces.Sandbox.Registry.{SandboxRecord}
use workspaces.Sandbox.Registry.Spec.{find, written, remove, is_record}
use workspaces.Sandbox.Registry.Spec
use workspaces.Sandbox.Registry.Tables.{table}
use workspaces.Sandbox.Registry.Refines.{perform, perform-IsHealthy}
use workspaces.Api.Response.{write_json, write_error}
use workspaces.Api.Sandboxes.{after_delete, after_destroy, handle_delete_sandbox}

remove-find : (id : Text) (sbs : List SandboxRecord) → find id sbs ≡ none → remove id sbs ≡ sbs
remove-find id [] absent = refl
remove-find id (sb ∷ sbs) absent = ground (arith, absent, remove-find id sbs)

module _ {W : Type 0} (C : Client W) where
  removed :
      (ctx : Context (World C)) (id : Text) (d : DockerState) (w : W)
      → d.connected ≡ true
      → let c = λ (v : W). ctx (d, v) in
        let gone = C.container_remove c id (C.container_stop c id w).1 in
        gone.0 ≡ ok tt
        → ((destroy C ctx id (d, w)).0 ≡ ok tt) × ((destroy C ctx id (d, w)).1.1 ≡ gone.1)
  unfolding destroy init_client
  removed ctx id d w connected done = ground (arith, connected, done)

module _ (S : Sqlite) (L : IsSqlite S) (H : IsHealthy S) where
  deleted :
      {W : Type 0} (D : Driver W) (id : Text) (w : W) (db : S.Db) (sbs : List SandboxRecord)
      → S.rows db ≡ table S sbs
      → find id sbs ≡ none
      → let r = after_destroy S D id (ok tt) (w, db) in
        (r.0.code ≡ 204) × (r.1.0 ≡ w) × (S.rows r.1.1 ≡ table S sbs)
  unfolding after_destroy after_delete write_json write_error perform
  deleted D id w db sbs stored absent =
      let (done, kept) =
        perform-IsHealthy S L H (Spec.delete id) db sbs sbs stored
          (unfold written in ap some (remove-find id sbs absent)) in
      rw done (refl, refl, kept)

  -- With an engine in order, a driver that has its client, and an id of which the registry has no
  -- record: if Docker removes the container that it knows by that id, whatever container it is, then
  -- the request to delete the sandbox of that id has it removed, is answered with 204, and leaves
  -- the records as they are.
  pub handle_delete_sandbox_unlisted :
      {W : Type 0} (C : Client W) (E : Environ) (ctx : Context (World C)) (id : Text)
      (d : DockerState) (w : W) (db : S.Db) (sbs : List SandboxRecord)
      → S.rows db ≡ table S sbs
      → find id sbs ≡ none
      → d.connected ≡ true
      → (C.container_remove (λ v. ctx (d, v)) id (C.container_stop (λ v. ctx (d, v)) id w).1).0
        ≡ ok tt
      → let r = handle_delete_sandbox S (docker_driver C E) ctx id ((d, w), db) in
        (r.0.code ≡ 204)
        × (r.1.0.1
            ≡ (C.container_remove
                (λ v. ctx (d, v))
                id
                (C.container_stop (λ v. ctx (d, v)) id w).1).1)
        × (S.rows r.1.1 ≡ table S sbs)
  unfolding handle_delete_sandbox
  handle_delete_sandbox_unlisted C E ctx id d w db sbs stored absent connected done =
      let (gone, left) = removed C ctx id d w connected done in
      let (code, same, kept) =
        deleted (docker_driver C E) id (destroy C ctx id (d, w)).1 db sbs stored absent in
      rw gone (code, ap (λ s. s.1) same ∙ left, kept)
