-- ===== src/Api/Sandboxes/Containers.antt =====
-- `handleCreateSandbox` of internal/api/sandboxes.go on the Docker driver: what becomes of the
-- containers of the daemon.
use mathlib.Core.Path.{subst}
use workspaces.Common.{
  Result-cases, ℕ, Text, List, ◌∷◌, ◌≡◌, ◌≢◌, refl, ◌∙◌, Option, none, some, Result, ok, err, Error,
  ◌⊎◌, inl, inr, true, arith,
}
use workspaces.Sandbox.Driver.{Context, Config}
use workspaces.Sandbox.Env.{Environ}
use workspaces.Sandbox.Docker.Client.{Client}
use workspaces.Sandbox.Docker.Setup.{World}
use workspaces.Sandbox.Docker.Create.{create}
use workspaces.Sandbox.Docker.Files.{docker_driver, ip, destroy}
use workspaces.Sandbox.Docker.Containers.{
  IsDaemon, IsGrown, IsGrown-map, IsLeftOver, IsRemoved, held, create-Grows,
}
use workspaces.Sandbox.Docker.Effects.{removal}
use workspaces.Sandbox.Docker.Names.{IsNaming, create-newest, ip_keeps, destroy_newest}
use workspaces.Sandbox.Registry.Sql.{Sqlite, Time}
use workspaces.Sandbox.Registry.{SandboxRecord}
use workspaces.Sandbox.Registry
use workspaces.Api.Response.{write_json, write_error}
use workspaces.Api.Sandboxes.{
  CreateSandboxRequest, config_of, new_record, or_empty, after_insert, after_create,
  handle_create_sandbox,
}

-- One container more behind 201, and none behind any other code, unless it was left over.
abbrev pub IsKept : (Text → Type 0) → ℕ → List Text → List Text → Type 0
IsKept Left code before after =
    ((code ≡ 201) × (id : Text) × (after ≡ id ∷ before))
    ⊎ ((code ≢ 201) × ((after ≡ before) ⊎ ((id : Text) × (after ≡ id ∷ before) × Left id)))

IsKept-map :
    {P : Text → Type 0} (Q : Text → Type 0) {code : ℕ} {before after : List Text}
    → ((id : Text) → P id → Q id)
    → IsKept P code before after
    → IsKept Q code before after
IsKept-map Q f (inl more) = inl more
IsKept-map Q f (inr (c, inl same)) = inr (c, inl same)
IsKept-map Q f (inr (c, inr (id, more, p))) = inr (c, inr (id, more, f id p))

module _ (S : Sqlite) (E : Environ) {W : Type 0} (C : Client W) (I : IsDaemon C)
    (N : IsNaming C I) where
  -- Docker refuses to remove the container.
  abbrev IsRefused : Context (World C) → Text → World C → Type 0
  IsRefused ctx name s = (f : Error) × (removal C ctx name s ≡ err f)

  -- A container that was made and did not start, or one whose address was asked for and whose record
  -- was not stored, and that Docker refuses to remove.
  abbrev IsOrphan : Context (World C) → Config → World C → Text → Type 0
  IsOrphan ctx cfg s id =
      IsLeftOver E C I ctx cfg s id
      ⊎ ((name : Text) × ((create E C ctx cfg s).0 ≡ ok name)
          × IsRefused ctx name (ip C ctx name (create E C ctx cfg s).1).1)

  abbrev pub Orphan : Context (World C) → Result CreateSandboxRequest → World C → Text → Type 0
  Orphan ctx req s id =
      (rq : CreateSandboxRequest) × (req ≡ ok rq) × IsOrphan ctx (config_of rq.image) s id

  after_insert-IsKept :
      (ctx : Context (World C)) (sb : SandboxRecord) (o : Option Error) (s : World C) (db : S.Db)
      {id : Text} (ids : List Text)
      → held E C I s ≡ id ∷ ids
      → N.newest s.1 ≡ sb.id
      → s.0.connected ≡ true
      → let r = after_insert S (docker_driver C E) ctx sb o (s, db) in
        IsKept (λ _. IsRefused ctx sb.id s) r.0.code ids (held E C I r.1.0)
  unfolding after_insert write_json write_error
  after_insert-IsKept ctx sb none s db {id} ids h n k = inl (refl, id, h)
  after_insert-IsKept ctx sb (some e) s db {id} ids h n k =
      let gone : IsRemoved (removal C ctx sb.id s) id ids (held E C I (destroy C ctx sb.id s).1) =
        subst (λ m. IsRemoved (removal C ctx m s) id ids (held E C I (destroy C ctx m s).1)) n
          (destroy_newest E C I N ctx ids s k h) in
      elim (Result-cases (removal C ctx sb.id s)) [
        | inl (_, l) ↦ let all = rw l at gone in inr (λ c. omega (arith, c), inl all)
        | inr (f, l) ↦
            let left = rw l at gone in
            inr (
              λ c. omega (arith, c),
              elim left [
                | inl none_left ↦ inl none_left
                | inr one_left ↦ inr (id, one_left, (f, l))
              ],
            )
      ]

  after_create-IsKept :
      (ctx : Context (World C)) (now : Time) (req : CreateSandboxRequest) (made : Result Text)
      (s : World C) (db : S.Db) (ids : List Text) (Left : Text → Type 0)
      → IsGrown Left made ids (held E C I s)
      → ((name : Text) → made ≡ ok name → (N.newest s.1 ≡ name) × (s.0.connected ≡ true))
      → ((name : Text)
          → made ≡ ok name
          → IsRefused ctx name (ip C ctx name s).1
          → (id : Text) → Left id)
      → let r = after_create S (docker_driver C E) ctx now req made (s, db) in
        IsKept Left r.0.code ids (held E C I r.1.0)
  unfolding after_create new_record write_json write_error
  after_create-IsKept ctx now req (err e) s db ids Left grown named refused =
      inr (λ c. omega (arith, c), grown)
  after_create-IsKept ctx now req (ok name) s db ids Left (id, h) named refused =
      let (n, k) = named name refl in
      let (same, same_name, k') = ip_keeps E C I N ctx name s k in
      let sb = new_record req now name (or_empty (ip C ctx name s).0) in
      IsKept-map Left (λ i no. refused name refl no i)
        (after_insert-IsKept ctx sb (Registry.insert S sb db).0 (ip C ctx name s).1 _ ids (same ∙ h)
          (same_name ∙ n) k')

  -- With a daemon in which only a creation that succeeds adds a container, only a removal takes one
  -- away, and the newest one is found by its name, a create request that is answered with 201
  -- leaves one container more, and one that is answered otherwise leaves none behind, unless Docker
  -- refused to remove it, under the context of the request: one that was made and did not start, or
  -- one that was made and whose record could not be stored.
  pub handle_create_sandbox-IsKept :
      (ctx : Context (World C)) (now : Time) (req : Result CreateSandboxRequest) (s : World C)
      (db : S.Db)
      → let r = handle_create_sandbox S (docker_driver C E) ctx now req (s, db) in
        IsKept (Orphan ctx req s) r.0.code (held E C I s) (held E C I r.1.0)
  unfolding handle_create_sandbox write_json write_error
  handle_create_sandbox-IsKept ctx now (err e) s db = inr (λ c. omega (arith, c), inl refl)
  handle_create_sandbox-IsKept ctx now (ok req) s db =
      let cfg = config_of req.image in
      after_create-IsKept ctx now req (create E C ctx cfg s).0 (create E C ctx cfg s).1 db
        (held E C I s) (Orphan ctx (ok req) s)
        (IsGrown-map _ (λ id left. (req, refl, inl left)) _ _ _ (create-Grows E C I ctx cfg s))
        (λ name h. create-newest E C I N ctx cfg s h)
        (λ name h no id. (req, refl, inr (name, h, no)))
