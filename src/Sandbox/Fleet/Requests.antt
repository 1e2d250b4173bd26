-- ===== src/Sandbox/Fleet/Requests.antt =====
-- A request to internal/api and the sandboxes that there are.
use workspaces.Common.{
  Text, List, [], ◌∷◌, ◌≡◌, refl, Option, none, some, Result, ok, err, Error, Result-cases, inl,
  inr,
}
use workspaces.Sandbox.Driver.{Driver, Context, ExecResult}
use workspaces.Sandbox.Fleet.{IsFleet}
use workspaces.Sandbox.Fleet.Records.{
  IsBacked, moved-IsBacked, touch-IsBacked, insert-IsBacked, delete-IsBacked,
}
use workspaces.Sandbox.Registry.Sql.{Sqlite, IsSqlite, IsHealthy, Time}
use workspaces.Sandbox.Registry.{SandboxRecord}
use workspaces.Sandbox.Registry
use workspaces.Sandbox.Registry.Refines.{perform}
use workspaces.Api.Shell.{build_cmd}
use workspaces.Api.Sandboxes.{
  CreateSandboxRequest, config_of, new_record, or_empty, after_insert, after_create,
  handle_create_sandbox, after_exec, after_get, handle_exec_sandbox, after_delete, after_destroy,
  handle_delete_sandbox,
}

module _ {W : Type 0} (D : Driver W) (IsName : Text → Type 0) (Lives : Text → W → Type 0)
    (F : IsFleet D IsName Lives) (S : Sqlite) (L : IsSqlite S) (H : IsHealthy S) where
  abbrev pub Backed : W × S.Db → Type 0
  Backed = IsBacked S IsName Lives

  after_insert-IsBacked :
      (ctx : Context W) (sb : SandboxRecord) (o : Option Error) (s : W × S.Db)
      → o ≡ none
      → Backed s
      → Backed (after_insert S D ctx sb o s).1
  unfolding after_insert
  after_insert-IsBacked ctx sb none s h backed = backed
  after_insert-IsBacked ctx sb (some e) s h backed = cc h

  -- The record of a sandbox that the driver has made since, whose address was asked for.
  pub made-IsBacked :
      (ctx : Context W) (req : Text) (sb : SandboxRecord) (w : W) (db : S.Db) {id : Text}
      → let made = D.create ctx (config_of req) w in
        made.0 ≡ ok id
        → sb.id ≡ id
        → Backed (w, db)
        → ((Registry.insert S sb db).0 ≡ none)
          × Backed ((D.ip ctx id made.1).1, (Registry.insert S sb db).1)
  unfolding perform
  made-IsBacked ctx image sb w db {id} made same backed =
      insert-IsBacked S IsName Lives L H sb backed
        (rw same (F.create_fresh ctx (config_of image) w made))
        (λ i living. F.ip_keeps ctx id _ (F.create_keeps ctx (config_of image) w living))
        (rw same (F.create_named ctx (config_of image) w made))
        (rw same (F.ip_keeps ctx id _ (F.create_lives ctx (config_of image) w made)))

  pub handle_create_sandbox-IsBacked :
      (ctx : Context W) (now : Time) (req : Result CreateSandboxRequest) (s : W × S.Db)
      → Backed s
      → Backed (handle_create_sandbox S D ctx now req s).1
  unfolding handle_create_sandbox after_create new_record
  handle_create_sandbox-IsBacked ctx now (err e) s backed = backed
  handle_create_sandbox-IsBacked ctx now (ok req) (w, db) backed =
      let made = D.create ctx (config_of req.image) w in
      elim (Result-cases made.0) [
        | inl (id, e) ↦
            let sb = new_record req now id (or_empty (D.ip ctx id made.1).0) in
            let (done, backed') = made-IsBacked ctx req.image sb w db e refl backed in
            rw (e, after_create)
              (after_insert-IsBacked ctx sb (Registry.insert S sb db).0 _ done backed')
        | inr (f, e) ↦
            rw (e, after_create)
              (moved-IsBacked S IsName Lives
                (λ i living. F.create_keeps ctx (config_of req.image) w living) backed)
      ]

  after_exec-IsBacked :
      (id : Text) (now : Time) (r : Result ExecResult) (s : W × S.Db)
      → Backed s
      → Backed (after_exec S D id now r s).1
  unfolding after_exec perform
  after_exec-IsBacked id now (err e) s backed = backed
  after_exec-IsBacked id now (ok res) s backed = touch-IsBacked S IsName Lives L H id now backed

  after_get-IsBacked :
      (ctx : Context W) (id : Text) (now : Time) (cmd : List Text) (r : Result SandboxRecord)
      (s : W × S.Db)
      → Backed s
      → Backed (after_get S D ctx id now cmd r s).1
  unfolding after_get
  after_get-IsBacked ctx id now cmd (err e) s backed = backed
  after_get-IsBacked ctx id now cmd (ok sb) (w, db) backed = after_exec-IsBacked id now _ _ (
      moved-IsBacked S IsName Lives (λ i living. F.exec_keeps ctx id (build_cmd cmd) w living)
        backed)

  pub handle_exec_sandbox-IsBacked :
      (ctx : Context W) (id : Text) (now : Time) (req : Result (List Text)) (s : W × S.Db)
      → Backed s
      → Backed (handle_exec_sandbox S D ctx id now req s).1
  unfolding handle_exec_sandbox
  handle_exec_sandbox-IsBacked ctx id now (err e) s backed = backed
  handle_exec_sandbox-IsBacked ctx id now (ok []) s backed = backed
  handle_exec_sandbox-IsBacked ctx id now (ok (part ∷ cmd)) s backed =
      after_get-IsBacked ctx id now (part ∷ cmd) _ s backed

  after_delete-state : (o : Option Error) (s : W × S.Db) → (after_delete S D o s).1 ≡ s
  unfolding after_delete
  after_delete-state none s = refl
  after_delete-state (some e) s = refl

  pub handle_delete_sandbox-IsBacked :
      (ctx : Context W) (id : Text) (s : W × S.Db)
      → IsName id
      → Backed s
      → Backed (handle_delete_sandbox S D ctx id s).1
  unfolding handle_delete_sandbox after_destroy perform
  handle_delete_sandbox-IsBacked ctx id (w, db) name backed =
      let r = D.destroy ctx id w in
      elim (Result-cases r.0) [
        | inl (_, e) ↦
            rw (e, after_destroy, after_delete-state (Registry.delete S id db).0 _)
              (delete-IsBacked S IsName Lives L H id backed
                (λ j other living. F.destroy_keeps ctx id w name other living))
        | inr (f, e) ↦
            rw (e, after_destroy)
              (moved-IsBacked S IsName Lives (λ i living. F.destroy_failed ctx id w e living)
                backed)
      ]
