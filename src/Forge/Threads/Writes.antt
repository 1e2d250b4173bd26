-- ===== src/Forge/Threads/Writes.antt =====
-- The writes that the threads make.
use workspaces.Common.{Text, List, [], ◌∷◌, Option, none, some, Result, ok, err, Error, refl}
use workspaces.Sandbox.Driver.{Driver, Context, ExecResult, running, sleeping}
use workspaces.Sandbox.Registry.Sql.{Sqlite, Time}
use workspaces.Sandbox.Registry.{SandboxRecord}
use workspaces.Sandbox.Registry
use workspaces.Sandbox.Registry.Spec.{insert, delete, touch, set_status}
use workspaces.Sandbox.Registry.Refines.{perform}
use workspaces.Sandbox.Registry.Changes.{Change, kept, wrote}
use workspaces.Sandbox.Reaper.{Reaper, cutoff}
use workspaces.Api.Sandboxes.{CreateSandboxRequest, new_record, or_empty}
use workspaces.Api.Routes.{State}
use workspaces.Forge.Threads.{
  followed_by, within, Thread, done, act, create_thread, created_thread, made_thread, exec_thread,
  found_thread, executed_thread, delete_thread, destroyed_thread, deleted_thread, tick_thread,
  remove_thread, sleep_thread, destroy_thread,
}
use workspaces.Forge.Threads.Requests.{map_thread}

module _ (S : Sqlite) {W : Type 0} where
  -- Whatever states its actions meet, each changes the database by allowed writes only.
  abbrev pub IsGood : {A : Type 0} → Thread (State S W) A → Type 0
  IsGood (done a) = Unit
  IsGood (act f k) = (x : State S W) → Change S x.1.1 (f x).1.1 × IsGood (k x)

  pub map_thread-IsGood :
      {A B : Type 0} (g : A → B) (t : Thread (State S W) A) → IsGood t → IsGood (map_thread g t)
  map_thread-IsGood g (done a) h = tt
  map_thread-IsGood g (act f k) h = λ x. ((h x).0, map_thread-IsGood g (k x) (h x).1)

  pub followed_by-IsGood :
      {A B : Type 0} (t : Thread (State S W) A) (k : A → Thread (State S W) B)
      → IsGood t
      → ((a : A) → IsGood (k a))
      → IsGood (followed_by t k)
  followed_by-IsGood (done a) k h later = later a
  followed_by-IsGood (act f g) k h later = λ x. ((h x).0, followed_by-IsGood (g x) k (h x).1 later)

  pub within-IsGood : {A : Type 0} (t : Thread W A) → IsGood (within S t)
  within-IsGood (done a) = tt
  within-IsGood (act f k) = λ x. (kept, within-IsGood (k x.1.0))

  module _ (D : Driver W) where
    created_thread-IsGood :
        (ctx : Context W) (sb : SandboxRecord) (o : Option Error)
        → IsGood (created_thread S D ctx sb o)
    unfolding created_thread
    created_thread-IsGood ctx sb none = tt
    created_thread-IsGood ctx sb (some e) = λ x. (kept, tt)

    made_thread-IsGood :
        (ctx : Context W) (now : Time) (req : CreateSandboxRequest) (made : Result Text)
        → IsGood (made_thread S D ctx now req made)
    unfolding made_thread new_record perform
    made_thread-IsGood ctx now req (err e) = tt
    made_thread-IsGood ctx now req (ok id) = λ x. (
      kept,
      λ y.
          let sb = new_record req now id (or_empty (D.ip ctx id x.1.0).0) in
          (wrote (insert sb) refl, created_thread-IsGood ctx sb (Registry.insert S sb y.1.1).0),
    )

    pub create_thread-IsGood :
        (ctx : Context W) (now : Time) (req : Result CreateSandboxRequest)
        → IsGood (create_thread S D ctx now req)
    unfolding create_thread
    create_thread-IsGood ctx now (err e) = tt
    create_thread-IsGood ctx now (ok req) = λ x. (kept, made_thread-IsGood ctx now req _)

    executed_thread-IsGood :
        (id : Text) (now : Time) (r : Result ExecResult) → IsGood (executed_thread S D id now r)
    unfolding executed_thread perform
    executed_thread-IsGood id now (err e) = tt
    executed_thread-IsGood id now (ok res) = λ x. (wrote (touch id now) tt, tt)

    found_thread-IsGood :
        (ctx : Context W) (id : Text) (now : Time) (cmd : List Text) (r : Result SandboxRecord)
        → IsGood (found_thread S D ctx id now cmd r)
    unfolding found_thread
    found_thread-IsGood ctx id now cmd (err e) = tt
    found_thread-IsGood ctx id now cmd (ok sb) = λ x. (kept, executed_thread-IsGood id now _)

    pub exec_thread-IsGood :
        (ctx : Context W) (id : Text) (now : Time) (req : Result (List Text))
        → IsGood (exec_thread S D ctx id now req)
    unfolding exec_thread
    exec_thread-IsGood ctx id now (err e) = tt
    exec_thread-IsGood ctx id now (ok []) = tt
    exec_thread-IsGood ctx id now (ok (part ∷ cmd)) =
        λ x. (kept, found_thread-IsGood ctx id now (part ∷ cmd) _)

    deleted_thread-IsGood : (o : Option Error) → IsGood (deleted_thread S D o)
    unfolding deleted_thread
    deleted_thread-IsGood none = tt
    deleted_thread-IsGood (some e) = tt

    destroyed_thread-IsGood :
        (id : Text) (r : Result (Unit {0})) → IsGood (destroyed_thread S D id r)
    unfolding destroyed_thread perform
    destroyed_thread-IsGood id (err e) = tt
    destroyed_thread-IsGood id (ok _) = λ x. (wrote (delete id) tt, deleted_thread-IsGood _)

    pub delete_thread-IsGood : (ctx : Context W) (id : Text) → IsGood (delete_thread S D ctx id)
    unfolding delete_thread
    delete_thread-IsGood ctx id = λ x. (kept, destroyed_thread-IsGood id _)

    sleep_thread-IsGood :
        {A : Type 0} (out : List SandboxRecord) (k : Thread (State S W) A)
        → IsGood k
        → IsGood (sleep_thread S D out k)
    unfolding sleep_thread perform
    sleep_thread-IsGood [] k h = h
    sleep_thread-IsGood (sb ∷ sbs) k h =
        λ x. (wrote (set_status sb.id sleeping) refl, sleep_thread-IsGood sbs k h)

    destroy_thread-IsGood :
        {A : Type 0} (ctx : Context W) (out : List SandboxRecord) (k : Thread (State S W) A)
        → IsGood k
        → IsGood (destroy_thread S D ctx out k)
    unfolding destroy_thread perform
    destroy_thread-IsGood ctx [] k h = h
    destroy_thread-IsGood ctx (sb ∷ sbs) k h =
        λ x. (kept, λ y. (wrote (delete sb.id) tt, destroy_thread-IsGood ctx sbs k h))

    remove_thread-IsGood :
        (r : Reaper) (ctx : Context W) (now : Time) → IsGood (remove_thread S D r ctx now)
    unfolding remove_thread
    remove_thread-IsGood r ctx now = λ x. (
      kept,
      destroy_thread-IsGood ctx
          ((Registry.list_older_than S (cutoff now r.idle_destroy_min) sleeping x.1.1).0) (done tt)
          tt,
    )

    pub tick_thread-IsGood :
        (r : Reaper) (ctx : Context W) (now : Time) → IsGood (tick_thread S D r ctx now)
    unfolding tick_thread
    tick_thread-IsGood r ctx now = λ x. (
      kept,
      sleep_thread-IsGood
          ((Registry.list_older_than S (cutoff now r.idle_sleep_min) running x.1.1).0)
          (remove_thread S D r ctx now) (remove_thread-IsGood r ctx now),
    )
