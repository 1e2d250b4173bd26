-- ===== src/Sandbox/Reaper/Sweep.antt =====
-- What a tick of the reaper does to the records, in terms of the map from ids to records.
use mathlib.Core.Path.{ap}
use mathlib.Core.Option
use workspaces.Common.{
  ℕ, Text, text_eq_iff, List, [], ◌∷◌, Bool, false, ◌≡◌, refl, ◌∙◌, Option, none, some, any, select,
  if◌then◌else◌, arith, ◌<◌, ◌*◌, ◌-◌, ◌^◌,
}
use workspaces.Common.Int.{pos, int64}
use workspaces.Sandbox.Driver.{Driver, Context, running, sleeping}
use workspaces.Sandbox.Registry.Sql.{Sqlite, IsSqlite, IsHealthy, Time}
use workspaces.Sandbox.Registry
use workspaces.Sandbox.Registry.{SandboxRecord}
use workspaces.Sandbox.Registry.Spec.{
  find, is_record, IsKeyed, idle, adjust, remove, written, Write,
}
use workspaces.Sandbox.Registry.Spec
use workspaces.Sandbox.Registry.Tables.{table}
use workspaces.Sandbox.Registry.Refines.{
  perform, perform-IsHealthy, find-adjust, find-remove, written-IsKeyed,
}
use workspaces.Sandbox.Registry.Queries.{list_older_than-idle, any-Permᴰ, any-select_absent}
use workspaces.Sandbox.Reaper.{Reaper, cutoff, sleep_loop, destroy_loop, tick, minute}

-- For fewer than a hundred million minutes the cutoff lies that many minutes before now, or at
-- the origin if now is less than that from it: the product does not overflow.
pub cutoff_pos : (now : Time) (m : ℕ) → m < 10 ^ 8 → cutoff now (pos m) ≡ now - m * minute
unfolding cutoff int64
cutoff_pos now m h = ground arith

-- The record of an id passes a test.
abbrev pub holds : (SandboxRecord → Bool) → Option SandboxRecord → Bool
holds p none = false
holds p (some sb) = p sb

abbrev pub dozing : SandboxRecord → SandboxRecord
dozing sb = record sb { status = sleeping }

-- What a tick leaves under an id: step 1 marks a record that ran and was idle since the first
-- cutoff, then step 2 takes it away if it sleeps and was idle since the second.
abbrev pub after_sleep : Time → Option SandboxRecord → Option SandboxRecord
after_sleep t old = if holds (idle t running) old then Option.map dozing old else old

abbrev pub after_destroy : Time → Option SandboxRecord → Option SandboxRecord
after_destroy t old = if holds (idle t sleeping) old then none else old

-- An id is among the selected records if its record passes.
any-select-find :
    (id : Text) (p : SandboxRecord → Bool) (sbs : List SandboxRecord)
    → IsKeyed sbs
    → any (is_record id) (select p sbs) ≡ holds p (find id sbs)
any-select-find id p [] k = refl
any-select-find id p (sb ∷ sbs) (fresh, k) =
    ground
      (arith, any-select-find id p sbs k, any-select_absent sb.id p sbs fresh, text_eq_iff sb.id id)

module _ (S : Sqlite) (L : IsSqlite S) (H : IsHealthy S) where
  -- What a loop leaves, from what each id was mapped to.
  abbrev pub Leaves : S.Db → (Text → Option SandboxRecord) → Type 0
  Leaves db m =
      (sbs : List SandboxRecord) × (S.rows db ≡ table S sbs)
      × IsKeyed sbs
      × ((id : Text) → find id sbs ≡ m id)

  module _ {W : Type 0} (D : Driver W) where
    sleep_loop-find :
        (out : List SandboxRecord) (db : S.Db) (sbs : List SandboxRecord)
        → S.rows db ≡ table S sbs
        → IsKeyed sbs
        → Leaves
            (sleep_loop S D out db)
            (λ id. if any (is_record id) out then Option.map dozing (find id sbs) else find id sbs)
    unfolding sleep_loop perform
    sleep_loop-find [] db sbs stored k = (sbs, stored, k, λ id. refl)
    sleep_loop-find (o ∷ out) db sbs stored k =
        let w = Spec.set_status o.id sleeping in
        let next = adjust o.id dozing sbs in
        let taken : written w sbs ≡ some next = unfold written in refl in
        let (_, stored') = perform-IsHealthy S L H w db sbs next stored taken in
        let (sbs', stored'', k', m) =
          sleep_loop-find out (perform S w db).1 next stored' (written-IsKeyed w sbs k taken) in
        (
          sbs',
          stored'',
          k',
          λ id. m id ∙ ground (arith, find-adjust o.id id dozing (λ _. refl) sbs),
        )

    pub destroy_loop-find :
        (ctx : Context W) (out : List SandboxRecord) (w : W) (db : S.Db) (sbs : List SandboxRecord)
        → S.rows db ≡ table S sbs
        → IsKeyed sbs
        → Leaves
            (destroy_loop S D ctx out (w, db)).1
            (λ id. if any (is_record id) out then none else find id sbs)
    unfolding destroy_loop perform
    destroy_loop-find ctx [] w db sbs stored k = (sbs, stored, k, λ id. refl)
    destroy_loop-find ctx (o ∷ out) w db sbs stored k =
        let v = Spec.delete o.id in
        let next = remove o.id sbs in
        let taken : written v sbs ≡ some next = unfold written in refl in
        let (_, stored') = perform-IsHealthy S L H v db sbs next stored taken in
        let (sbs', stored'', k', m) =
          destroy_loop-find ctx out (D.destroy ctx o.id w).1 (perform S v db).1 next stored'
            (written-IsKeyed v sbs k taken) in
        (sbs', stored'', k', λ id. m id ∙ ground (arith, find-remove o.id id sbs))

    -- The driver is asked for each listed sandbox in turn, whatever it answered before.
    abbrev pub destroy_all : Context W → List SandboxRecord → W → W
    destroy_all ctx [] w = w
    destroy_all ctx (sb ∷ sbs) w = destroy_all ctx sbs (D.destroy ctx sb.id w).1

    pub destroy_loop-world :
        (ctx : Context W) (out : List SandboxRecord) (w : W) (db : S.Db)
        → (destroy_loop S D ctx out (w, db)).0 ≡ destroy_all ctx out w
    unfolding destroy_loop
    destroy_loop-world ctx [] w db = refl
    destroy_loop-world ctx (o ∷ out) w db = destroy_loop-world ctx out (D.destroy ctx o.id w).1 _

    -- The records that a search for idle ones lists, by their ids.
    pub older-holds :
        (t : Time) (status : Text) (db : S.Db) (sbs : List SandboxRecord)
        → S.rows db ≡ table S sbs
        → IsKeyed sbs
        → (id : Text)
        → any (is_record id) ((Registry.list_older_than S t status db).0)
          ≡ holds (idle t status) (find id sbs)
    older-holds t status db sbs stored k id =
        let (rs, answered) = H.answers (Registry.older_query S t status) db in
        let (out, e, perm) = list_older_than-idle S L t status db sbs rs stored answered in
        rw e (any-Permᴰ (is_record id) perm ∙ any-select-find id (idle t status) sbs k)

    -- With an engine in order and a database that stores records of distinct ids, a tick leaves
    -- such a database, maps every id to what the two steps leave of its record, and asks the
    -- driver to destroy the sandboxes of exactly the ids whose record the second step takes away.
    pub tick_sweep :
        (r : Reaper) (ctx : Context W) (now : Time) (w : W) (db : S.Db) (sbs : List SandboxRecord)
        → S.rows db ≡ table S sbs
        → IsKeyed sbs
        → let slept = λ (id : Text). after_sleep (cutoff now r.idle_sleep_min) (find id sbs) in
          let t = cutoff now r.idle_destroy_min in
          Leaves (tick S D r ctx now (w, db)).1 (λ id. after_destroy t (slept id))
          × (out : List SandboxRecord) × ((tick S D r ctx now (w, db)).0 ≡ destroy_all ctx out w)
          × ((id : Text) → any (is_record id) out ≡ holds (idle t sleeping) (slept id))
    unfolding tick
    tick_sweep r ctx now w db sbs stored k =
        let asleep = (Registry.list_older_than S (cutoff now r.idle_sleep_min) running db).0 in
        let db' = sleep_loop S D asleep db in
        let (sbs', stored', k', m) = sleep_loop-find asleep db sbs stored k in
        let t = cutoff now r.idle_destroy_min in
        let gone = (Registry.list_older_than S t sleeping db').0 in
        let (sbs'', stored'', k'', m') = destroy_loop-find ctx gone w db' sbs' stored' k' in
        let slept = λ (id : Text).
          m id ∙ rw (older-holds (cutoff now r.idle_sleep_min) running db sbs stored k id) refl in
        let listed = λ (id : Text).
          older-holds t sleeping db' sbs' stored' k' id ∙ ap (holds (idle t sleeping)) (slept id) in
        (
          (sbs'', stored'', k'', λ id. m' id ∙ rw (listed id, slept id)),
          gone,
          destroy_loop-world ctx gone w db',
          listed,
        )
