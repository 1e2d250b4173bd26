-- ===== src/Sandbox/Fleet/Sweep.antt =====
-- A tick of the reaper and the sandboxes that there are.
use workspaces.Common.{
  Text, text_eq_refl, List, [], ◌∷◌, true, false, ◌≡◌, refl, ◌∙◌, sym, Option, none, some, any,
  arith,
}
use mathlib.Core.Path.{subst}
use workspaces.Sandbox.Driver.{Driver, Context, sleeping}
use workspaces.Sandbox.Fleet.{IsFleet}
use workspaces.Sandbox.Fleet.Records.{IsBacked}
use workspaces.Sandbox.Registry.Sql.{Sqlite, IsSqlite, IsHealthy, Time}
use workspaces.Sandbox.Registry.{SandboxRecord}
use workspaces.Sandbox.Registry.Spec.{find, is_record, idle}
use workspaces.Sandbox.Reaper.{Reaper, cutoff, tick}
use workspaces.Sandbox.Reaper.Sweep.{tick_sweep, destroy_all, after_sleep, after_destroy, holds}

-- A record that a tick leaves was there before it, and was not to be destroyed.
spared :
    (t t' : Time) (old : Option SandboxRecord) {sb : SandboxRecord}
    → after_destroy t' (after_sleep t old) ≡ some sb
    → (holds (idle t' sleeping) (after_sleep t old) ≡ false)
      × (before : SandboxRecord) × (old ≡ some before)
spared t t' none h = ground (arith, h)
spared t t' (some before) h = (ground (arith, h), before, refl)

listed :
    (t t' : Time) (old : Option SandboxRecord)
    → holds (idle t' sleeping) (after_sleep t old) ≡ true
    → (before : SandboxRecord) × (old ≡ some before)
listed t t' none h = ground (arith, h)
listed t t' (some before) h = (before, refl)

module _ {W : Type 0} (D : Driver W) (IsName : Text → Type 0) (Lives : Text → W → Type 0)
    (F : IsFleet D IsName Lives) (S : Sqlite) (L : IsSqlite S) (H : IsHealthy S) where
  destroy_all-keeps :
      (ctx : Context W) (out : List SandboxRecord) (w : W) {i : Text}
      → ((id : Text) → any (is_record id) out ≡ true → IsName id)
      → any (is_record i) out ≡ false
      → Lives i w
      → Lives i (destroy_all S L H D ctx out w)
  destroy_all-keeps ctx [] w named absent living = living
  destroy_all-keeps ctx (o ∷ out) w {i} named absent living =
      destroy_all-keeps ctx out (D.destroy ctx o.id w).1 (λ id h. named id (ground (arith, h)))
        (ground (arith, absent))
        (F.destroy_keeps ctx o.id w (named o.id (ground (arith, text_eq_refl o.id)))
          (ground (arith, absent)) living)

  pub tick-IsBacked :
      (r : Reaper) (ctx : Context W) (now : Time) (s : W × S.Db)
      → IsBacked S IsName Lives s
      → IsBacked S IsName Lives (tick S D r ctx now s)
  tick-IsBacked r ctx now (w, db) (sbs, stored, k, backed) =
      let t = cutoff now r.idle_sleep_min in
      let t' = cutoff now r.idle_destroy_min in
      let ((sbs', stored', k', left), out, world, gone) =
        tick_sweep S L H D r ctx now w db sbs stored k in
      let named : (id : Text) → any (is_record id) out ≡ true → IsName id = λ id h.
        (let (old, found) = listed t t' (find id sbs) (sym (gone id) ∙ h) in
          (backed id old found).0) in
      (
        sbs',
        stored',
        k',
        λ id sb found.
            (let (awake, old, before) = spared t t' (find id sbs) (sym (left id) ∙ found) in
              let (name, living) = backed id old before in
              (
                name,
                subst (Lives id) (sym world)
                    (destroy_all-keeps ctx out w named (gone id ∙ awake) living),
              )),
      )
