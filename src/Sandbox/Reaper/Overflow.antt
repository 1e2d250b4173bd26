-- ===== src/Sandbox/Reaper/Overflow.antt =====
-- The cutoffs of internal/sandbox/reaper.go for large thresholds, and what a tick makes of them.
use workspaces.Common.{
  ℕ, ◌<◌, ◌≤◌, ◌+◌, ◌-◌, ◌*◌, ◌^◌, Text, text_eq, text_eq_refl, List, some, none, true, ◌≡◌, refl,
  ◌∙◌, arith, inl, inr, Bool-cases, leb, if◌then◌else◌,
}
use workspaces.Common.Int.{pos, int64}
use workspaces.Sandbox.Driver.{Driver, Context, running, sleeping}
use workspaces.Sandbox.Registry.Sql.{Sqlite, IsSqlite, IsHealthy, Time}
use workspaces.Sandbox.Registry.{SandboxRecord}
use workspaces.Sandbox.Registry.Spec.{find, IsKeyed, idle}
use workspaces.Sandbox.Registry.Tables.{table}
use workspaces.Sandbox.Registry.Changes.{IsUp}
use workspaces.Sandbox.Reaper.{Reaper, cutoff, minute, tick}
use workspaces.Sandbox.Reaper.Sweep.{tick_sweep, after_sleep, after_destroy, dozing}

-- A threshold whose minutes are at most 2⁶³ nanoseconds is taken off the time, down to the origin at
-- most. A larger one, below 2⁶⁴ nanoseconds, wraps around: the cutoff lies in the future.
pub cutoff_bounds :
    (now : Time) (m : ℕ)
    → m * minute < 2 ^ 64
    → cutoff now (pos m)
      ≡ (if leb (m * minute) (2 ^ 63) then now - m * minute else now + (2 ^ 64 - m * minute))
unfolding cutoff int64
cutoff_bounds now m small = ground (arith, small)

-- Such a threshold.
abbrev pub IsWrapped : ℕ → Type 0
IsWrapped m = (2 ^ 63 < m * minute) × (m * minute < 2 ^ 64)

cutoff-later : (now : Time) (m : ℕ) → IsWrapped m → now < cutoff now (pos m)
cutoff-later now m (large, small) = ground (arith, cutoff_bounds now m small, large, small)

late_sleeper :
    (t' : Time) (sb : SandboxRecord)
    → sb.last_active < t'
    → sb.status ≡ sleeping
    → after_destroy t' (some sb) ≡ none
late_sleeper t' sb late asleep =
    let same : text_eq sb.status sleeping ≡ true = rw asleep (text_eq_refl sleeping) in
    ground (arith, late, same)

late_gone :
    (t t' : Time) (sb : SandboxRecord)
    → sb.last_active < t
    → sb.last_active < t'
    → IsUp sb
    → after_destroy t' (after_sleep t (some sb)) ≡ none
late_gone t t' sb late late' (inl up) =
    let same : text_eq sb.status running ≡ true = rw up (text_eq_refl running) in
    let test : idle t running sb ≡ true = ground (arith, late, same) in
    rw test (late_sleeper t' (dozing sb) late' refl)
late_gone t t' sb late late' (inr asleep) = elim (Bool-cases (idle t running sb)) [
  | inl e ↦ rw e (late_sleeper t' (dozing sb) late' refl)
  | inr e ↦ rw e (late_sleeper t' sb late' asleep)
]

module _ (S : Sqlite) (L : IsSqlite S) (H : IsHealthy S) {W : Type 0} (D : Driver W) where
  -- With an engine in order, a database that stores records of distinct ids, and two thresholds that
  -- wrap around, which is what more than 292 years of minutes do: one tick takes the record of a
  -- sandbox away that runs or sleeps and was active up to now, however short a time ago.
  pub tick_wrapped :
      (r : Reaper) (ctx : Context W) (now : Time) (m m' : ℕ) (w : W) (db : S.Db)
      (sbs : List SandboxRecord)
      → r.idle_sleep_min ≡ pos m
      → r.idle_destroy_min ≡ pos m'
      → IsWrapped m
      → IsWrapped m'
      → S.rows db ≡ table S sbs
      → IsKeyed sbs
      → (id : Text) {sb : SandboxRecord} → find id sbs ≡ some sb
      → IsUp sb
      → sb.last_active ≤ now
      → (sbs' : List SandboxRecord) × (S.rows (tick S D r ctx now (w, db)).1 ≡ table S sbs')
        × (find id sbs' ≡ none)
  tick_wrapped r ctx now m m' w db sbs sleeps destroys wraps wraps' stored k id {sb} found up
        active =
      let (sbs', stored', _, left) = (tick_sweep S L H D r ctx now w db sbs stored k).0 in
      let t : now < cutoff now r.idle_sleep_min = rw sleeps (cutoff-later now m wraps) in
      let t' : now < cutoff now r.idle_destroy_min = rw destroys (cutoff-later now m' wraps') in
      (
        sbs',
        stored',
        left id
            ∙ rw found (
                late_gone (cutoff now r.idle_sleep_min) (cutoff now r.idle_destroy_min) sb
                  (omega (arith, t, active)) (omega (arith, t', active)) up),
      )
