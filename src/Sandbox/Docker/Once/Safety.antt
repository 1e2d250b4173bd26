-- ===== src/Sandbox/Docker/Once/Safety.antt =====
-- The goroutines of `ensureNetwork` while Docker answers.
use workspaces.Common.{
  ℕ, ◌+◌, List, [], ◌∷◌, ◌++◌, ◌≡◌, refl, ap, Option, none, some, arith, Bool-cases, inl, inr,
  if◌then◌else◌, All, All-pick, All-replace, ◌≤◌,
}
use mathlib.Core.Path.{subst}
use workspaces.Sandbox.Driver.{Context}
use workspaces.Sandbox.Docker.Client.{Client}
use workspaces.Sandbox.Docker.Once.{
  Once, new_once, Place, calling, locking, checking, asking, unlocking, behind, returned,
  ask_docker, act_once, Group, IsFatal, Move, called, acted, Moves,
}
use workspaces.Sandbox.Docker.Once

-- Whether a goroutine holds the mutex.
abbrev pub held : Place → ℕ
held checking = 1
held asking = 1
held (unlocking e) = 1
held calling = 0
held locking = 0
held (behind e) = 0
held (returned e) = 0

abbrev pub holders : List Place → ℕ
holders [] = 0
holders (p ∷ ps) = held p + holders ps

holders-append : (ps qs : List Place) → holders (ps ++ qs) ≡ holders ps + holders qs
holders-append [] qs = omega arith
holders-append (p ∷ ps) qs = omega (arith, holders-append ps qs)

-- No error is under way.
abbrev pub IsClean : Place → Type 0
IsClean (unlocking e) = e ≡ none
IsClean (behind e) = e ≡ none
IsClean (returned e) = e ≡ none
IsClean _ = Unit

abbrev locks : Once → ℕ
locks o = if o.locked then 1 else 0

module _ {W : Type 0} (C : Client W)
    (answers : (ctx : Context W) (w : W) → (ask_docker C ctx w).0 ≡ none) where
  -- The mutex is locked while one goroutine holds it, and no error is under way.
  abbrev IsSound : Group W → Type 0
  IsSound s = (holders s.0 ≡ locks s.1.0) × All IsClean s.0

  -- What an action leaves: the count of those that hold the mutex, and no error.
  abbrev Keeps : ℕ → Option (Place × (Once × W)) → Type 0
  Keeps rest none = Unit
  Keeps rest (some (p, (o, w))) = (held p + rest ≡ locks o) × IsClean p

  act_once-Keeps :
      (ctx : Context W) (p : Place) (o : Once) (w : W) (rest : ℕ)
      → held p + rest ≡ locks o
      → IsClean p
      → Keeps rest (act_once C ctx p o w)
  unfolding act_once
  act_once-Keeps ctx calling o w rest n clean = elim (Bool-cases o.finished) [
    | inl e ↦ rw e (n, refl)
    | inr e ↦ rw e (n, tt)
  ]
  act_once-Keeps ctx locking o w rest n clean = elim (Bool-cases o.locked) [
    | inl e ↦ rw e tt
    | inr e ↦ rw e (ground (arith, n, e), tt)
  ]
  act_once-Keeps ctx checking o w rest n clean = elim (Bool-cases o.finished) [
    | inl e ↦ rw e (n, refl)
    | inr e ↦ rw e (n, tt)
  ]
  act_once-Keeps ctx asking o w rest n clean = (n, answers ctx w)
  act_once-Keeps ctx (unlocking e) o w rest n clean = elim (Bool-cases o.locked) [
    | inl l ↦ rw l (ground (arith, n, l), clean)
    | inr l ↦ rw l tt
  ]
  act_once-Keeps ctx (behind none) o w rest n clean = (n, refl)
  act_once-Keeps ctx (behind (some e)) o w rest n clean = cc clean
  act_once-Keeps ctx (returned e) o w rest n clean = tt

  Move-IsSound : {s t : Group W} → Move C s t → IsSound s → IsSound t
  Move-IsSound called (n, clean) = (omega (arith, n), (tt, clean))
  Move-IsSound {s} (acted ctx before after p {p'} {o} {w} e h) (n, clean) =
      let rest = holders before + holders after in
      let all = subst (All IsClean) e clean in
      let count : held p + rest ≡ locks s.1.0 =
        ground (arith, n, ap holders e, holders-append before (p ∷ after)) in
      let (count', clean') =
        subst (Keeps rest) h
          (act_once-Keeps ctx p s.1.0 s.1.1 rest count (All-pick IsClean before p after all)) in
      (
        ground (arith, count', holders-append before (p' ∷ after)),
        All-replace IsClean before p p' after all clean',
      )

  Moves-IsSound : {s t : Group W} → Moves C s t → IsSound s → IsSound t
  Moves-IsSound Once.here sound = sound
  Moves-IsSound (Once.next r step) sound = Move-IsSound step (Moves-IsSound r sound)

  -- While Docker answers, so that the function that `Do` runs leaves no error: however many
  -- goroutines call `ensureNetwork` and in whatever order they act, at most one of them holds the
  -- mutex, none is about to unlock a mutex that is not locked, and none that has returned did so with
  -- an error.
  pub Moves-IsSafe :
      {w : W} {t : Group W}
      → Moves C ([], (new_once, w)) t
      → (holders t.0 ≤ 1) × (¬ IsFatal t) × All IsClean t.0
  unfolding new_once
  Moves-IsSafe {w} {t} r =
      let sound = Moves-IsSound r (refl, tt) in
      (
        ground (arith, sound.0),
        (λ (before, after, e, h, unlocked).
            ground (
              arith,
              sound.0,
              ap holders h,
              unlocked,
              holders-append before (unlocking e ∷ after),
            )),
        sound.1,
      )
