-- ===== src/Sandbox/Docker/Once/Crash.antt =====
-- The goroutines of `ensureNetwork` when Docker fails.
use workspaces.Common.{[], ◌∷◌, true, ◌≡◌, refl, ap, none, some, Error}
use workspaces.Sandbox.Driver.{Context}
use workspaces.Sandbox.Docker.Client.{Client}
use workspaces.Sandbox.Docker.Once.{
  Once, new_once, calling, locking, checking, asking, unlocking, behind, returned, ask_docker,
  act_once, Group, IsFatal, called, acted, Moves, here, next,
}

module _ {W : Type 0} (C : Client W) where
  asked :
      (ctx : Context W) (o : Once) (w : W) {e : Error} {w' : W}
      → ask_docker C ctx w ≡ (some e, w')
      → act_once C ctx asking o w ≡ some (unlocking (some e), (record o { finished = true }, w'))
  unfolding act_once
  asked ctx o w fails = rw (ap (λ r. r.0) fails, ap (λ r. r.1) fails) refl

  -- One goroutine is behind `Do` with the error, and another holds the mutex and finds the flag set.
  overtaken :
      (ctx : Context W) (w : W) {e : Error} {w' : W}
      → ask_docker C ctx w ≡ (some e, w')
      → Moves C
          ([], (new_once, w))
          (behind (some e) ∷ unlocking none ∷ [], (record { locked = true; finished = true }, w'))
  unfolding act_once new_once
  overtaken ctx w {e} {w'} fails =
      next
        (next
          (next
            (next
              (next
                (next
                  (next (next (next (next here called) called) (acted ctx [] _ calling refl refl))
                    (acted ctx (locking ∷ []) [] calling refl refl))
                  (acted ctx [] _ locking refl refl))
                (acted ctx [] _ checking refl refl))
              (acted ctx [] _ asking refl (asked ctx (record new_once { locked = true }) w fails)))
            (acted ctx [] _ (unlocking (some e)) refl refl))
          (acted ctx (behind (some e) ∷ []) [] locking refl refl))
        (acted ctx (behind (some e) ∷ []) [] checking refl refl)

  -- If the function that `Do` runs leaves an error, be it one of the network's inspection or of its
  -- creation, then of two goroutines that call `ensureNetwork` the one that waited for the other
  -- can return without an error, and they can come to a state in which it is about to unlock a mutex
  -- that is not locked, since the other has put a fresh `sync.Once` in its place meanwhile.
  pub crash :
      (ctx : Context W) (w : W) {e : Error} {w' : W}
      → ask_docker C ctx w ≡ (some e, w')
      → Moves C ([], (new_once, w)) (returned (some e) ∷ returned none ∷ [], (new_once, w'))
        × (t : Group W) × Moves C ([], (new_once, w)) t
        × IsFatal t
  unfolding act_once new_once
  crash ctx w {e} {w'} fails =
      let r = overtaken ctx w fails in
      (
        next
            (next (next r (acted ctx (behind (some e) ∷ []) [] (unlocking none) refl refl))
              (acted ctx (behind (some e) ∷ []) [] (behind none) refl refl))
            (acted ctx [] _ (behind (some e)) refl refl),
        _,
        next r (acted ctx [] _ (behind (some e)) refl refl),
        (returned (some e) ∷ [], [], none, refl, refl),
      )
