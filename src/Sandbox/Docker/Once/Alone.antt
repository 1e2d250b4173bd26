-- ===== src/Sandbox/Docker/Once/Alone.antt =====
-- One goroutine in `ensureNetwork`, against the method as one step.
use workspaces.Common.{
  [], ◌∷◌, Result, Bool, true, false, ◌≡◌, refl, ap, Option, none, some, ok, err, Error, arith,
  Bool-cases, inl, inr, succeeded,
}
use workspaces.Sandbox.Driver.{Context}
use workspaces.Sandbox.Docker.Client.{Client, DockerState}
use workspaces.Sandbox.Docker.Setup.{World, inspect_network, ensure_network}
use workspaces.Sandbox.Docker.Once.{
  Once, new_once, calling, locking, checking, asking, unlocking, behind, returned, error_of,
  ask_docker, act_once, called, acted, Moves, here, next, Group,
}

-- The once of a driver between two calls.
abbrev pub at_rest : Bool → Once
at_rest done = record { locked = false; finished = done }

module _ {W : Type 0} (C : Client W) where
  -- What Docker is asked, and what it answers, does not depend on the fields of the driver.
  asked_alike :
      (ctx : Context W) (d : DockerState) (w : W)
      → ask_docker C ctx w ≡ (
        error_of (inspect_network C (λ s. ctx s.1) (d, w)).0,
        (inspect_network C (λ s. ctx s.1) (d, w)).1.1,
      )
  unfolding ask_docker inspect_network
  asked_alike ctx d w = ground arith

  inspect_network-net_once :
      (ctx : Context (World C)) (d : DockerState) (w : W)
      → (inspect_network C ctx (d, w)).1.0.net_once ≡ succeeded (inspect_network C ctx (d, w)).0
  unfolding inspect_network
  inspect_network-net_once ctx d w = ground arith

  answered :
      (ctx : Context W) (w : W) {e : Option Error} {w' : W}
      → ask_docker C ctx w ≡ (e, w')
      → act_once C ctx asking (record { locked = true; finished = false }) w
        ≡ some (unlocking e, (record { locked = true; finished = true }, w'))
  unfolding act_once
  answered ctx w h = rw (ap (λ r. r.0) h, ap (λ r. r.1) h) refl

  -- It holds the mutex while Docker is asked, and lets go of it.
  asked :
      (ctx : Context W) (w : W) {e : Option Error} {w' : W}
      → ask_docker C ctx w ≡ (e, w')
      → Moves C ([], (at_rest false, w)) (behind e ∷ [], (at_rest true, w'))
  unfolding act_once
  asked ctx w h =
      next
        (next
          (next
            (next (next (next here called) (acted ctx [] [] calling refl refl))
              (acted ctx [] [] locking refl refl))
            (acted ctx [] [] checking refl refl))
          (acted ctx [] [] asking refl (answered ctx w h)))
        (acted ctx [] [] (unlocking _) refl refl)

  left :
      (ctx : Context W) (w : W) (r : Result (Unit {0})) {s : Group W}
      → Moves C s (behind (error_of r) ∷ [], (at_rest true, w))
      → Moves C s (returned (error_of r) ∷ [], (at_rest (succeeded r), w))
  unfolding act_once new_once
  left ctx w (ok _) m = next m (acted ctx [] [] (behind none) refl refl)
  left ctx w (err e) m = next m (acted ctx [] [] (behind (some e)) refl refl)

  waved :
      (ctx : Context W) (w : W)
      → Moves C ([], (at_rest true, w)) (returned none ∷ [], (at_rest true, w))
  unfolding act_once
  waved ctx w =
      next (next (next here called) (acted ctx [] [] calling refl refl))
        (acted ctx [] [] (behind none) refl refl)

  ensured :
      (ctx : Context (World C)) (d : DockerState) (w : W)
      → d.net_once ≡ true
      → ensure_network C ctx (d, w) ≡ (ok tt, (d, w))
  unfolding ensure_network
  ensured ctx d w e = ground arith

  inspected :
      (ctx : Context (World C)) (d : DockerState) (w : W)
      → d.net_once ≡ false
      → ensure_network C ctx (d, w) ≡ inspect_network C ctx (d, w)
  unfolding ensure_network
  inspected ctx d w e = ground arith

  -- While no other goroutine calls it, the actions of `ensureNetwork` come to what the method does as
  -- one step, on every branch: Docker is left as the step leaves it, the error is the step's, and
  -- the once counts as run, with its mutex unlocked, exactly where the step says so.
  pub ensure_network-Moves :
      (ctx : Context W) (d : DockerState) (w : W)
      → let r = ensure_network C (λ s. ctx s.1) (d, w) in
        Moves C
          ([], (at_rest d.net_once, w))
          (returned (error_of r.0) ∷ [], (at_rest r.1.0.net_once, r.1.1))
  ensure_network-Moves ctx d w =
      let ctx' : Context (World C) = λ s. ctx s.1 in
      elim (Bool-cases d.net_once) [
        | inl e ↦ rw (ensured ctx' d w e, e) (waved ctx w)
        | inr e ↦
            rw (inspected ctx' d w e, inspect_network-net_once ctx' d w)
              (simp e
                (left ctx _ (inspect_network C ctx' (d, w)).0 (asked ctx w (asked_alike ctx d w))))
      ]
