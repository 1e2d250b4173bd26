-- ===== src/Sandbox/Docker/Setup.antt =====
-- `initClient`, `ensureNetwork` and `ensureImage` of internal/sandbox/docker.go.
use workspaces.Common.{
  Text, text, quote, ◌++◌, true, false, not, ok, err, Error, Step, wrapped, attempt, pure, fail,
  context, if◌then◌else◌, ◌≡◌, refl, arith, none, succeeded,
}
use workspaces.Sandbox.Driver.{Context}
use workspaces.Sandbox.Docker.Client.{Client, DockerState, call, set_state}

unfoldable pub sandbox_net_name : Text
sandbox_net_name = text "sandbox-net"

unfoldable pub sandbox_net_subnet : Text
sandbox_net_subnet = text "10.0.5.0/24"

unfoldable pub sandbox_net_gw : Text
sandbox_net_gw = text "10.0.5.1"

module _ {W : Type 0} (C : Client W) where
  abbrev pub World : Type 0
  World = DockerState × W

  unfoldable pub init_client : Step World (Unit {0})
  init_client (d, w) =
      if d.connected
      then (ok tt, (d, w))
      else attempt (call (λ _. C.connect) (λ _. none))
          (λ r. elim r [
            | err e ↦ fail (wrapped (text "docker client: ") e)
            | ok _ ↦ set_state (λ c. record c { connected = true })
          ])
          (d, w)

  -- `Do` marks the once as run, and an error puts a fresh one in its place.
  once_done : Step World (Unit {0})
  once_done = set_state (λ c. record c { net_once = true })

  once_reset : Error → Step World (Unit {0})
  once_reset e (d, w) = (err e, (record d { net_once = false }, w))

  create_network : Context World → Step World (Unit {0})
  unfolding once_done once_reset
  create_network ctx =
      attempt
        (call (λ c. C.network_create c sandbox_net_name sandbox_net_subnet sandbox_net_gw) ctx)
        (λ r. elim r [
          | err e ↦ once_reset (wrapped (text "sandbox-net create: ") e)
          | ok _ ↦ once_done
        ])

  -- The function that `netOnce.Do` runs.
  unfoldable pub inspect_network : Context World → Step World (Unit {0})
  unfolding create_network
  inspect_network ctx = attempt (call (λ c. C.network_inspect c sandbox_net_name) ctx) (λ r.
      elim r [
        | ok _ ↦ once_done
        | err e ↦
            if not (C.is_not_found e)
            then once_reset (wrapped (text "sandbox-net inspect: ") e)
            else create_network ctx
      ])

  unfoldable pub ensure_network : Context World → Step World (Unit {0})
  unfolding inspect_network
  ensure_network ctx (d, w) = if d.net_once then (ok tt, (d, w)) else inspect_network ctx (d, w)

  pull_image : Context World → Text → Step World (Unit {0})
  pull_image ctx img =
      context (text "image pull " ++ quote img ++ text ": ") (call (λ c. C.image_pull c img) ctx)

  unfoldable pub ensure_image : Context World → Text → Step World (Unit {0})
  unfolding pull_image
  ensure_image ctx img = attempt (call (λ c. C.image_inspect c img) ctx) (λ r. elim r [
    | ok _ ↦ pure tt
    | err e ↦
        if not (C.is_not_found e)
        then fail (wrapped (text "image inspect " ++ quote img ++ text ": ") e)
        else pull_image ctx img
  ])

  -- The once counts as run exactly where the call succeeded.
  ensure_network-net_once :
      (ctx : Context World) (s : World)
      → (ensure_network ctx s).1.0.net_once ≡ succeeded (ensure_network ctx s).0
  unfolding ensure_network
  ensure_network-net_once ctx (d, w) = ground arith

  -- Calls in a row: what the second does follows from what the first returned. After a success it
  -- returns at once and changes nothing; after a failure it asks Docker for the network again.
  ensure_network_twice :
      (ctx ctx' : Context World) (s : World)
      → let s' = (ensure_network ctx s).1 in
        ensure_network ctx' s'
        ≡ (if succeeded (ensure_network ctx s).0 then (ok tt, s') else inspect_network ctx' s')
  unfolding ensure_network
  ensure_network_twice ctx ctx' s = rw (← ensure_network-net_once ctx s) refl
