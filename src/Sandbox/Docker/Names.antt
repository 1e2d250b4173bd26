-- ===== src/Sandbox/Docker/Names.antt =====
-- The names under which the driver of internal/sandbox/docker.go makes its containers and destroys
-- them again.
use mathlib.Core.Path.{subst}
use workspaces.Common.{
  ◌∙◌, Text, text, List, ◌∷◌, ◌++◌, take, ok, ◌≡◌, true, arith, Result-cases, inl, inr,
}
use workspaces.Sandbox.Driver.{Context, Config}
use workspaces.Sandbox.Env.{Environ}
use workspaces.Sandbox.Docker.Client.{Client, ContainerConfig}
use workspaces.Sandbox.Docker.Setup.{World, init_client, ensure_network, ensure_image}
use workspaces.Sandbox.Docker.Create.{create, launch, start_or_remove, image_of, container_config}
use workspaces.Sandbox.Docker.Files.{ip, destroy}
use workspaces.Sandbox.Docker.Effects.{removal}
use workspaces.Sandbox.Docker.Containers.{IsDaemon, IsRemoved, held}

-- What Docker promises about names: a new container has the name that was asked for, looking at a
-- container, starting and stopping it change no list and no name, and a forced removal under the name
-- of the newest container is one of that container.
pub record IsNaming {W : Type 0} (C : Client W) (I : IsDaemon C) : Type 0 where
  -- the name of the newest container
  pub newest : W → Text
  pub create_names :
      (c : Context W) (cfg : ContainerConfig) (name : Text) (w : W) {id : Text}
      → (C.container_create c cfg name w).0 ≡ ok id
      → newest (C.container_create c cfg name w).1 ≡ name
  pub start_keeps_name :
      (c : Context W) (id : Text) (w : W) → newest (C.container_start c id w).1 ≡ newest w
  pub inspect_keeps :
      (c : Context W) (id : Text) (w : W)
      → I.containers (C.container_inspect c id w).1 ≡ I.containers w
  pub inspect_keeps_name :
      (c : Context W) (id : Text) (w : W) → newest (C.container_inspect c id w).1 ≡ newest w
  pub stop_keeps :
      (c : Context W) (id : Text) (w : W)
      → I.containers (C.container_stop c id w).1 ≡ I.containers w
  pub stop_keeps_name :
      (c : Context W) (id : Text) (w : W) → newest (C.container_stop c id w).1 ≡ newest w
  pub remove_by_name :
      (c : Context W) (id : Text) (ids : List Text) (w : W)
      → I.containers w ≡ id ∷ ids
      → IsRemoved
          (C.container_remove c (newest w) w).0
          id
          ids
          (I.containers (C.container_remove c (newest w) w).1)

module _ (E : Environ) {W : Type 0} (C : Client W) (I : IsDaemon C) (N : IsNaming C I) where
  launch-newest :
      (ctx : Context (World C)) (cfg : Config) (s : World C) {name : Text}
      → (launch E C ctx cfg s).0 ≡ ok name
      → N.newest (launch E C ctx cfg s).1.1 ≡ name
  unfolding launch start_or_remove
  launch-newest ctx cfg (d, w) h =
      let c = λ (v : W). ctx (d, v) in
      let name = text "forge-sandbox-" ++ take 8 (C.new_uuid w).0 in
      let w₁ = (C.new_uuid w).1 in
      let made = C.container_create c (container_config E cfg) name w₁ in
      elim (Result-cases made.0) [
        | inl (id, e) ↦ ground (
          arith,
          e,
          h,
          N.create_names c (container_config E cfg) name w₁ e,
          N.start_keeps_name c id made.1,
        )
        | inr (f, e) ↦ ground (arith, e, h)
      ]

  launch-connected :
      (ctx : Context (World C)) (cfg : Config) (s : World C)
      → (launch E C ctx cfg s).1.0.connected ≡ s.0.connected
  unfolding launch start_or_remove
  launch-connected ctx cfg (d, w) = ground arith

  ensure_network-connected :
      (ctx : Context (World C)) (s : World C)
      → (ensure_network C ctx s).1.0.connected ≡ s.0.connected
  unfolding ensure_network
  ensure_network-connected ctx (d, w) = ground arith

  ensure_image-connected :
      (ctx : Context (World C)) (img : Text) (s : World C)
      → (ensure_image C ctx img s).1.0.connected ≡ s.0.connected
  unfolding ensure_image
  ensure_image-connected ctx img (d, w) = ground arith

  init_client-connected :
      (s : World C) {u : Unit {0}}
      → (init_client C s).0 ≡ ok u
      → (init_client C s).1.0.connected ≡ true
  unfolding init_client
  init_client-connected (d, w) h = ground (arith, h)

  -- A sandbox that was created is the newest container, under the name that the caller gets, and
  -- the client is at hand.
  pub create-newest :
      (ctx : Context (World C)) (cfg : Config) (s : World C) {name : Text}
      → (create E C ctx cfg s).0 ≡ ok name
      → (N.newest (create E C ctx cfg s).1.1 ≡ name) × ((create E C ctx cfg s).1.0.connected ≡ true)
  unfolding create
  create-newest ctx cfg s {name} h =
      let s₁ = (init_client C s).1 in
      let s₂ = (ensure_network C ctx s₁).1 in
      let s₃ = (ensure_image C ctx (image_of E cfg) s₂).1 in
      let launched : (launch E C ctx cfg s₃).0 ≡ ok name = ground (arith, h) in
      (
        ground (arith, h, launch-newest ctx cfg s₃ launched),
        ground (
          arith,
          h,
          init_client-connected s,
          ensure_network-connected ctx s₁,
          ensure_image-connected ctx (image_of E cfg) s₂,
          launch-connected ctx cfg s₃,
        ),
      )

  -- To ask for an address changes nothing of this.
  pub ip_keeps :
      (ctx : Context (World C)) (id : Text) (s : World C)
      → s.0.connected ≡ true
      → (held E C I (ip C ctx id s).1 ≡ held E C I s)
        × (N.newest (ip C ctx id s).1.1 ≡ N.newest s.1)
        × ((ip C ctx id s).1.0.connected ≡ true)
  unfolding ip init_client
  ip_keeps ctx id (d, w) k =
      let c = λ (v : W). ctx (d, v) in
      (
        ground (arith, N.inspect_keeps c id w),
        ground (arith, N.inspect_keeps_name c id w),
        ground arith,
      )

  -- With a client at hand, to destroy a sandbox by the name of the newest container takes that one
  -- away, if Docker does not refuse to remove it.
  pub destroy_newest :
      (ctx : Context (World C)) {id : Text} (ids : List Text) (s : World C)
      → s.0.connected ≡ true
      → held E C I s ≡ id ∷ ids
      → IsRemoved
          (removal C ctx (N.newest s.1) s)
          id
          ids
          (held E C I (destroy C ctx (N.newest s.1) s).1)
  unfolding destroy init_client
  destroy_newest ctx {id} ids (d, w) k h =
      let c = λ (v : W). ctx (d, v) in
      let w' = (C.container_stop c (N.newest w) w).1 in
      let w'' = (C.container_remove c (N.newest w) w').1 in
      let here : I.containers w' ≡ id ∷ ids = N.stop_keeps c (N.newest w) w ∙ h in
      let gone : IsRemoved (C.container_remove c (N.newest w) w').0 id ids (I.containers w'') =
        subst
          (λ n.
            IsRemoved (C.container_remove c n w').0 id ids
              (I.containers (C.container_remove c n w').1))
          (N.stop_keeps_name c (N.newest w) w) (N.remove_by_name c id ids w' here) in
      let same : held E C I (destroy C ctx (N.newest w) (d, w)).1 ≡ I.containers w'' =
        ground (arith, k) in
      rw same gone
