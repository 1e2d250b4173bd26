-- ===== src/Sandbox/Docker/Containers.antt =====
-- The containers of the daemon under `Create` and `Destroy` of internal/sandbox/docker.go.
use workspaces.Common.{
  ap, sym, wrapped, ◌⊎◌, ◌∙◌, refl, Error, Text, text, List, ◌∷◌, ◌++◌, take, Result, ok, err, ◌≡◌,
  arith, Result-cases, inl, inr,
}
use workspaces.Sandbox.Driver.{Context, Config}
use workspaces.Sandbox.Env.{Environ}
use workspaces.Sandbox.Docker.Client.{Client, ContainerConfig}
use workspaces.Sandbox.Docker.Setup.{
  World, init_client, ensure_network, ensure_image, sandbox_net_name, sandbox_net_subnet,
  sandbox_net_gw,
}
use workspaces.Sandbox.Docker.Create.{create, launch, start_or_remove, image_of, container_config}

abbrev added : Result Text → List Text → List Text
added (ok id) ids = id ∷ ids
added (err e) ids = ids

-- What a removal of the newest container leaves: it takes that one away if it succeeds, and may leave
-- it if it returns an error, as under a context that is cancelled.
abbrev pub IsRemoved : Result (Unit {0}) → Text → List Text → List Text → Type 0
IsRemoved (ok _) id ids after = after ≡ ids
IsRemoved (err _) id ids after = (after ≡ ids) ⊎ (after ≡ id ∷ ids)

-- What Docker promises about its containers, the newest first. Only two calls change them: a
-- creation adds a container if it succeeds, and none else, and a removal that succeeds takes its
-- container away. Of a removal that fails it is only said that it touches no other.
pub record IsDaemon {W : Type 0} (C : Client W) : Type 0 where
  pub containers : W → List Text
  pub connect_keeps : (w : W) → containers (C.connect w).1 ≡ containers w
  pub network_inspect_keeps :
      (c : Context W) (n : Text) (w : W) → containers (C.network_inspect c n w).1 ≡ containers w
  pub network_create_keeps :
      (c : Context W) (n s g : Text) (w : W)
      → containers (C.network_create c n s g w).1 ≡ containers w
  pub image_inspect_keeps :
      (c : Context W) (i : Text) (w : W) → containers (C.image_inspect c i w).1 ≡ containers w
  pub image_pull_keeps :
      (c : Context W) (i : Text) (w : W) → containers (C.image_pull c i w).1 ≡ containers w
  pub new_uuid_keeps : (w : W) → containers (C.new_uuid w).1 ≡ containers w
  pub start_keeps :
      (c : Context W) (id : Text) (w : W) → containers (C.container_start c id w).1 ≡ containers w
  pub create_adds :
      (c : Context W) (cfg : ContainerConfig) (name : Text) (w : W)
      → containers (C.container_create c cfg name w).1
        ≡ added (C.container_create c cfg name w).0 (containers w)
  pub remove_undoes :
      (c : Context W) (id : Text) (ids : List Text) (w : W)
      → containers w ≡ id ∷ ids
      → IsRemoved (C.container_remove c id w).0 id ids (containers (C.container_remove c id w).1)

-- One container more behind a success, and none behind an error, unless it was left over.
abbrev pub IsGrown : (Text → Type 0) → Result Text → List Text → List Text → Type 0
IsGrown Left (ok name) before after = (id : Text) × (after ≡ id ∷ before)
IsGrown Left (err e) before after =
    (after ≡ before) ⊎ ((id : Text) × (after ≡ id ∷ before) × Left id)

pub IsGrown-map :
    {P : Text → Type 0} (Q : Text → Type 0)
    → ((id : Text) → P id → Q id)
    → (r : Result Text) (before after : List Text) → IsGrown P r before after
    → IsGrown Q r before after
IsGrown-map Q f (ok name) before after h = h
IsGrown-map Q f (err e) before after (inl same) = inl same
IsGrown-map Q f (err e) before after (inr (id, more, p)) = inr (id, more, f id p)

module _ (E : Environ) {W : Type 0} (C : Client W) (I : IsDaemon C) where
  open I use {containers}

  abbrev pub held : World C → List Text
  held s = containers s.1

  -- The name for the container, and what its creation returns.
  abbrev pub made : Context (World C) → Config → World C → Result Text × W
  made ctx cfg (d, w) =
      C.container_create (λ v. ctx (d, v)) (container_config E cfg)
        (text "forge-sandbox-" ++ take 8 (C.new_uuid w).0) (C.new_uuid w).1

  -- The container does not start, and the removal that follows fails too.
  abbrev IsStuck : Context (World C) → Text → World C → Type 0
  IsStuck ctx id (d, w) =
      let c = λ (v : W). ctx (d, v) in
      (f g : Error) × ((C.container_start c id w).0 ≡ err f)
      × ((C.container_remove c id (C.container_start c id w).1).0 ≡ err g)

  -- The world in which `Create` makes the container.
  abbrev pub prepared : Context (World C) → Config → World C → World C
  prepared ctx cfg s =
      (ensure_image C ctx (image_of E cfg) (ensure_network C ctx (init_client C s).1).1).1

  -- The container that was made in a world is left over.
  abbrev IsLeft : Context (World C) → Config → World C → Text → Type 0
  IsLeft ctx cfg s id = ((made ctx cfg s).0 ≡ ok id) × IsStuck ctx id (s.0, (made ctx cfg s).1)

  -- What `Create` may leave over.
  abbrev pub IsLeftOver : Context (World C) → Config → World C → Text → Type 0
  IsLeftOver ctx cfg s id = IsLeft ctx cfg (prepared ctx cfg s) id

  init_client-held : (s : World C) → held (init_client C s).1 ≡ held s
  unfolding init_client
  init_client-held (d, w) = ground (arith, I.connect_keeps w)

  ensure_image-held :
      (ctx : Context (World C)) (img : Text) (s : World C)
      → held (ensure_image C ctx img s).1 ≡ held s
  unfolding ensure_image
  ensure_image-held ctx img (d, w) =
      let c = λ (v : W). ctx (d, v) in
      ground
        (arith, I.image_inspect_keeps c img w, I.image_pull_keeps c img (C.image_inspect c img w).1)

  ensure_network-held :
      (ctx : Context (World C)) (s : World C) → held (ensure_network C ctx s).1 ≡ held s
  unfolding ensure_network
  ensure_network-held ctx (d, w) =
      let c = λ (v : W). ctx (d, v) in
      let w' = (C.network_inspect c sandbox_net_name w).1 in
      ground (
        arith,
        I.network_inspect_keeps c sandbox_net_name w,
        I.network_create_keeps c sandbox_net_name sandbox_net_subnet sandbox_net_gw w',
      )

  start_or_remove-Grows :
      (ctx : Context (World C)) (container name : Text) (ids : List Text) (s : World C)
      → held s ≡ container ∷ ids
      → let r = start_or_remove E C ctx container name s in
        IsGrown (λ id. (id ≡ container) × IsStuck ctx id s) r.0 ids (held r.1)
  unfolding start_or_remove
  start_or_remove-Grows ctx container name ids (d, w) h =
      let c = λ (v : W). ctx (d, v) in
      let w' = (C.container_start c container w).1 in
      let here : containers w' ≡ container ∷ ids = I.start_keeps c container w ∙ h in
      let gone = I.remove_undoes c container ids w' here in
      let t = wrapped (text "container start: ") in
      elim (Result-cases (C.container_start c container w).0) [
        | inl (_, e) ↦
            let out : start_or_remove E C ctx container name (d, w) ≡ (ok name, (d, w')) =
              ground (arith, e) in
            rw out (container, here)
        | inr (f, e) ↦
            let out : start_or_remove E C ctx container name (d, w)
                ≡ (err (t f), (d, (C.container_remove c container w').1)) =
              ground (arith, e) in
            elim (Result-cases (C.container_remove c container w').0) [
              | inl (_, k) ↦ let k' = rw k at gone in rw out (inl k')
              | inr (g, k) ↦
                  let left = rw k at gone in
                  rw out (elim left [
                    | inl none_left ↦ inl none_left
                    | inr one_left ↦ inr (container, one_left, (refl, (f, g, e, k)))
                  ])
            ]
      ]

  pub made-held :
      (ctx : Context (World C)) (cfg : Config) (s : World C) {id : Text}
      → (made ctx cfg s).0 ≡ ok id
      → containers (made ctx cfg s).1 ≡ id ∷ held s
  made-held ctx cfg (d, w) e =
      let name = text "forge-sandbox-" ++ take 8 (C.new_uuid w).0 in
      ground (
        arith,
        I.create_adds (λ v. ctx (d, v)) (container_config E cfg) name (C.new_uuid w).1,
        I.new_uuid_keeps w,
        e,
      )

  launch-Grows :
      (ctx : Context (World C)) (cfg : Config) (s : World C)
      → let r = launch E C ctx cfg s in IsGrown (IsLeft ctx cfg s) r.0 (held s) (held r.1)
  unfolding launch
  launch-Grows ctx cfg (d, w) =
      let c = λ (v : W). ctx (d, v) in
      let name = text "forge-sandbox-" ++ take 8 (C.new_uuid w).0 in
      let w₁ = (C.new_uuid w).1 in
      let (r, v) = made ctx cfg (d, w) in
      let adds = I.create_adds c (container_config E cfg) name w₁ in
      elim (Result-cases r) [
        | inl (id, e) ↦
            let out : launch E C ctx cfg (d, w) ≡ start_or_remove E C ctx id name (d, v) =
              ground (arith, e) in
            let here : containers v ≡ id ∷ containers w = made-held ctx cfg (d, w) e in
            rw out (
              IsGrown-map _ (λ i (same, stuck). (e ∙ ap ok (sym same), stuck)) _ _ _
                (start_or_remove-Grows ctx id name (containers w) (d, v) here))
        | inr (f, e) ↦
            let out : launch E C ctx cfg (d, w)
                ≡ (err (wrapped (text "container create: ") f), (d, v)) =
              ground (arith, e) in
            rw out (inl (ground (arith, adds, I.new_uuid_keeps w, e)))
      ]

  -- `Create` makes a container, or failed before with no change to them.
  create_launches :
      (ctx : Context (World C)) (cfg : Config) (s : World C)
      → (create E C ctx cfg s ≡ launch E C ctx cfg (prepared ctx cfg s))
        ⊎ ((e : Error) × (v : World C) × (create E C ctx cfg s ≡ (err e, v)) × (held v ≡ held s))
  unfolding create
  create_launches ctx cfg s =
      let s₁ = (init_client C s).1 in
      let s₂ = (ensure_network C ctx s₁).1 in
      let s₃ = (ensure_image C ctx (image_of E cfg) s₂).1 in
      let h₁ = init_client-held s in
      let h₂ = ensure_network-held ctx s₁ ∙ h₁ in
      let h₃ = ensure_image-held ctx (image_of E cfg) s₂ ∙ h₂ in
      elim (Result-cases (init_client C s).0) [
        | inr (f, e) ↦ inr (f, s₁, ground (arith, e), h₁)
        | inl (_, e) ↦ elim (Result-cases (ensure_network C ctx s₁).0) [
          | inr (f, k) ↦ inr (f, s₂, ground (arith, e, k), h₂)
          | inl (_, k) ↦ elim (Result-cases (ensure_image C ctx (image_of E cfg) s₂).0) [
            | inr (f, l) ↦ inr (f, s₃, ground (arith, e, k, l), h₃)
            | inl (_, l) ↦ inl (ground (arith, e, k, l))
          ]
        ]
      ]

  pub prepared-held :
      (ctx : Context (World C)) (cfg : Config) (s : World C) → held (prepared ctx cfg s) ≡ held s
  prepared-held ctx cfg s =
      let s₁ = (init_client C s).1 in
      ensure_image-held ctx (image_of E cfg) (ensure_network C ctx s₁).1
      ∙ ensure_network-held ctx s₁
      ∙ init_client-held s

  -- With a daemon in which only a creation that succeeds adds a container and only a removal takes
  -- one away, a sandbox that was created is one container more, and one that could not be created
  -- leaves no container behind, whichever step failed, unless the container was made, did not start
  -- and could not be removed, under the same context, either.
  pub create-Grows :
      (ctx : Context (World C)) (cfg : Config) (s : World C)
      → let r = create E C ctx cfg s in IsGrown (IsLeftOver ctx cfg s) r.0 (held s) (held r.1)
  create-Grows ctx cfg s = elim (create_launches ctx cfg s) [
    | inl out ↦ rw (out, ← prepared-held ctx cfg s) (launch-Grows ctx cfg (prepared ctx cfg s))
    | inr (e, v, out, same) ↦ rw out (inl same)
  ]
