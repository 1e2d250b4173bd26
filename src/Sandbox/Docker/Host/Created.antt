-- ===== src/Sandbox/Docker/Host/Created.antt =====
-- What `Create` of internal/sandbox/docker.go makes of the containers that Docker knows, and the fleet
-- that its driver is.
use workspaces.Common.{
  Text, text, text_eq, text_eq_iff, text_eq_refl, ◌++◌, take, Bool, true, false, Result, ok, ◌≡◌,
  sym, ◌∙◌, Bool-cases, Result-cases, inl, inr, arith, ap,
}
use workspaces.Sandbox.Driver.{Context, Config}
use workspaces.Sandbox.Env.{Environ}
use workspaces.Sandbox.Docker.Client.{Client, DockerState}
use workspaces.Sandbox.Docker.Setup.{
  World, init_client, ensure_network, ensure_image, sandbox_net_name, sandbox_net_subnet,
  sandbox_net_gw,
}
use workspaces.Sandbox.Docker.Create.{create, launch, start_or_remove, image_of, container_config}
use workspaces.Sandbox.Docker.Files.{docker_driver}
use workspaces.Sandbox.Docker.Host.{IsName, IsHost}
use workspaces.Sandbox.Docker.Host.Methods.{
  init_client-knows, exec-knows, write_file-knows, read_file-knows, status-knows, ip-knows,
  destroy-knows, destroy_failed-knows,
}
use workspaces.Sandbox.Fleet.{IsFleet}

module _ (E : Environ) {W : Type 0} (C : Client W) (knows : Text → W → Bool)
    (I : IsHost C knows) where
  module _ (n : Text) where
    ensure_image-knows :
        (ctx : Context (World C)) (img : Text) (s : World C)
        → knows n (ensure_image C ctx img s).1.1 ≡ knows n s.1
    unfolding ensure_image
    ensure_image-knows ctx img (d, w) =
        let c = λ (v : W). ctx (d, v) in
        ground (
          arith,
          I.image_inspect_keeps n c img w,
          I.image_pull_keeps n c img (C.image_inspect c img w).1,
        )

    ensure_network-knows :
        (ctx : Context (World C)) (s : World C) → knows n (ensure_network C ctx s).1.1 ≡ knows n s.1
    unfolding ensure_network
    ensure_network-knows ctx (d, w) =
        let c = λ (v : W). ctx (d, v) in
        let w' = (C.network_inspect c sandbox_net_name w).1 in
        ground (
          arith,
          I.network_inspect_keeps n c sandbox_net_name w,
          I.network_create_keeps n c sandbox_net_name sandbox_net_subnet sandbox_net_gw w',
        )

    launch-keeps :
        (ctx : Context (World C)) (cfg : Config) (d : DockerState) (w : W)
        → knows n w ≡ true
        → knows n (launch E C ctx cfg (d, w)).1.1 ≡ true
    unfolding launch start_or_remove
    launch-keeps ctx cfg d w known =
        let c = λ (v : W). ctx (d, v) in
        let name = text "forge-sandbox-" ++ take 8 (C.new_uuid w).0 in
        let w₁ = (C.new_uuid w).1 in
        let conf = container_config E cfg in
        let made = C.container_create c conf name w₁ in
        let known' : knows n w₁ ≡ true = I.new_uuid_keeps n w ∙ known in
        elim (Result-cases made.0) [
          | inl (id, e) ↦
              let started = C.container_start c id made.1 in
              elim (Bool-cases (text_eq name n)) [
                | inl same ↦
                    let twice : name ≡ n = (text_eq_iff name n).0 same in
                    cc (known', twice, I.create_fresh c conf name w₁ e)
                | inr other ↦ ground (
                  arith,
                  e,
                  other,
                  known',
                  I.create_knows n c conf name w₁ e,
                  I.start_keeps n c id made.1,
                  I.remove_made n c conf name w₁ e other c started.1,
                )
              ]
          | inr (f, e) ↦ ground (arith, e, known', I.create_failed n c conf name w₁ e)
        ]

  -- What a success says: the name is new, is one of the driver's, and is known from then on.
  abbrev Fresh : Result Text → W → W → Type 0
  Fresh r w w' = (m : Text) → r ≡ ok m → IsName m × (knows m w ≡ false) × (knows m w' ≡ true)

  launch-Fresh :
      (ctx : Context (World C)) (cfg : Config) (d : DockerState) (w : W)
      → let r = launch E C ctx cfg (d, w) in Fresh r.0 w r.1.1
  unfolding launch start_or_remove
  launch-Fresh ctx cfg d w m done =
      let c = λ (v : W). ctx (d, v) in
      let name = text "forge-sandbox-" ++ take 8 (C.new_uuid w).0 in
      let w₁ = (C.new_uuid w).1 in
      let conf = container_config E cfg in
      let made = C.container_create c conf name w₁ in
      elim (Result-cases made.0) [
        | inl (id, e) ↦
            let unknown : knows name w ≡ false =
              sym (I.new_uuid_keeps name w) ∙ I.create_fresh c conf name w₁ e in
            let named : m ≡ name = ground (arith, e, done) in
            (
              (take 8 (C.new_uuid w).0, named),
              rw named unknown,
              rw named (
                  ground (
                    arith,
                    e,
                    done,
                    text_eq_refl name,
                    I.create_knows name c conf name w₁ e,
                    I.start_keeps name c id made.1,
                  )),
            )
        | inr (f, e) ↦ ground (arith, e, done)
      ]

  -- The state in which the container is launched.
  abbrev prepared : Context (World C) → Config → World C → World C
  prepared ctx cfg s =
      (ensure_image C ctx (image_of E cfg) (ensure_network C ctx (init_client C s).1).1).1

  prepared-knows :
      (n : Text) (ctx : Context (World C)) (cfg : Config) (s : World C)
      → knows n (prepared ctx cfg s).1 ≡ knows n s.1
  prepared-knows n ctx cfg s =
      let s₁ = (init_client C s).1 in
      ensure_image-knows n ctx (image_of E cfg) (ensure_network C ctx s₁).1
      ∙ ensure_network-knows n ctx s₁
      ∙ init_client-knows C knows I n s

  create-keeps :
      (n : Text) (ctx : Context (World C)) (cfg : Config) (s : World C)
      → knows n s.1 ≡ true
      → knows n (create E C ctx cfg s).1.1 ≡ true
  unfolding create
  create-keeps n ctx cfg s known =
      let s₁ = (init_client C s).1 in
      let s₂ = (ensure_network C ctx s₁).1 in
      let s₃ = prepared ctx cfg s in
      ground (
        arith,
        known,
        init_client-knows C knows I n s,
        ensure_network-knows n ctx s₁,
        ensure_image-knows n ctx (image_of E cfg) s₂,
        launch-keeps n ctx cfg s₃.0 s₃.1,
      )

  create-launch :
      (ctx : Context (World C)) (cfg : Config) (s : World C) {m : Text}
      → (create E C ctx cfg s).0 ≡ ok m
      → create E C ctx cfg s ≡ launch E C ctx cfg (prepared ctx cfg s)
  unfolding create
  create-launch ctx cfg s done = ground (arith, done)

  create-Fresh :
      (ctx : Context (World C)) (cfg : Config) (s : World C)
      → let r = create E C ctx cfg s in Fresh r.0 s.1 r.1.1
  create-Fresh ctx cfg s m done =
      let s₃ = prepared ctx cfg s in
      let same = create-launch ctx cfg s done in
      let (name, unknown, known) =
        launch-Fresh ctx cfg s₃.0 s₃.1 m (sym (ap (λ r. r.0) same) ∙ done) in
      (name, sym (prepared-knows m ctx cfg s) ∙ unknown, ap (λ r. knows m r.1.1) same ∙ known)

  -- With a Docker in which creation and removal alone change the names that it knows, which refuses a
  -- name in use and does not mistake a name of the driver for another container's, the Docker driver
  -- keeps what callers rely on: a sandbox has a new name and lives until it is destroyed itself.
  pub docker_driver-IsFleet : IsFleet (docker_driver C E) IsName (λ n s. knows n s.1 ≡ true)
  docker_driver-IsFleet = record {
    create_named = λ ctx cfg s {id = m} h. (create-Fresh ctx cfg s m h).0;
    create_lives = λ ctx cfg s {id = m} h. (create-Fresh ctx cfg s m h).2;
    create_fresh = λ ctx cfg s {id = m} h lives. cc (lives, (create-Fresh ctx cfg s m h).1);
    create_keeps = λ ctx cfg s {i = n}. create-keeps n ctx cfg s;
    exec_keeps = λ ctx id cmd s {i = n} h. exec-knows C knows I n ctx id cmd s ∙ h;
    write_file_keeps =
        λ ctx id path content s {i = n} h. write_file-knows C knows I n ctx id path content s ∙ h;
    read_file_keeps = λ ctx id path s {i = n} h. read_file-knows C knows I n ctx id path s ∙ h;
    status_keeps = λ ctx id s {i = n} h. status-knows C knows I n ctx id s ∙ h;
    ip_keeps = λ ctx id s {i = n} h. ip-knows C knows I n ctx id s ∙ h;
    destroy_keeps =
        λ ctx id s {i = n} name other h. destroy-knows C knows I n ctx id s name other ∙ h;
    destroy_failed =
        λ ctx id s {e} {i = n} failed h. destroy_failed-knows C knows I n ctx id s failed ∙ h;
  }
