-- ===== src/Sandbox/Docker/Cancelled.antt =====
-- `Create` of internal/sandbox/docker.go under a context that is over before the container starts.
use workspaces.Common.{
  ◌++◌, take, Text, text, ◌∷◌, ◌≡◌, ◌∙◌, ap, some, ok, err, Error, wrapped, arith,
}
use workspaces.Sandbox.Driver.{Context, Config}
use workspaces.Sandbox.Env.{Environ}
use workspaces.Sandbox.Docker.Client.{Client}
use workspaces.Sandbox.Docker.Setup.{World, init_client, ensure_network, ensure_image}
use workspaces.Sandbox.Docker.Create.{create, launch, start_or_remove, image_of}
use workspaces.Sandbox.Docker.Containers.{IsDaemon, held, made, made-held, prepared, prepared-held}

-- The client sends nothing under a context that is over, and returns the context's error.
pub record IsObedient {W : Type 0} (C : Client W) : Type 0 where
  pub start_over :
      (c : Context W) (id : Text) (w : W) {e : Error}
      → c w ≡ some e
      → C.container_start c id w ≡ (err e, w)
  pub remove_over :
      (c : Context W) (id : Text) (w : W) {e : Error}
      → c w ≡ some e
      → C.container_remove c id w ≡ (err e, w)

module _ (E : Environ) {W : Type 0} (C : Client W) (I : IsDaemon C) (O : IsObedient C) where
  start_or_remove_over :
      (ctx : Context (World C)) (container name : Text) (s : World C) {e : Error}
      → ctx s ≡ some e
      → start_or_remove E C ctx container name s ≡ (err (wrapped (text "container start: ") e), s)
  unfolding start_or_remove
  start_or_remove_over ctx container name (d, w) over =
      let c = λ (v : W). ctx (d, v) in
      ground (arith, O.start_over c container w over, O.remove_over c container w over)

  launch_over :
      (ctx : Context (World C)) (cfg : Config) (s : World C) {id : Text} {e : Error}
      → (made E C I ctx cfg s).0 ≡ ok id
      → ctx (s.0, (made E C I ctx cfg s).1) ≡ some e
      → launch E C ctx cfg s
        ≡ (err (wrapped (text "container start: ") e), (s.0, (made E C I ctx cfg s).1))
  unfolding launch
  launch_over ctx cfg (d, w) {id} new over =
      let v = (made E C I ctx cfg (d, w)).1 in
      let name = text "forge-sandbox-" ++ take 8 (C.new_uuid w).0 in
      ground (arith, new, start_or_remove_over ctx id name (d, v) over)

  -- With a daemon in which only a creation that succeeds adds a container and only a removal takes
  -- one away, and a client that sends nothing under a context that is over: where the connection, the
  -- network and the image are ready, the container is made and the context is over right then,
  -- `Create` returns the context's error as that of the start and leaves one container more.
  pub create_cancelled :
      (ctx : Context (World C)) (cfg : Config) (s : World C) {id : Text} {e : Error}
      → (init_client C s).0 ≡ ok tt
      → (ensure_network C ctx (init_client C s).1).0 ≡ ok tt
      → (ensure_image C ctx (image_of E cfg) (ensure_network C ctx (init_client C s).1).1).0 ≡ ok tt
      → (made E C I ctx cfg (prepared E C I ctx cfg s)).0 ≡ ok id
      → ctx ((prepared E C I ctx cfg s).0, (made E C I ctx cfg (prepared E C I ctx cfg s)).1)
        ≡ some e
      → ((create E C ctx cfg s).0 ≡ err (wrapped (text "container start: ") e))
        × (held E C I (create E C ctx cfg s).1 ≡ id ∷ held E C I s)
  unfolding create
  create_cancelled ctx cfg s {id} {e} connected network image new over =
      let p = prepared E C I ctx cfg s in
      let out : create E C ctx cfg s ≡ launch E C ctx cfg p =
        ground (arith, connected, network, image) in
      let done = out ∙ launch_over ctx cfg p new over in
      (
        ap (λ r. r.0) done,
        ap (λ r. held E C I r.1) done
            ∙ made-held E C I ctx cfg p new
            ∙ ap (λ ids. id ∷ ids) (prepared-held E C I ctx cfg s),
      )
