-- ===== src/Sandbox/Docker/Create.antt =====
-- `Create` of internal/sandbox/docker.go.
use workspaces.Common.{
  Text, text, List, [], ◌∷◌, ◌++◌, ok, err, Step, wrapped, attempt, ◌>>=◌, ◌>>◌, pure, fail,
  if◌then◌else◌, take, is_empty, map, ◌*◌,
}
use workspaces.Common.Int.{ℤ, pos, int64, scale, ltb_ℤ}
use workspaces.Sandbox.Driver.{Context, Config}
use workspaces.Sandbox.Env.{Environ, env_int_or, env_float_or}
use workspaces.Sandbox.Docker.Client.{Client, ContainerConfig, call}
use workspaces.Sandbox.Docker.Setup.{
  init_client, ensure_network, ensure_image, sandbox_net_name, World,
}

unfoldable pub default_sandbox_image : Text
default_sandbox_image = text "forge-sandbox:latest"

unfoldable pub sandbox_user : Text
sandbox_user = text "forge"

unfoldable pub sandbox_home : Text
sandbox_home = text "/home/forge"

unfoldable pub sandbox_workdir : Text
sandbox_workdir = text "/home/forge/workspace"

unfoldable pub sandbox_path : Text
sandbox_path =
    text "PATH="
    ++ sandbox_home
    ++ text
        "/.local/bin:/usr/local/go/bin:/usr/local/sbin:/usr/local/bin:/usr/sbin:/usr/bin:/sbin:/bin"

-- The entries are listed in the order in which the `range` over the map meets them.
unfoldable pub container_env : List (Text × Text) → List Text
container_env extra =
    (text "HOME=" ++ sandbox_home)
    ∷ (text "USER=" ++ sandbox_user)
    ∷ (text "LOGNAME=" ++ sandbox_user)
    ∷ text "SHELL=/bin/bash"
    ∷ sandbox_path
    ∷ text "TERM=xterm"
    ∷ text "LANG=C.UTF-8"
    ∷ map (λ (k, v). k ++ text "=" ++ v) extra

unfoldable pub start_script : Text
start_script =
    text "mkdir -p "
    ++ sandbox_workdir
    ++ text " && (id forge >/dev/null 2>&1 && chown -R forge:forge "
    ++ sandbox_home
    ++ text " 2>/dev/null || true)"
    ++ text " && cd "
    ++ sandbox_workdir
    ++ text " && while true; do sleep 3600; done"

module _ (E : Environ) where
  unfoldable pub image_of : Config → Text
  image_of cfg = if is_empty cfg.image then default_sandbox_image else cfg.image

  unfoldable pub mem_mb_of : Config → ℤ
  mem_mb_of cfg =
      if ltb_ℤ (pos 0) cfg.mem_mb
      then cfg.mem_mb
      else env_int_or E (text "FORGE_MEM_MB") (pos (8 * 1024))

  unfoldable pub cpus_of : Config → ℤ
  cpus_of cfg =
      if ltb_ℤ (pos 0) cfg.cpus
      then cfg.cpus
      else env_float_or E (text "FORGE_CPUS") (pos (2 * 1000000000))

  unfoldable pub container_config : Config → ContainerConfig
  unfolding container_env start_script image_of mem_mb_of cpus_of
  container_config cfg = record {
    image = image_of cfg;
    env = container_env cfg.env;
    working_dir = sandbox_workdir;
    cmd = text "sh" ∷ text "-c" ∷ start_script ∷ [];
    memory = int64 (scale (1024 * 1024) (int64 (mem_mb_of cfg)));
    nano_cpus = int64 (cpus_of cfg);
    network = sandbox_net_name;
  }

  module _ {W : Type 0} (C : Client W) where
    -- A container that does not start is removed, whatever comes of that.
    unfoldable pub start_or_remove : Context (World C) → Text → Text → Step (World C) Text
    start_or_remove ctx container name =
        attempt (call (λ c. C.container_start c container) ctx) (λ r. elim r [
          | ok _ ↦ pure name
          | err e ↦
              attempt (call (λ c. C.container_remove c container) ctx)
                (λ _. fail (wrapped (text "container start: ") e))
        ])

    new_name : Step (World C) Text
    new_name (d, w) = (ok (text "forge-sandbox-" ++ take 8 (C.new_uuid w).0), (d, (C.new_uuid w).1))

    unfoldable pub launch : Context (World C) → Config → Step (World C) Text
    unfolding start_or_remove new_name
    launch ctx cfg = do
      name ← new_name
      attempt (call (λ c. C.container_create c (container_config cfg) name) ctx) (λ r. elim r [
        | ok container ↦ start_or_remove ctx container name
        | err e ↦ fail (wrapped (text "container create: ") e)
      ])

    unfoldable pub create : Context (World C) → Config → Step (World C) Text
    unfolding launch
    create ctx cfg = do
      init_client C
      ensure_network C ctx
      ensure_image C ctx (image_of cfg)
      launch ctx cfg
