-- ===== src/Sandbox/Docker/Exec.antt =====
-- `Exec` of internal/sandbox/docker.go and the cache of the containers that have the user forge.
use workspaces.Common.{
  ℕ, Text, text, text_eq, text_eq_refl, [], ◌∷◌, ◌++◌, Bool, true, false, not, ◌&&◌, Bool-cases,
  inl, inr, Result, ok, err, Step, attempt, ◌>>=◌, ◌>>◌, pure, context, if◌then◌else◌, ◌≡◌, refl,
  arith, contains, Option, none, some, is_empty, ◌==◌, ◌∙◌, ap,
}
use workspaces.Common.Int.{ℤ, pos}
use workspaces.Sandbox.Driver.{Context, ExecResult}
use workspaces.Sandbox.Docker.Client.{
  Client, ExecOptions, DockerState, call, set_state, lookup, insert, lookup-insert,
}
use workspaces.Sandbox.Docker.Setup.{init_client, World}
use workspaces.Sandbox.Docker.Create.{sandbox_user, sandbox_home, sandbox_workdir, sandbox_path}

abbrev is_code : ℕ → ℤ → Bool
is_code n (pos m) = m == n
is_code n _ = false

-- The options of one attempt: `login` is root where no user is given, and `sh` takes no `-l`.
unfoldable pub exec_options : Text → Text → Text → Text → ExecOptions
unfolding text text_eq
exec_options user home shell cmd =
    let login = if is_empty user then text "root" else sandbox_user in
    record {
      user = user;
      working_dir = sandbox_workdir;
      env =
          (text "HOME=" ++ home)
          ∷ (text "USER=" ++ login)
          ∷ (text "LOGNAME=" ++ login)
          ∷ (text "SHELL=" ++ shell)
          ∷ sandbox_path
          ∷ text "TERM=xterm"
          ∷ text "LANG=C.UTF-8"
          ∷ [];
      cmd = shell ∷ (if text_eq shell (text "sh") then text "-c" else text "-lc") ∷ cmd ∷ [];
    }

-- Docker reports a missing user by exit code 126 and a text on one of the streams.
unfoldable pub is_user_missing : ExecResult → Bool
is_user_missing res =
    is_code 126 res.exit_code && contains (res.stdout ++ res.stderr) (text "unable to find user")

module _ {W : Type 0} (C : Client W) where
  -- The closure `runExec`.
  unfoldable pub run_exec :
      Context (World C) → Text → Text → Text → Text → Text → Step (World C) ExecResult
  run_exec ctx id cmd user home shell = do
    exec_id ← call (λ c. C.exec_create c id (exec_options user home shell cmd)) ctx
    (out, errs) ← context (text "exec attach: ") (call (λ c. C.exec_attach c exec_id) ctx)
    code ← context (text "exec inspect: ") (call (λ c. C.exec_inspect c exec_id) ctx)
    pure (record { stdout = out; stderr = errs; exit_code = code })

  remember : Text → Bool → Step (World C) (Unit {0})
  remember id has = set_state (λ d. record d { has_forge_user = insert id has d.has_forge_user })

  -- `useForge`: true unless the cache says otherwise.
  unfoldable pub use_forge : Text → DockerState → Bool
  use_forge id d = elim (lookup id d.has_forge_user) [ some v ↦ v | none ↦ true ]

  -- The attempt as root.
  unfoldable pub exec_as_root : Context (World C) → Text → Text → Step (World C) ExecResult
  exec_as_root ctx id cmd =
      context (text "exec create: ") (run_exec ctx id cmd [] (text "/root") (text "sh"))

  -- The attempt as forge, and what its outcome leads to.
  exec_as_forge : Context (World C) → Text → Text → Step (World C) ExecResult
  unfolding exec_as_root remember
  exec_as_forge ctx id cmd =
      attempt (run_exec ctx id cmd sandbox_user sandbox_home (text "bash")) (λ r. elim r [
        | err e ↦ exec_as_root ctx id cmd
        | ok res ↦
            if is_user_missing res
            then remember id false >> exec_as_root ctx id cmd
            else remember id true >> pure res
      ])

  unfoldable pub exec : Context (World C) → Text → Text → Step (World C) ExecResult
  unfolding exec_as_forge use_forge
  exec ctx id cmd = init_client C >> λ (d, w).
      (if use_forge id d then exec_as_forge ctx id cmd else exec_as_root ctx id cmd) (d, w)

module _ {W : Type 0} (C : Client W) (ctx : Context (World C)) where
  -- An attempt leaves the fields of the driver alone.
  run_exec-state :
      (id cmd user home shell : Text) (s : World C)
      → (run_exec C ctx id cmd user home shell s).1.0 ≡ s.0
  unfolding run_exec
  run_exec-state id cmd user home shell s = ground arith

  exec_as_root-state : (id cmd : Text) (s : World C) → (exec_as_root C ctx id cmd s).1.0 ≡ s.0
  unfolding exec_as_root
  exec_as_root-state id cmd s = run_exec-state id cmd [] (text "/root") (text "sh") s

-- What the attempt as forge tells about the user of a container.
abbrev pub learned : Result ExecResult → Option Bool → Option Bool
learned (err e) old = old
learned (ok res) old = some (not (is_user_missing res))

module _ {W : Type 0} (C : Client W) where
  -- The entry of a container in the cache.
  abbrev pub cached : Text → World C → Option Bool
  cached id s = lookup id s.0.has_forge_user

  -- The attempt as forge.
  abbrev pub forge_attempt : Context (World C) → Text → Text → Step (World C) ExecResult
  forge_attempt ctx id cmd = run_exec C ctx id cmd sandbox_user sandbox_home (text "bash")

  exec-connected :
      (ctx : Context (World C)) (id cmd : Text) (s : World C)
      → s.0.connected ≡ true
      → exec C ctx id cmd s
        ≡ (if use_forge C id s.0 then exec_as_forge C ctx id cmd s else exec_as_root C ctx id cmd s)
  unfolding exec init_client
  exec-connected ctx id cmd (d, w) connected = ground arith

  cached-exec_as_forge :
      (ctx : Context (World C)) (id cmd : Text) (s : World C) (j : Text)
      → cached j (exec_as_forge C ctx id cmd s).1
        ≡ (if text_eq id j then learned (forge_attempt ctx id cmd s).0 (cached j s) else cached j s)
  unfolding exec_as_forge
  cached-exec_as_forge ctx id cmd s j =
      let (r, (d, w)) = forge_attempt ctx id cmd s in
      ground (
        arith,
        run_exec-state C ctx id cmd sandbox_user sandbox_home (text "bash") s,
        exec_as_root-state C ctx id cmd (forge_attempt ctx id cmd s).1,
        exec_as_root-state C ctx id cmd (remember C id false (forge_attempt ctx id cmd s).1).1,
        lookup-insert id j false s.0.has_forge_user,
        lookup-insert id j true s.0.has_forge_user,
      )

  exec_as_forge-connected :
      (ctx : Context (World C)) (id cmd : Text) (s : World C)
      → (exec_as_forge C ctx id cmd s).1.0.connected ≡ s.0.connected
  unfolding exec_as_forge
  exec_as_forge-connected ctx id cmd s = ground (
    arith,
    run_exec-state C ctx id cmd sandbox_user sandbox_home (text "bash") s,
    exec_as_root-state C ctx id cmd (forge_attempt ctx id cmd s).1,
    exec_as_root-state C ctx id cmd (remember C id false (forge_attempt ctx id cmd s).1).1,
  )

  -- With a client at hand, a command changes the cache only where it is tried as forge, and there
  -- for its container alone: to false if Docker found no user forge, to true if the attempt went
  -- through otherwise. An attempt that failed leaves the entry as it was.
  pub cached-exec :
      (ctx : Context (World C)) (id cmd : Text) (s : World C) (j : Text)
      → s.0.connected ≡ true
      → cached j (exec C ctx id cmd s).1 ≡ (
          if use_forge C id s.0 && text_eq id j
          then learned (forge_attempt ctx id cmd s).0 (cached j s)
          else cached j s)
  cached-exec ctx id cmd s j connected = elim (Bool-cases (use_forge C id s.0)) [
    | inl forge ↦
        rw (exec-connected ctx id cmd s connected, forge) (cached-exec_as_forge ctx id cmd s j)
    | inr root ↦
        rw (exec-connected ctx id cmd s connected, root)
          (ap (λ (d : DockerState). lookup j d.has_forge_user) (exec_as_root-state C ctx id cmd s))
  ]

  use_forge_known :
      (id : Text) (d : DockerState)
      → lookup id d.has_forge_user ≡ some false
      → use_forge C id d ≡ false
  unfolding use_forge
  use_forge_known id d known = ground arith

  -- Once Docker has found no user forge in a container, the next command there runs as root at once.
  pub exec_after_missing :
      (ctx ctx' : Context (World C)) (id cmd cmd' : Text) (s : World C) {res : ExecResult}
      → s.0.connected ≡ true
      → use_forge C id s.0 ≡ true
      → (forge_attempt ctx id cmd s).0 ≡ ok res
      → is_user_missing res ≡ true
      → let s' = (exec C ctx id cmd s).1 in exec C ctx' id cmd' s' ≡ exec_as_root C ctx' id cmd' s'
  exec_after_missing ctx ctx' id cmd cmd' s {res} connected forge answered missing =
      let s' = (exec C ctx id cmd s).1 in
      let still : s'.0.connected ≡ true =
        rw (exec-connected ctx id cmd s connected, forge)
          (exec_as_forge-connected ctx id cmd s ∙ connected) in
      let known : cached id s' ≡ some false =
        cached-exec ctx id cmd s id connected
        ∙ rw (forge, text_eq_refl id, answered, missing) refl in
      exec-connected ctx' id cmd' s' still ∙ rw (use_forge_known id s'.0 known) refl
