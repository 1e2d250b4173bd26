-- ===== src/Sandbox/Docker/Host/Methods.antt =====
-- What the methods of internal/sandbox/docker.go but `Create` make of the containers that Docker
-- knows.
use workspaces.Common.{
  Text, text, text_eq, [], Bool, false, err, Error, ◌≡◌, Result-cases, Option-cases, inl, inr,
  arith,
}
use workspaces.Sandbox.Driver.{Context}
use workspaces.Sandbox.Docker.Client.{Client, insert}
use workspaces.Sandbox.Docker.Setup.{World, init_client}
use workspaces.Sandbox.Docker.Create.{sandbox_user, sandbox_home}
use workspaces.Sandbox.Docker.Exec.{exec_options, run_exec, exec_as_root, exec}
use workspaces.Sandbox.Docker.Paths.{basename, dir_of}
use workspaces.Sandbox.Docker.Files.{write_file, read_file, destroy, status, ip, address_of}
use workspaces.Sandbox.Docker.Host.{IsName, IsHost}

module _ {W : Type 0} (C : Client W) (knows : Text → W → Bool) (I : IsHost C knows) (n : Text) where
  pub init_client-knows : (s : World C) → knows n (init_client C s).1.1 ≡ knows n s.1
  unfolding init_client
  init_client-knows (d, w) = ground (arith, I.connect_keeps n w)

  run_exec-knows :
      (ctx : Context (World C)) (id cmd user home shell : Text) (s : World C)
      → knows n (run_exec C ctx id cmd user home shell s).1.1 ≡ knows n s.1
  unfolding run_exec
  run_exec-knows ctx id cmd user home shell (d, w) =
      let c = λ (v : W). ctx (d, v) in
      let o = exec_options user home shell cmd in
      let made = C.exec_create c id o w in
      elim (Result-cases made.0) [
        | inl (x, e) ↦
            let ran = C.exec_attach c x made.1 in
            ground (
              arith,
              e,
              I.exec_create_keeps n c id o w,
              I.exec_attach_keeps n c x made.1,
              I.exec_inspect_keeps n c x ran.1,
            )
        | inr (f, e) ↦ ground (arith, e, I.exec_create_keeps n c id o w)
      ]

  exec_as_root-knows :
      (ctx : Context (World C)) (id cmd : Text) (s : World C)
      → knows n (exec_as_root C ctx id cmd s).1.1 ≡ knows n s.1
  unfolding exec_as_root
  exec_as_root-knows ctx id cmd s = run_exec-knows ctx id cmd [] (text "/root") (text "sh") s

  pub exec-knows :
      (ctx : Context (World C)) (id cmd : Text) (s : World C)
      → knows n (exec C ctx id cmd s).1.1 ≡ knows n s.1
  unfolding exec
  exec-knows ctx id cmd s =
      let s₁ = (init_client C s).1 in
      let tried = run_exec C ctx id cmd sandbox_user sandbox_home (text "bash") s₁ in
      let told : World C = (
        record tried.1.0 { has_forge_user = insert id false tried.1.0.has_forge_user },
        tried.1.1,
      ) in
      ground (
        arith,
        init_client-knows s,
        run_exec-knows ctx id cmd sandbox_user sandbox_home (text "bash") s₁,
        exec_as_root-knows ctx id cmd s₁,
        exec_as_root-knows ctx id cmd tried.1,
        exec_as_root-knows ctx id cmd told,
      )

  pub write_file-knows :
      (ctx : Context (World C)) (id path content : Text) (s : World C)
      → knows n (write_file C ctx id path content s).1.1 ≡ knows n s.1
  unfolding write_file
  write_file-knows ctx id path content s =
      let (d, w) = (init_client C s).1 in
      let c = λ (v : W). ctx (d, v) in
      elim (Result-cases (C.tar_pack (basename path) content)) [
        | inl (archive, e) ↦
            ground (arith, e, init_client-knows s, I.copy_to_keeps n c id (dir_of path) archive w)
        | inr (f, e) ↦ ground (arith, e, init_client-knows s)
      ]

  pub read_file-knows :
      (ctx : Context (World C)) (id path : Text) (s : World C)
      → knows n (read_file C ctx id path s).1.1 ≡ knows n s.1
  unfolding read_file
  read_file-knows ctx id path s =
      let (d, w) = (init_client C s).1 in
      let c = λ (v : W). ctx (d, v) in
      ground (arith, init_client-knows s, I.copy_from_keeps n c id path w)

  pub status-knows :
      (ctx : Context (World C)) (id : Text) (s : World C)
      → knows n (status C ctx id s).1.1 ≡ knows n s.1
  unfolding status
  status-knows ctx id s =
      let (d, w) = (init_client C s).1 in
      let c = λ (v : W). ctx (d, v) in ground (arith, init_client-knows s, I.inspect_keeps n c id w)

  pub ip-knows :
      (ctx : Context (World C)) (id : Text) (s : World C)
      → knows n (ip C ctx id s).1.1 ≡ knows n s.1
  unfolding ip
  ip-knows ctx id s =
      let (d, w) = (init_client C s).1 in
      let c = λ (v : W). ctx (d, v) in
      let looked = C.container_inspect c id w in
      elim (Result-cases looked.0) [
        | inl (insp, e) ↦ elim (Option-cases (address_of insp.networks)) [
          | inl a ↦ ground (arith, e, a, init_client-knows s, I.inspect_keeps n c id w)
          | inr (a, b) ↦ ground (arith, e, b, init_client-knows s, I.inspect_keeps n c id w)
        ]
        | inr (f, e) ↦ ground (arith, e, init_client-knows s, I.inspect_keeps n c id w)
      ]

  pub destroy-knows :
      (ctx : Context (World C)) (id : Text) (s : World C)
      → IsName id
      → text_eq id n ≡ false
      → knows n (destroy C ctx id s).1.1 ≡ knows n s.1
  unfolding destroy
  destroy-knows ctx id s name other =
      let (d, w) = (init_client C s).1 in
      let c = λ (v : W). ctx (d, v) in
      ground (
        arith,
        init_client-knows s,
        I.stop_keeps n c id w,
        I.remove_keeps n c id (C.container_stop c id w).1 name other,
      )

  pub destroy_failed-knows :
      (ctx : Context (World C)) (id : Text) (s : World C) {e : Error}
      → (destroy C ctx id s).0 ≡ err e
      → knows n (destroy C ctx id s).1.1 ≡ knows n s.1
  unfolding destroy
  destroy_failed-knows ctx id s failed =
      let (d, w) = (init_client C s).1 in
      let c = λ (v : W). ctx (d, v) in
      let v = (C.container_stop c id w).1 in
      elim (Result-cases (C.container_remove c id v).0) [
        | inl (_, e) ↦ ground (arith, e, failed, init_client-knows s)
        | inr (f, e) ↦ ground (
          arith,
          e,
          failed,
          init_client-knows s,
          I.stop_keeps n c id w,
          I.remove_failed n c id v e,
        )
      ]
