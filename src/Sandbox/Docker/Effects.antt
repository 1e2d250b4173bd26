-- ===== src/Sandbox/Docker/Effects.antt =====
-- What `Destroy`, `WriteFile`, `ReadFile` and `Status` of internal/sandbox/docker.go achieve.
use workspaces.Common.{
  Text, text_eq, List, ◌∷◌, ◌++◌, Bool, true, ◌&&◌, Result, ok, err, ◌≡◌, ◌∙◌, arith, if◌then◌else◌,
  none, trim_right, refl, Bool-cases, succeeded, Result-cases, inl, inr,
}
use workspaces.Sandbox.Driver.{Context}
use workspaces.Sandbox.Docker.Client.{Client, TarItem, entry, lookup-erase}
use workspaces.Sandbox.Docker.Setup.{World, init_client}
use workspaces.Sandbox.Docker.Paths.{slash, basename, dir_of, is_nested, dir_of-basename}
use workspaces.Sandbox.Docker.Exec.{cached}
use workspaces.Sandbox.Docker.Files.{destroy, write_file, read_file}

module _ {W : Type 0} (C : Client W) where
  -- The container is gone: Docker removed it, or did not know it.
  abbrev pub is_gone : Result (Unit {0}) → Bool
  is_gone (ok _) = true
  is_gone (err e) = C.is_not_found e

  -- The answer to the removal that follows the attempt to stop a container.
  abbrev pub removal : Context (World C) → Text → World C → Result (Unit {0})
  removal ctx id (d, w) =
      let c = λ (v : W). ctx (d, v) in (C.container_remove c id (C.container_stop c id w).1).0

  -- With a client at hand, a container is destroyed exactly where Docker removes it or does not know
  -- it, however the attempt to stop it ended; then its entry in the cache goes, and no other.
  pub destroy_gone :
      (ctx : Context (World C)) (id j : Text) (s : World C)
      → s.0.connected ≡ true
      → (succeeded (destroy C ctx id s).0 ≡ is_gone (removal ctx id s))
        × (cached C j (destroy C ctx id s).1
            ≡ (if is_gone (removal ctx id s) && text_eq id j then none else cached C j s))
  unfolding destroy init_client
  destroy_gone ctx id j (d, w) connected = ground (arith, lookup-erase id j d.has_forge_user)

  -- What Docker promises about a file that is copied into a container: a copy of the file's path
  -- out of it gives an archive that begins with the content.
  pub record IsFileStore : Type 0 where
    pub copy_back :
        (c c' : Context W) (id dir name content archive : Text) (w : W)
        → C.tar_pack name content ≡ ok archive
        → (C.copy_to c id dir archive w).0 ≡ ok tt
        → (rest : List TarItem) × ((C.copy_from c' id
              (dir ++ name)
              (C.copy_to c id dir archive w).1).0
            ≡ ok (entry content ∷ rest))

  read_file-write_file_connected :
      IsFileStore
      → (ctx ctx' : Context (World C)) (id path content : Text) (s : World C) → s.0.connected ≡ true
      → trim_right slash path ≡ path
      → is_nested path ≡ true
      → (write_file C ctx id path content s).0 ≡ ok tt
      → (read_file C ctx' id path (write_file C ctx id path content s).1).0 ≡ ok content
  unfolding write_file read_file init_client
  read_file-write_file_connected F ctx ctx' id path content (d, w) connected clean nested written =
      let c = λ (v : W). ctx (d, v) in
      let c' = λ (v : W). ctx' (d, v) in
      let joined : dir_of path ++ basename path ≡ path =
        (dir_of-basename path).0 ∙ rw nested clean in
      elim (Result-cases (C.tar_pack (basename path) content)) [
        | inl (archive, e) ↦
            ground
              (arith, joined, F.copy_back c c' id (dir_of path) (basename path) content archive w e)
        | inr (f, e) ↦ ground arith
      ]

  -- The driver connects before its first call, and writes as one that is connected.
  write_file_reopened :
      (ctx : Context (World C)) (id path content : Text) (s : World C)
      → (write_file C ctx id path content s).0 ≡ ok tt
      → (s' : World C) × (s'.0.connected ≡ true)
        × (write_file C ctx id path content s ≡ write_file C ctx id path content s')
  unfolding write_file init_client
  write_file_reopened ctx id path content (d, w) written = elim (Bool-cases d.connected) [
    | inl opened ↦ ((d, w), opened, refl)
    | inr closed ↦ elim (Result-cases (C.connect w).0) [
      | inl (_, e) ↦
          ((record d { connected = true }, (C.connect w).1), refl, ground (arith, closed, e))
      | inr (f, e) ↦ ground (arith, closed, e)
    ]
  ]

  -- A file that was written under a path with a directory, and with no slash at its end, is read
  -- back under that path.
  pub read_file-write_file :
      IsFileStore
      → (ctx ctx' : Context (World C)) (id path content : Text) (s : World C)
      → trim_right slash path ≡ path
      → is_nested path ≡ true
      → (write_file C ctx id path content s).0 ≡ ok tt
      → (read_file C ctx' id path (write_file C ctx id path content s).1).0 ≡ ok content
  read_file-write_file F ctx ctx' id path content s clean nested written =
      let (s', opened, same) = write_file_reopened ctx id path content s written in
      rw same (
        read_file-write_file_connected F ctx ctx' id path content s' opened clean nested
          (rw same at written))
