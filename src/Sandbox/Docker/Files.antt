-- ===== src/Sandbox/Docker/Files.antt =====
-- The other methods of internal/sandbox/docker.go, and the driver that they make.
use workspaces.Common.{
  Text, text, text_eq, quote, List, [], ◌∷◌, ◌++◌, ◌||◌, Result, ok, err, Error, Step, message,
  wrapped, attempt, ◌>>=◌, ◌>>◌, pure, fail, context, if◌then◌else◌, Option, none, some, is_empty,
}
use workspaces.Sandbox.Driver.{Context, Status, Driver, running, sleeping, dead}
use workspaces.Sandbox.Env.{Environ}
use workspaces.Sandbox.Docker.Client.{
  Client, Endpoint, Inspection, TarItem, entry, bad_header, bad_content, call, set_state, erase,
}
use workspaces.Sandbox.Docker.Setup.{init_client, World, sandbox_net_name}
use workspaces.Sandbox.Docker.Paths.{basename, dir_of}
use workspaces.Sandbox.Docker.Create.{create}
use workspaces.Sandbox.Docker.Exec.{exec}

abbrev of_result : {W A : Type 0} → Result A → Step W A
of_result r w = (r, w)

-- The loop over the archive returns at its first entry.
first_entry : Text → List TarItem → Result Text
first_entry path [] = err (message (text "file not found in tar: " ++ path))
first_entry path (entry s ∷ items) = ok s
first_entry path (bad_header e ∷ items) = err (wrapped (text "tar next: ") e)
first_entry path (bad_content e ∷ items) = err (wrapped (text "tar read: ") e)

-- `map[name]`.
endpoint : Text → List Endpoint → Option Text
endpoint name [] = none
endpoint name ((n, ip) ∷ nets) = if text_eq n name then some ip else endpoint name nets

first_address : List Endpoint → Option Text
first_address [] = none
first_address ((n, ip) ∷ nets) = if is_empty ip then first_address nets else some ip

-- The address in sandbox-net, else any address.
unfoldable pub address_of : List Endpoint → Option Text
unfolding endpoint first_address
address_of nets = elim (endpoint sandbox_net_name nets) [
  | some ip ↦ if is_empty ip then first_address nets else some ip
  | none ↦ first_address nets
]

unfoldable pub status_of : Text → Status
status_of s =
    if text_eq s (text "running")
    then running
    else if text_eq s (text "exited") || text_eq s (text "dead") || text_eq s (text "removing")
    then dead
    else sleeping

module _ {W : Type 0} (C : Client W) where
  unfoldable pub write_file : Context (World C) → Text → Text → Text → Step (World C) (Unit {0})
  write_file ctx id path content = do
    init_client C
    archive ← of_result (C.tar_pack (basename path) content)
    context (text "copy to container: ") (call (λ c. C.copy_to c id (dir_of path) archive) ctx)

  unfoldable pub read_file : Context (World C) → Text → Text → Step (World C) Text
  unfolding first_entry
  read_file ctx id path = do
    init_client C
    items ← context (text "copy from container: ") (call (λ c. C.copy_from c id path) ctx)
    of_result (first_entry path items)

  forget : Text → Step (World C) (Unit {0})
  forget id = set_state (λ d. record d { has_forge_user = erase id d.has_forge_user })

  -- A container that cannot be stopped is removed all the same; one that is gone is no error.
  unfoldable pub destroy : Context (World C) → Text → Step (World C) (Unit {0})
  unfolding forget
  destroy ctx id = do
    init_client C
    attempt (call (λ c. C.container_stop c id) ctx) (λ _.
        attempt (call (λ c. C.container_remove c id) ctx) (λ r. elim r [
          | ok _ ↦ forget id
          | err e ↦
              if C.is_not_found e then forget id else fail (wrapped (text "container remove: ") e)
        ]))

  inspected : Result Inspection → Status × Option Error
  unfolding status_of
  inspected (ok insp) = (status_of insp.state, none)
  inspected (err e) =
      if C.is_not_found e
      then (dead, none)
      else (dead, some (wrapped (text "container inspect: ") e))

  unfoldable pub status : Context (World C) → Text → World C → (Status × Option Error) × World C
  unfolding inspected
  status ctx id s = elim (init_client C s).0 [
    | err e ↦ ((dead, some e), (init_client C s).1)
    | ok _ ↦
        let r = call (λ c. C.container_inspect c id) ctx (init_client C s).1 in (inspected r.0, r.1)
  ]

  unfoldable pub ip : Context (World C) → Text → Step (World C) Text
  unfolding address_of
  ip ctx id = do
    init_client C
    insp ← context (text "container inspect: ") (call (λ c. C.container_inspect c id) ctx)
    elim (address_of insp.networks) [
      | some a ↦ pure a
      | none ↦ fail (message (text "container " ++ quote id ++ text " has no IP in sandbox-net"))
    ]

  abbrev pub docker_driver : Environ → Driver (World C)
  docker_driver E = record {
    create = create E C;
    exec = exec C;
    write_file = write_file;
    read_file = read_file;
    destroy = destroy;
    status = status;
    ip = ip;
  }
