-- ===== src/Examples/Daemon.antt =====
-- A Docker daemon that keeps its containers and the files that were copied into them.
use workspaces.Common.{
  Text, text, text_eq, text_eq_refl, List, [], ◌∷◌, ◌++◌, take, drop, length, Bool, false, ◌≡◌,
  refl, ok, err, Error, message, arith, if◌then◌else◌,
}
use workspaces.Common.Int.{pos}
use workspaces.Sandbox.Docker.Client.{Client, TarItem, entry}
use workspaces.Sandbox.Docker.Containers.{IsDaemon}
use workspaces.Sandbox.Docker.Names.{IsNaming}
use workspaces.Sandbox.Docker.Effects.{IsFileStore}

abbrev pub Daemon : Type 0
Daemon = List Text × List (Text × Text)

abbrev pub drop_first : Text → List Text → List Text
drop_first id [] = []
drop_first id (i ∷ ids) = if text_eq i id then ids else i ∷ drop_first id ids

-- An archive is the length of the name, the name and the content.
abbrev pack : Text → Text → Text
pack name content = length name ∷ name ++ content

abbrev file_in : Text → Text → Text × Text
file_in dir [] = (dir, [])
file_in dir (n ∷ s) = (dir ++ take n s, drop n s)

abbrev contents : Text → List (Text × Text) → List TarItem
contents path [] = []
contents path ((p, s) ∷ files) = if text_eq p path then entry s ∷ [] else contents path files

not_found : Error
not_found = message (text "not found")

abbrev is_not_found : Error → Bool
is_not_found (message s) = text_eq s (text "not found")
is_not_found _ = false

-- It has no image but the default one, and its containers have no user forge.
abbrev pub daemon : Client Daemon
daemon = record {
  connect = λ w. (ok tt, w);
  network_inspect = λ c n w. (err (message (text "not found")), w);
  network_create = λ c n s g w. (ok tt, w);
  image_inspect = λ c i w. (ok tt, w);
  image_pull = λ c i w. (ok tt, w);
  new_uuid = λ w. (text "0123456789", w);
  container_create = λ c cfg name w. (ok name, (name ∷ w.0, w.1));
  container_start = λ c id w. (err (message (text "no memory")), w);
  container_stop = λ c id w. (ok tt, w);
  container_remove = λ c id w. (ok tt, (drop_first id w.0, w.1));
  container_inspect = λ c id w. (ok (record { state = text "running"; networks = [] }), w);
  exec_create = λ c id o w. (ok o.user, w);
  exec_attach = λ c id w. (ok ([], text "unable to find user forge"), w);
  exec_inspect = λ c id w. (ok (pos 126), w);
  tar_pack = λ name content. ok (pack name content);
  copy_to = λ c id dir archive w. (ok tt, (w.0, file_in dir archive ∷ w.1));
  copy_from = λ c id path w. (ok (contents path w.1), w);
  is_not_found = is_not_found;
}

pub drop_first-head : (id : Text) (ids w : List Text) → w ≡ id ∷ ids → drop_first id w ≡ ids
drop_first-head id ids w h = rw (h, text_eq_refl id) refl

pub daemon-IsDaemon : IsDaemon daemon
daemon-IsDaemon = record {
  containers = λ w. w.0;
  connect_keeps = λ w. refl;
  network_inspect_keeps = λ c n w. refl;
  network_create_keeps = λ c n s g w. refl;
  image_inspect_keeps = λ c i w. refl;
  image_pull_keeps = λ c i w. refl;
  new_uuid_keeps = λ w. refl;
  start_keeps = λ c id w. refl;
  create_adds = λ c cfg name w. refl;
  remove_undoes = λ c id ids w h. drop_first-head id ids w.0 h;
}

take-length : (name content : Text) → take (length name) (name ++ content) ≡ name
take-length [] content = refl
take-length (b ∷ name) content = rw (take-length name content) refl

drop-length : (name content : Text) → drop (length name) (name ++ content) ≡ content
drop-length [] content = refl
drop-length (b ∷ name) content = drop-length name content

copied_back :
    (dir name content archive : Text) (files : List (Text × Text))
    → ok (pack name content) ≡ ok archive
    → (rest : List TarItem) × (ok (contents (dir ++ name) (file_in dir archive ∷ files))
        ≡ ok (entry content ∷ rest))
copied_back dir name content archive files h =
    let e : archive ≡ pack name content = ground arith in
    (
      [],
      rw (e, take-length name content, drop-length name content, text_eq_refl (dir ++ name)) refl,
    )

pub daemon-IsFileStore : IsFileStore daemon
daemon-IsFileStore = record {
  copy_back = λ c c' id dir name content archive w h k. copied_back dir name content archive w.1 h;
}

-- One whose containers start.
abbrev pub starting : Client Daemon
starting = record daemon { container_start = λ c id w. (ok tt, w) }

pub starting-IsDaemon : IsDaemon starting
starting-IsDaemon = record {
  containers = λ w. w.0;
  connect_keeps = λ w. refl;
  network_inspect_keeps = λ c n w. refl;
  network_create_keeps = λ c n s g w. refl;
  image_inspect_keeps = λ c i w. refl;
  image_pull_keeps = λ c i w. refl;
  new_uuid_keeps = λ w. refl;
  start_keeps = λ c id w. refl;
  create_adds = λ c cfg name w. refl;
  remove_undoes = λ c id ids w h. drop_first-head id ids w.0 h;
}

abbrev first_of : List Text → Text
first_of [] = []
first_of (id ∷ ids) = id

drop_first_of : (id : Text) (ids w : List Text) → w ≡ id ∷ ids → drop_first (first_of w) w ≡ ids
drop_first_of id ids w h = rw (h, text_eq_refl id) refl

pub starting-IsNaming : IsNaming starting starting-IsDaemon
unfolding starting-IsDaemon
starting-IsNaming = record {
  newest = λ w. first_of w.0;
  create_names = λ c cfg name w h. refl;
  start_keeps_name = λ c id w. refl;
  inspect_keeps = λ c id w. refl;
  inspect_keeps_name = λ c id w. refl;
  stop_keeps = λ c id w. refl;
  stop_keeps_name = λ c id w. refl;
  remove_by_name = λ c id ids w h. drop_first_of id ids w.0 h;
}
