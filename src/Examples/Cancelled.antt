-- ===== src/Examples/Cancelled.antt =====
-- The Docker driver under a context that is over once there is a container.
use workspaces.Common.{
  inr, ap, Text, text, text_eq, List, [], ◌∷◌, ◌++◌, ◌≡◌, refl, Option, none, some, Result, ok, err,
  Error, wrapped, deadline_exceeded,
}
use workspaces.Sandbox.Driver.{Context}
use workspaces.Sandbox.Docker.Client.{Client, fresh}
use workspaces.Sandbox.Docker.Setup.{World, init_client, ensure_network, ensure_image}
use workspaces.Sandbox.Docker.Create.{create}
use workspaces.Sandbox.Docker.Containers.{IsDaemon, IsRemoved, held}
use workspaces.Sandbox.Docker.Cancelled.{IsObedient, create_cancelled}
use workspaces.Examples.Daemon.{Daemon, daemon, drop_first, drop_first-head}
use workspaces.Examples.Containers.{bare_environ, plain}

-- An error of the context, or else what is done.
abbrev under : Option Error → Daemon → Daemon → Result (Unit {0}) × Daemon
under none w w' = (ok tt, w')
under (some e) w w' = (err e, w)

abbrev obedient : Client Daemon
obedient = record daemon {
  container_start = λ c id w. under (c w) w w;
  container_remove = λ c id w. under (c w) w (drop_first id w.0, w.1);
}

under-IsRemoved :
    (o : Option Error) (id : Text) (ids : List Text) (w : Daemon)
    → w.0 ≡ id ∷ ids
    → let r = under o w (drop_first id w.0, w.1) in IsRemoved r.0 id ids r.1.0
under-IsRemoved none id ids w h = drop_first-head id ids w.0 h
under-IsRemoved (some e) id ids w h = inr h

under_keeps : (o : Option Error) (w : Daemon) → (under o w w).1 ≡ w
under_keeps none w = refl
under_keeps (some e) w = refl

obedient-IsDaemon : IsDaemon obedient
obedient-IsDaemon = record {
  containers = λ w. w.0;
  connect_keeps = λ w. refl;
  network_inspect_keeps = λ c n w. refl;
  network_create_keeps = λ c n s g w. refl;
  image_inspect_keeps = λ c i w. refl;
  image_pull_keeps = λ c i w. refl;
  new_uuid_keeps = λ w. refl;
  start_keeps = λ c id w. ap (λ v. v.0) (under_keeps (c w) w);
  create_adds = λ c cfg name w. refl;
  remove_undoes = λ c id ids w h. under-IsRemoved (c w) id ids w h;
}

obedient-IsObedient : IsObedient obedient
obedient-IsObedient = record {
  start_over = λ c id w over. ap (λ o. under o w w) over;
  remove_over = λ c id w over. ap (λ o. under o w (drop_first id w.0, w.1)) over;
}

abbrev brief : Context (World obedient)
brief (d, ([], files)) = none
brief (d, (id ∷ ids, files)) = some deadline_exceeded

abbrev empty_world : World obedient
empty_world = (fresh, ([], []))

create_cancelled_example :
    ((create bare_environ obedient brief plain empty_world).0
      ≡ err (wrapped (text "container start: ") deadline_exceeded))
    × (held bare_environ obedient obedient-IsDaemon
          (create bare_environ obedient brief plain empty_world).1
        ≡ (text "forge-sandbox-" ++ text "01234567")
          ∷ held bare_environ obedient obedient-IsDaemon empty_world)
unfolding init_client ensure_network ensure_image text_eq text obedient-IsDaemon
create_cancelled_example =
    create_cancelled bare_environ obedient obedient-IsDaemon obedient-IsObedient brief plain
      empty_world refl refl refl refl refl
