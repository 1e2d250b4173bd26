-- ===== src/Examples/Routing.antt =====
-- A router that takes the first route of the table whose method and pattern fit, and requests.
use mathlib.Core.Path.{subst}
use workspaces.Common.{
  Text, text, text_eq, text_eq_iff, List, [], ◌∷◌, ◌++◌, Bool, true, false, ◌≡◌, ◌∙◌, ap, Option,
  none, some, ok, ◌==◌, if◌then◌else◌, All, Bool-cases, Option-cases, inl, inr, arith,
}
use workspaces.Examples.Fakes.{always}
use workspaces.Api.Routes.{Route, Web, Request}
use workspaces.Api.Routes.Reading.{IsRouter, Takes}

abbrev split_loop : Text → Text → List Text
split_loop seg [] = seg ∷ []
split_loop seg (c ∷ s) =
    let cut = split_loop [] s in
    let more = split_loop (seg ++ c ∷ []) s in if c == b'/' then seg ∷ cut else more

abbrev is_param : Text → Bool
is_param [] = false
is_param (c ∷ s) = c == b'{'

-- The values of the parameters, each under its name in braces.
abbrev fit : List Text → List Text → Option (List (Text × Text))
fit [] [] = some []
fit [] (seg ∷ segs) = none
fit (pat ∷ pats) [] = none
fit (pat ∷ pats) (seg ∷ segs) =
    let rest = fit pats segs in
    if text_eq pat (text "*")
    then some []
    else if is_param pat
    then elim rest [ some ps ↦ some ((pat, seg) ∷ ps) | none ↦ none ]
    else if text_eq pat seg
    then rest
    else none

abbrev value_in : List (Text × Text) → Text → Text
value_in [] name = []
value_in ((k, v) ∷ ps) name =
    if text_eq k (text "{" ++ name ++ text "}") then v else value_in ps name

abbrev takes_method : Option Text → Text → Bool
takes_method none method = true
takes_method (some m) method = text_eq m method

abbrev fitted : Text → Route → Text → Option (List (Text × Text))
fitted method r path =
    if takes_method r.method method
    then fit (split_loop [] r.pattern) (split_loop [] path)
    else none

abbrev first_route : List Route → Text → Text → Option (Route × (Text → Text))
first_route [] method path = none
first_route (r ∷ rs) method path =
    let rest = first_route rs method path in
    elim (fitted method r path) [ some ps ↦ some (r, value_in ps) | none ↦ rest ]

abbrev pub web : Web
web = record {
  find_route = first_route;
  decode_create = λ body. ok (record { project_id = body; agent_role = []; image = [] });
  decode_exec = λ body. ok (body ∷ []);
  decode_run =
      λ body. ok (record { repo_url = []; task = body; role = []; image = []; sandbox_id = [] });
  parse_url = λ url. ok tt;
}

first_route-among :
    (routes : List Route) (method path : Text) {route : Route} {param : Text → Text}
    → first_route routes method path ≡ some (route, param)
    → (P : Route → Type 0) → All P routes
    → P route
first_route-among [] method path h P all = cc
first_route-among (r ∷ rs) method path h P (p, ps) = elim (Option-cases (fitted method r path)) [
  | inl e ↦ first_route-among rs method path (rw (e, first_route) at h) P ps
  | inr (qs, e) ↦ let k = (rw (e, first_route) at h) in subst P (ground (arith, k)) p
]

takes_method-Takes :
    (method : Text) (r : Route) → takes_method r.method method ≡ true → Takes method r
takes_method-Takes method r h = elim (Option-cases r.method) [
  | inl e ↦ inl e
  | inr (m, e) ↦ inr (e ∙ ap some ((text_eq_iff m method).0 (rw (e, takes_method) at h)))
]

fitted-Takes :
    (method path : Text) (r : Route) {ps : List (Text × Text)}
    → fitted method r path ≡ some ps
    → Takes method r
fitted-Takes method path r h = elim (Bool-cases (takes_method r.method method)) [
  | inl e ↦ takes_method-Takes method r e
  | inr e ↦ cc (rw e at h)
]

first_route-Takes :
    (routes : List Route) (method path : Text) {route : Route} {param : Text → Text}
    → first_route routes method path ≡ some (route, param)
    → Takes method route
first_route-Takes [] method path h = cc
first_route-Takes (r ∷ rs) method path {route} h = elim (Option-cases (fitted method r path)) [
  | inl e ↦ first_route-Takes rs method path (rw (e, first_route) at h)
  | inr (qs, e) ↦
      let k = (rw (e, first_route) at h) in
      subst (Takes method) {x = r} {y = route} (ground (arith, k)) (fitted-Takes method path r e)
]

pub web-IsRouter : IsRouter web
web-IsRouter = record { among = first_route-among; takes = first_route-Takes }

abbrev pub asked : {W : Type 0} → Text → Text → Text → Request W
asked method path body = record {
  method = method;
  path = path;
  raw_path = [];
  query = λ name. [];
  header = λ name. [];
  body = body;
  ctx = always;
  now = 7;
  clock = record { created = 1; started = 2; finished = 3; touched = 4; others = [] };
  is_late = λ w. false;
}
