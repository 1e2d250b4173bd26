-- ===== src/Api/Proxy.antt =====
-- `handleSandboxProxy` of internal/api/proxy.go. The transport of `httputil.ReverseProxy` and
-- `url.Parse` are parameters.
pub mod Served
pub mod Target
use workspaces.Common.{
  ℕ, Text, text, is_empty, trim_prefix, List, [], ◌∷◌, ◌++◌, Bool, true, false, ◌&&◌, ◌||◌, leb,
  Result, ok, err, Error, error_text, Step, if◌then◌else◌,
}
use workspaces.Common.Runes.{runes}
use workspaces.Sandbox.Driver.{Driver, Context}
use workspaces.Sandbox.Registry.Sql.{Sqlite}
use workspaces.Sandbox.Registry.{SandboxRecord}
use workspaces.Sandbox.Registry
use workspaces.Api.Response.{Response, write_error}

abbrev pub is_digit : ℕ → Bool
is_digit ch = leb 48 ch && leb ch 57

-- The loop over the runes of the port.
unfoldable pub is_numeric : List ℕ → Bool
is_numeric [] = true
is_numeric (ch ∷ chs) = is_digit ch && is_numeric chs

-- A request is refused, or handed to a proxy for a target with the path and the raw path stripped.
pub data Proxied : Type 0 where
  refused : Response → Proxied
  forwarded : (target path raw_path : Text) → Proxied

unfoldable pub target_url : Text → Text → Text
target_url ip port = text "http://" ++ ip ++ text ":" ++ port

unfoldable pub proxy_prefix : Text → Text → Text
proxy_prefix id port = text "/sandboxes/" ++ id ++ text "/port/" ++ port

abbrev pub or_root : Text → Text
or_root path = if is_empty path then text "/" else path

-- The answer to a failed proxy request.
unfoldable pub proxy_error : Text → Error → Response
proxy_error port e =
    write_error 502
      (text "proxy error (is the server running on port " ++ port ++ text "?): " ++ error_text e)

-- The end of the request. The transport of `httputil.ReverseProxy` is a parameter: the response that
-- it brings back from the target for the path and the raw path is the answer, and its error goes to
-- the error handler.
unfoldable pub serve_http :
    {W : Type 0} → (Text → Text → Text → Step W Response) → Text → Proxied → W → Response × W
unfolding proxy_error
serve_http transport port (refused r) w = (r, w)
serve_http transport port (forwarded target path raw_path) w =
    let sent = transport target path raw_path w in
    (elim sent.0 [ ok r ↦ r | err e ↦ proxy_error port e ], sent.1)

module _ (S : Sqlite) {W : Type 0} (D : Driver W) (parse_url : Text → Result (Unit {0})) where
  -- The end of the handler, with an address.
  unfoldable pub forward : Text → Text → Text → Text → Text → Proxied
  unfolding target_url proxy_prefix
  forward ip id port path raw_path = elim (parse_url (target_url ip port)) [
    | err e ↦ refused (write_error 500 (text "invalid target url: " ++ error_text e))
    | ok _ ↦
        forwarded (target_url ip port) (or_root (trim_prefix path (proxy_prefix id port)))
          (trim_prefix raw_path (proxy_prefix id port))
  ]

  unfoldable pub no_address : Response
  no_address = write_error 502 (text "sandbox has no IP address yet")

  -- What follows the driver's answer.
  unfoldable pub after_ip : Text → Text → Text → Text → Result Text → Proxied
  unfolding forward no_address
  after_ip id port path raw_path (err e) = refused no_address
  after_ip id port path raw_path (ok ip) =
      if is_empty ip then refused no_address else forward ip id port path raw_path

  -- What follows the search for the record: where it has no address, the driver is asked.
  unfoldable pub after_lookup :
      Context W → Text → Text → Text → Text → Result SandboxRecord → W → Proxied × W
  unfolding after_ip
  after_lookup ctx id port path raw_path (err e) w =
      (refused (write_error 404 (text "sandbox not found: " ++ id)), w)
  after_lookup ctx id port path raw_path (ok sb) w =
      if is_empty sb.ip
      then (let r = D.ip ctx id w in (after_ip id port path raw_path r.0, r.1))
      else (forward sb.ip id port path raw_path, w)

  unfoldable pub handle_sandbox_proxy :
      Context W → Text → Text → Text → Text → W × S.Db → Proxied × W
  unfolding after_lookup is_numeric
  handle_sandbox_proxy ctx id port path raw_path (w, db) =
      if is_empty id || is_empty port
      then (refused (write_error 400 (text "sandbox id and port are required")), w)
      else if is_numeric (runes port)
      then after_lookup ctx id port path raw_path (Registry.get S id db) w
      else (refused (write_error 400 (text "port must be numeric")), w)
