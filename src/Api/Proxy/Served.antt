-- ===== src/Api/Proxy/Served.antt =====
-- What a request to the proxy of internal/api/proxy.go is answered with in the end.
use workspaces.Common.{
  Error, err, Text, List, ◌++◌, ◌≡◌, refl, Option, Result, ok, Step, ◌⊎◌, inl, inr, Result-cases,
  arith,
}
use workspaces.Sandbox.Driver.{Driver, Context}
use workspaces.Sandbox.Registry.Sql.{Sqlite, IsSqlite, IsHealthy}
use workspaces.Sandbox.Registry.{SandboxRecord}
use workspaces.Sandbox.Registry.Spec.{find, IsKeyed}
use workspaces.Sandbox.Registry.Tables.{table}
use workspaces.Api.Response.{Response, write_error, write_json}
use workspaces.Api.Proxy.{
  Proxied, refused, forwarded, proxy_prefix, proxy_error, serve_http, handle_sandbox_proxy,
}
use workspaces.Api.Proxy.Target.{Sent, handle_sandbox_proxy-Sent}

module _ (S : Sqlite) (L : IsSqlite S) (H : IsHealthy S) {W : Type 0} (D : Driver W)
    (parse_url : Text → Result (Unit {0})) (transport : Text → Text → Text → Step W Response) where
  -- An answer to a request for the rest of a path: the proxy refuses it, the transport is not used
  -- and the world stays as it was handed over; or the request went to the target, and the answer is
  -- the response that came back, or 502 where the transport failed.
  abbrev pub Served :
      Context W → Text → Text → Text → W → Option SandboxRecord → W → Response → W → Type 0
  Served ctx id port rest w o handed r w' =
      (Sent S L H D parse_url ctx id port rest w o (refused r) × (w' ≡ handed))
      ⊎ ((target path raw_path : Text) × Sent S L H D parse_url ctx id port rest w o
            (forwarded target path raw_path)
          × ((transport target path raw_path handed ≡ (ok r, w'))
              ⊎ ((e : Error) × (transport target path raw_path handed ≡ (err e, w'))
                  × (r.code ≡ 502))))

  serve_http-Served :
      (ctx : Context W) (id port rest : Text) (w : W) (o : Option SandboxRecord) (p : Proxied)
      (handed : W)
      → Sent S L H D parse_url ctx id port rest w o p
      → Served ctx id port rest w o handed
          (serve_http transport port p handed).0
          (serve_http transport port p handed).1
  unfolding serve_http proxy_error write_error write_json
  serve_http-Served ctx id port rest w o (refused r) handed sent = inl (sent, refl)
  serve_http-Served ctx id port rest w o (forwarded target path raw_path) handed sent = inr (
    target,
    path,
    raw_path,
    sent,
    elim (Result-cases (transport target path raw_path handed).0) [
      | inl (r, e) ↦ inl (ground (arith, e))
      | inr (x, e) ↦ inr (x, ground (arith, e), rw e refl)
    ],
  )

  -- With an engine in order and a database that stores records of distinct ids, a request under the
  -- prefix of a sandbox and a port is refused with 400, 404, 500 or 502 without the use of the
  -- network, or goes to `http://<address>:<port>` with the prefix taken off its path and is answered
  -- with the response of the server there, or with 502 if the transport failed: the port is not
  -- empty and holds ASCII digits only, the id has a record, and the address is not empty and the one
  -- in the record or, where that is empty, the one that the driver told.
  pub handle_sandbox_proxy-Served :
      (ctx : Context W) (id port rest raw_path : Text) (w : W) (db : S.Db)
      (sbs : List SandboxRecord)
      → S.rows db ≡ table S sbs
      → IsKeyed sbs
      → let p =
          handle_sandbox_proxy S D parse_url ctx id port
            (proxy_prefix id port ++ rest)
            raw_path
            (w, db) in
        Served ctx id port rest w
          (find id sbs)
          p.1
          (serve_http transport port p.0 p.1).0
          (serve_http transport port p.0 p.1).1
  handle_sandbox_proxy-Served ctx id port rest raw_path w db sbs stored k =
      serve_http-Served ctx id port rest w (find id sbs) _ _
        (handle_sandbox_proxy-Sent S L H D parse_url ctx id port rest raw_path w db sbs stored k)
