-- ===== src/Api/Proxy/Target.antt =====
-- Where `handleSandboxProxy` of internal/api/proxy.go sends a request.
use workspaces.Common.{
  ℕ, ◌≤◌, Text, is_empty, trim_prefix-append, List, [], ◌∷◌, ◌++◌, true, false, ◌||◌, ◌≡◌, refl, ap,
  Option, none, some, Result, ok, err, arith, ◌⊎◌, inl, inr, Result-cases, Bool-cases, All,
}
use workspaces.Common.Runes.{runes, runes-cases}
use workspaces.Sandbox.Driver.{Driver, Context}
use workspaces.Sandbox.Registry.Sql.{Sqlite, IsSqlite, IsHealthy}
use workspaces.Sandbox.Registry.{SandboxRecord}
use workspaces.Sandbox.Registry.Spec.{find, IsKeyed}
use workspaces.Sandbox.Registry.Tables.{table}
use workspaces.Sandbox.Registry.Queries.{found}
use workspaces.Api.Response.{Response, write_error, write_json}
use workspaces.Api.Sandboxes.Records.{get-record}
use workspaces.Api.Proxy.{
  is_numeric, Proxied, refused, forwarded, target_url, proxy_prefix, or_root, forward, after_ip,
  no_address, after_lookup, handle_sandbox_proxy,
}

-- A byte that is an ASCII digit.
abbrev pub IsDigit : ℕ → Type 0
IsDigit b = (48 ≤ b) × (b ≤ 57)

-- A port that is numeric holds ASCII digits only.
numeric-digits : (port : Text) → is_numeric (runes port) ≡ true → All IsDigit port
unfolding is_numeric
numeric-digits [] h = tt
numeric-digits (b ∷ s) h = elim (runes-cases b s) [
  | inl e ↦ let h' = rw e at h in (ground arith, numeric-digits s (ground arith))
  | inr (r, rs, e, l) ↦ let h' = rw e at h in ground arith
]

module _ (S : Sqlite) (L : IsSqlite S) (H : IsHealthy S) {W : Type 0} (D : Driver W)
    (parse_url : Text → Result (Unit {0})) where
  -- The answer to a request, from its sandbox and port and the rest of its path: it is refused, or it
  -- goes to the port of the sandbox's address, which the registry knows or else the driver tells.
  abbrev pub Sent : Context W → Text → Text → Text → W → Option SandboxRecord → Proxied → Type 0
  Sent ctx id port rest w o (refused r) =
      (r.code ≡ 400) ⊎ ((r.code ≡ 404) ⊎ ((r.code ≡ 500) ⊎ (r.code ≡ 502)))
  Sent ctx id port rest w o (forwarded target path raw_path) =
      (sb : SandboxRecord) × (ip : Text) × (o ≡ some sb)
      × (target ≡ target_url ip port)
      × (is_empty ip ≡ false)
      × ((ip ≡ sb.ip) ⊎ ((is_empty sb.ip ≡ true) × ((D.ip ctx id w).0 ≡ ok ip)))
      × (path ≡ or_root rest)
      × All IsDigit port
      × (is_empty port ≡ false)

  forward-Sent :
      (ctx : Context W) (ip id port rest raw_path : Text) (w : W) (sb : SandboxRecord)
      → is_empty ip ≡ false
      → (ip ≡ sb.ip) ⊎ ((is_empty sb.ip ≡ true) × ((D.ip ctx id w).0 ≡ ok ip))
      → All IsDigit port
      → is_empty port ≡ false
      → Sent ctx id port rest w
          (some sb)
          (forward S D parse_url ip id port (proxy_prefix id port ++ rest) raw_path)
  unfolding forward write_error write_json
  forward-Sent ctx ip id port rest raw_path w sb full from digits some_port =
      elim (Result-cases (parse_url (target_url ip port))) [
        | inl (_, e) ↦
            rw (e, forward)
              (
                sb,
                ip,
                refl,
                refl,
                full,
                from,
                ap or_root (trim_prefix-append (proxy_prefix id port) rest),
                digits,
                some_port,
              )
        | inr (x, e) ↦ rw (e, forward) (inr (inr (inl refl)))
      ]

  after_ip-Sent :
      (ctx : Context W) (id port rest raw_path : Text) (w : W) (sb : SandboxRecord)
      (r : Result Text)
      → is_empty sb.ip ≡ true
      → (D.ip ctx id w).0 ≡ r
      → All IsDigit port
      → is_empty port ≡ false
      → Sent ctx id port rest w
          (some sb)
          (after_ip S D parse_url id port (proxy_prefix id port ++ rest) raw_path r)
  unfolding after_ip no_address write_error write_json
  after_ip-Sent ctx id port rest raw_path w sb (err e) unknown told digits some_port =
      inr (inr (inr refl))
  after_ip-Sent ctx id port rest raw_path w sb (ok ip) unknown told digits some_port =
      elim (Bool-cases (is_empty ip)) [
        | inl nowhere ↦ rw (nowhere, after_ip) (inr (inr (inr refl)))
        | inr full ↦
            rw (full, after_ip)
              (forward-Sent ctx ip id port rest raw_path w sb full (inr (unknown, told)) digits
                some_port)
      ]

  after_lookup-Sent :
      (ctx : Context W) (id port rest raw_path : Text) (w : W) (o : Option SandboxRecord)
      → All IsDigit port
      → is_empty port ≡ false
      → Sent ctx id port rest w o
          (after_lookup S D parse_url ctx id port
            (proxy_prefix id port ++ rest)
            raw_path
            (found o)
            w).0
  unfolding after_lookup write_error write_json
  after_lookup-Sent ctx id port rest raw_path w none digits some_port = inr (inl refl)
  after_lookup-Sent ctx id port rest raw_path w (some sb) digits some_port =
      elim (Bool-cases (is_empty sb.ip)) [
        | inl unknown ↦
            rw (unknown, after_lookup)
              (after_ip-Sent ctx id port rest raw_path w sb _ unknown refl digits some_port)
        | inr known ↦
            rw (known, after_lookup)
              (forward-Sent ctx sb.ip id port rest raw_path w sb known (inl refl) digits some_port)
      ]

  -- With an engine in order and a database that stores records of distinct ids, a request under
  -- the prefix of a sandbox and a port is refused with 400, 404, 500 or 502, or goes to
  -- `http://<address>:<port>` with the prefix taken off its path: the port is not empty and holds
  -- ASCII digits only, the id has a record, and the address is not empty and the one in the
  -- record or, where that is empty, the one that the driver told.
  pub handle_sandbox_proxy-Sent :
      (ctx : Context W) (id port rest raw_path : Text) (w : W) (db : S.Db)
      (sbs : List SandboxRecord)
      → S.rows db ≡ table S sbs
      → IsKeyed sbs
      → Sent ctx id port rest w
          (find id sbs)
          (handle_sandbox_proxy S D parse_url ctx id port
            (proxy_prefix id port ++ rest)
            raw_path
            (w, db)).0
  unfolding handle_sandbox_proxy write_error write_json
  handle_sandbox_proxy-Sent ctx id port rest raw_path w db sbs stored k =
      elim (Bool-cases (is_empty id || is_empty port)) [
        | inl blank ↦ rw (blank, handle_sandbox_proxy) (inl refl)
        | inr given ↦ elim (Bool-cases (is_numeric (runes port))) [
          | inr other ↦ rw (given, other, handle_sandbox_proxy) (inl refl)
          | inl numeric ↦
              rw (given, numeric, handle_sandbox_proxy, get-record S L H D id db sbs stored k)
                (after_lookup-Sent ctx id port rest raw_path w (find id sbs)
                  (numeric-digits port numeric) (ground arith))
        ]
      ]

  -- With an engine in order and a database that stores records of distinct ids, a request for an
  -- id that has no record is refused with 400 or 404 and not forwarded, and the world stays: the
  -- driver is not asked.
  pub handle_sandbox_proxy_unknown :
      (ctx : Context W) (id port path raw_path : Text) (w : W) (db : S.Db)
      (sbs : List SandboxRecord)
      → S.rows db ≡ table S sbs
      → IsKeyed sbs
      → find id sbs ≡ none
      → (r : Response) × (handle_sandbox_proxy S D parse_url ctx id port path raw_path (w, db)
          ≡ (refused r, w))
        × ((r.code ≡ 400) ⊎ (r.code ≡ 404))
  unfolding handle_sandbox_proxy after_lookup write_error write_json
  handle_sandbox_proxy_unknown ctx id port path raw_path w db sbs stored k absent =
      elim (Bool-cases (is_empty id || is_empty port)) [
        | inl blank ↦ rw (blank, handle_sandbox_proxy) (_, refl, inl refl)
        | inr given ↦ elim (Bool-cases (is_numeric (runes port))) [
          | inr other ↦ rw (given, other, handle_sandbox_proxy) (_, refl, inl refl)
          | inl numeric ↦
              rw
                (
                  given,
                  numeric,
                  handle_sandbox_proxy,
                  get-record S L H D id db sbs stored k,
                  absent,
                )
                (_, refl, inr refl)
        ]
      ]
