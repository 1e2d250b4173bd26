-- ===== src/Sandbox/Env.antt =====
-- The environment readers of internal/sandbox/docker.go and cmd/forge/main.go.
use workspaces.Common.{Text, is_empty, Option, none, some, if◌then◌else◌}
use workspaces.Common.Int.{ℤ}

-- `os.Getenv`, which gives the empty string for an absent variable, and `fmt.Sscan` into an `int`
-- and into a `float64`; a float is counted in billionths.
pub record Environ : Type 0 where
  pub getenv : Text → Text
  pub scan_int : Text → Option ℤ
  pub scan_float : Text → Option ℤ

module _ (E : Environ) where
  or_default : Option ℤ → ℤ → ℤ
  or_default none def = def
  or_default (some n) def = n

  unfoldable pub env_int_or : Text → ℤ → ℤ
  unfolding or_default
  env_int_or key def =
      let v = E.getenv key in if is_empty v then def else or_default (E.scan_int v) def

  unfoldable pub env_float_or : Text → ℤ → ℤ
  unfolding or_default
  env_float_or key def =
      let v = E.getenv key in if is_empty v then def else or_default (E.scan_float v) def

  unfoldable pub env_or : Text → Text → Text
  env_or key fallback = let v = E.getenv key in if is_empty v then fallback else v
