-- ===== src/Common/Errors.antt =====
-- Go's `error` values and the results of functions that may fail.
use mathlib.Core.Path.{◌≡◌, refl}
use mathlib.Core.Bool.{Bool, true, false}
use mathlib.Core.List.{◌++◌}
use mathlib.Core.Logic.{◌⊎◌, inl, inr}
use workspaces.Common.Strings.{Text, text}

pub data Error : Type 0 where
  -- `errors.New`, and `fmt.Errorf` with no `%w`
  message : Text → Error
  -- `fmt.Errorf` with `%w` at its end, behind the text
  wrapped : Text → Error → Error
  -- the sentinel errors of the packages context and database/sql
  deadline_exceeded : Error
  canceled : Error
  no_rows : Error
  -- an error of code outside the repository
  foreign : Text → Error

-- `err.Error()`.
unfoldable pub error_text : Error → Text
error_text (message s) = s
error_text (wrapped s e) = s ++ error_text e
error_text deadline_exceeded = text "context deadline exceeded"
error_text canceled = text "context canceled"
error_text no_rows = text "sql: no rows in result set"
error_text (foreign s) = s

-- `errors.Is(err, context.DeadlineExceeded)` follows the chain of `%w`.
unfoldable pub is_deadline_exceeded : Error → Bool
is_deadline_exceeded (wrapped s e) = is_deadline_exceeded e
is_deadline_exceeded deadline_exceeded = true
is_deadline_exceeded _ = false

-- A pair `(value, err)` of which the callers read the value only if `err` is nil.
pub data Result {ℓ} (A : Type ℓ) : Type ℓ where
  ok : A → Result A
  err : Error → Result A

-- `if err != nil { return fmt.Errorf("…: %w", err) }`.
abbrev pub wrap_err {ℓ} : {A : Type ℓ} → Text → Result A → Result A
wrap_err s (ok a) = ok a
wrap_err s (err e) = err (wrapped s e)

-- A step that may fail and that changes a state in either case.
abbrev pub Step {ℓ} : Type 0 → Type ℓ → Type ℓ
Step W A = W → Result A × W

infixl 5 ◌>>=◌ ◌>>◌
abbrev pub ◌>>=◌ {ℓ κ} :
    {W : Type 0} {A : Type ℓ} {B : Type κ} → Step W A → (A → Step W B) → Step W B
◌>>=◌ m f w = elim ((m w).0) [ ok a ↦ f a ((m w).1) | err e ↦ (err e, (m w).1) ]

abbrev pub ◌>>◌ {κ} : {W : Type 0} {B : Type κ} → Step W (Unit {0}) → Step W B → Step W B
m >> k = m >>= λ _. k

abbrev pub pure {ℓ} : {W : Type 0} {A : Type ℓ} → A → Step W A
pure a w = (ok a, w)

abbrev pub fail {ℓ} : {W : Type 0} {A : Type ℓ} → Error → Step W A
fail e w = (err e, w)

-- A call that changes no state.
abbrev pub lift {ℓ} : {W : Type 0} {A : Type ℓ} → Result A → Step W A
lift r w = (r, w)

-- `return fmt.Errorf("…: %w", err)` behind a step.
abbrev pub context {ℓ} : {W : Type 0} {A : Type ℓ} → Text → Step W A → Step W A
context s m w = (wrap_err s (m w).0, (m w).1)

-- A step whose error the caller looks at itself.
abbrev pub attempt {ℓ κ} :
    {W : Type 0} {A : Type ℓ} {B : Type κ} → Step W A → (Result A → Step W B) → Step W B
attempt m k w = k (m w).0 (m w).1

-- `err == nil`.
abbrev pub succeeded {ℓ} : {A : Type ℓ} → Result A → Bool
succeeded (ok a) = true
succeeded (err e) = false

pub Result-cases {ℓ} :
    {A : Type ℓ} (r : Result A) → ((a : A) × (r ≡ ok a)) ⊎ ((e : Error) × (r ≡ err e))
Result-cases (ok a) = inl (a, refl)
Result-cases (err e) = inr (e, refl)
