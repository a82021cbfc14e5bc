-- ===== src/Common/Errors.antt =====
-- Go's `error` values as `fmt.Errorf` builds them, and the result of a function that returns
-- `(T, error)`. A nil error beside a pointer is `ok`; a function that returns `error` alone
-- returns an `Option Error`.
use Prim.Native.String
use Prim.Native.String.{String}
use mathlib.Core.Path.{◌≡◌, refl}
use mathlib.Core.Logic.{◌⊎◌, inl, inr}
use mathlib.Core.Option.{Option, none, some}

pub data Error : Type 0 where
  message : String → Error
  -- `fmt.Errorf("<context>: %w", err)`
  wrap : String → Error → Error

-- `err.Error()`
abbrev pub error_text : Error → String
error_text (message m) = m
error_text (wrap context e) = String.◌++◌ context (String.◌++◌ ": " (error_text e))

pub data Result {ℓ} (A : Type ℓ) : Type ℓ where
  ok : A → Result A
  err : Error → Result A

infixl 5 ◌>>=◌
abbrev pub ◌>>=◌ {ℓ κ} : {A : Type ℓ} {B : Type κ} → Result A → (A → Result B) → Result B
ok a >>= f = f a
err e >>= f = err e

-- `if err != nil { return fmt.Errorf("<context>: %w", err) }`
abbrev pub in_context {ℓ} : {A : Type ℓ} → String → Result A → Result A
in_context context (ok a) = ok a
in_context context (err e) = err (wrap context e)

module _ {ℓ} {A : Type ℓ} where
  pub Result-cases : (r : Result A) → ((a : A) × (r ≡ ok a)) ⊎ ((e : Error) × (r ≡ err e))
  Result-cases (ok a) = inl (a, refl)
  Result-cases (err e) = inr (e, refl)

  -- The error of a result, as the caller's `err != nil` sees it.
  abbrev pub error_of : Result A → Option Error
  error_of (ok _) = none
  error_of (err e) = some e
