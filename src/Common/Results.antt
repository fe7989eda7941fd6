-- ===== src/Common/Results.antt =====
-- Go's errors as values. A function that returns `(T, error)` gives a `Result`, one that returns
-- `error` gives an `Option Error`.
use Prim.Native.Nat.{ℕ}
use Prim.Native.String.{String}
use mathlib.Core.Path.{◌≡◌, refl}
use mathlib.Core.Bool.{Bool, true, false}
use mathlib.Core.Option.{Option, none, some}
use mathlib.Core.List.{List, [], ◌∷◌}

-- The kinds of error that the code tells apart.
pub data Error : Type 0 where
  not_found : String → Error
  failure : String → Error
  remaining_crds : List String → Error
  requeue : String → ℕ → Error

pub data Result {ℓ} (A : Type ℓ) : Type ℓ where
  ok : A → Result A
  err : Error → Result A

-- `errors.IsNotFound`
abbrev pub is_not_found : Error → Bool
is_not_found (not_found _) = true
is_not_found _ = false

-- The error of a call whose value is dropped.
abbrev pub error_of {ℓ} : {A : Type ℓ} → Result A → Option Error
error_of (ok _) = none
error_of (err e) = some e

-- A call that reports no error gives a value.
pub error_of-eq-none {ℓ} : {A : Type ℓ} (r : Result A) → error_of r ≡ none → (a : A) × (r ≡ ok a)
error_of-eq-none (ok a) h = (a, refl)
error_of-eq-none (err e) h = cc

infixl 5 ◌>>=◌
abbrev pub ◌>>=◌ {ℓ κ} : {A : Type ℓ} {B : Type κ} → Result A → (A → Result B) → Result B
ok a >>= f = f a
err e >>= f = err e

-- `if err != nil { errs = append(errs, err) }`
abbrev pub cons_error : Option Error → List Error → List Error
cons_error none es = es
cons_error (some e) es = e ∷ es

-- `utilerrors.NewAggregate`, a library function of the program.
pub record Aggregate : Type 0 where
  pub new_aggregate : List Error → Option Error
  pub new_aggregate-nil : new_aggregate [] ≡ none
  pub new_aggregate-cons :
      (e : Error) (es : List Error) → (a : Error) × (new_aggregate (e ∷ es) ≡ some a)
