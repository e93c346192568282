-- ===== src/Prelude/Run.antt =====
-- The outcome of a run of C code: a value, a failed `IDRIS2RC2_VERIFY` (or another exit with a
-- message), undefined behaviour such as an access out of bounds, or a model whose fuel ran out.
use mathlib.Core.Path.{◌≡◌, ap}
use mathlib.Core.Option.{Option, none, some}

pub data Run {ℓ} (A : Type ℓ) : Type ℓ where
  ok : A → Run A
  abort : Run A
  fault : Run A
  out_of_fuel : Run A

infixl 5 ◌>>=◌
abbrev pub ◌>>=◌ {ℓ κ} : {A : Type ℓ} {B : Type κ} → Run A → (A → Run B) → Run B
ok a >>= k = k a
abort >>= k = abort
fault >>= k = fault
out_of_fuel >>= k = out_of_fuel

run_value {ℓ} : {A : Type ℓ} → A → Run A → A
run_value x (ok y) = y
run_value x m = x

pub eq_of_ok {ℓ} : {A : Type ℓ} {x y : A} → ok x ≡ ok y → x ≡ y
unfolding run_value
eq_of_ok {x} e = ap (run_value x) e

-- What follows a run that succeeds.
pub bind_after {ℓ κ μ} :
    {A : Type ℓ} {B : Type κ} {C : Type μ} (m : Run A) (f : A → Run B) (k : B → Run C) {b : B}
    → (m >>= f) ≡ ok b
    → (m >>= λ x. f x >>= k) ≡ k b
bind_after (ok x) f k e = rw e
bind_after abort f k e = cc
bind_after fault f k e = cc
bind_after out_of_fuel f k e = cc

-- A read that may be out of bounds.
abbrev pub reading {ℓ} : {A : Type ℓ} → Option A → Run A
reading none = fault
reading (some a) = ok a
