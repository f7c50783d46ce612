-- ===== src/Base/Outcome.antt =====
-- The result of C code: a value, an access outside an array or a failed assertion, or no fuel left.
use mathlib.Core.Bool.{Bool, true, false}
use mathlib.Core.Path.{◌≡◌}

pub data Run {ℓ} (A : Type ℓ) : Type ℓ where
  ok : A → Run A
  fault : Run A
  out_of_fuel : Run A

infixl 5 ◌>>=◌ ◌>>◌
abbrev pub ◌>>=◌ {ℓ κ} : {A : Type ℓ} {B : Type κ} → Run A → (A → Run B) → Run B
ok a >>= f = f a
fault >>= f = fault
out_of_fuel >>= f = out_of_fuel

abbrev pub ◌>>◌ {ℓ} : {B : Type ℓ} → Run (Unit {0}) → Run B → Run B
m >> k = m >>= λ _. k

-- An assertion of the source, or a bound of an array.
abbrev pub guard : Bool → Run (Unit {0})
guard true = ok tt
guard false = fault

-- The run ends with a value that has the property.
pub data Returns {ℓ κ} {A : Type ℓ} (P : A → Type κ) (r : Run A) : Type (ℓ ⊔ κ) where
  returns : (a : A) → r ≡ ok a → P a → Returns P r
