-- ===== src/Prelude/Outcome.antt =====
-- How a run of C code ends: with a value, by an abort or undefined behaviour (a failed `ASSERT`,
-- a null or freed pointer that is followed), or not within the fuel given.
use mathlib.Core.Bool.{Bool, true, false}

pub data Outcome {ℓ} (A : Type ℓ) : Type ℓ where
  done : A → Outcome A
  fault : Outcome A
  out_of_fuel : Outcome A

infixl 5 ◌>>=◌ ◌>>◌
abbrev pub ◌>>=◌ {ℓ κ} : {A : Type ℓ} {B : Type κ} → Outcome A → (A → Outcome B) → Outcome B
done a >>= f = f a
fault >>= f = fault
out_of_fuel >>= f = out_of_fuel

abbrev pub ◌>>◌ {ℓ} : {B : Type ℓ} → Outcome (Unit {0}) → Outcome B → Outcome B
m >> k = m >>= λ _. k

-- C's `ASSERT`.
abbrev pub assert : Bool → Outcome (Unit {0})
assert true = done tt
assert false = fault
