-- ===== src/Prelude/Yields.antt =====
-- What holds of the value that a run gives, if it gives one.
use mathlib.Core.Path.{◌≡◌, refl, sym, ◌∙◌, subst}
use mathlib.Core.Bool.{Bool, true, false}
use mathlib.Core.Option.{Option, none, some}
use native.Mathlib.Omega.{arith}
use malincam.Prelude.Outcome.{Outcome, done, fault, out_of_fuel, ◌>>=◌}

-- Each value that the run can give has the property.
abbrev pub Yields {ℓ κ} : {A : Type ℓ} → (A → Type κ) → Outcome A → Type (ℓ ⊔ κ)
Yields {A = A} P o = (a : A) → o ≡ done a → P a

done-inj {ℓ} : {A : Type ℓ} {a b : A} → done a ≡ done b → a ≡ b
done-inj same = cc

pub Yields-done {ℓ κ} : {A : Type ℓ} (P : A → Type κ) (a : A) → P a → Yields P (done a)
Yields-done P a holds b same = subst P (done-inj same) holds

pub Yields-bind {ℓ κ μ} :
    {A : Type ℓ} {B : Type κ} (P : B → Type μ) (m : Outcome A) (f : A → Outcome B)
    → ((a : A) → m ≡ done a → Yields P (f a))
    → Yields P (m >>= f)
Yields-bind P (done a) f gives b same = gives a refl b same
Yields-bind P fault f gives b same = absurd (ground arith)
Yields-bind P out_of_fuel f gives b same = absurd (ground arith)

-- A run that goes one way or the other.
pub Yields-test {ℓ κ} :
    {A : Type ℓ} (P : A → Type κ) (b : Bool) (then_run else_run : Outcome A)
    → (b ≡ true → Yields P then_run)
    → Yields P else_run
    → Yields P (elim b [ false ↦ else_run | true ↦ then_run ])
Yields-test P true then_run else_run holds holds' = holds refl
Yields-test P false then_run else_run holds holds' = holds'

pub Yields-option {ℓ κ μ} :
    {A : Type ℓ} {B : Type κ} (P : A → Type μ) (o : Option B) (absent : Outcome A)
    (f : B → Outcome A)
    → Yields P absent
    → ((b : B) → o ≡ some b → Yields P (f b))
    → Yields P (elim o [ none ↦ absent | some b ↦ f b ])
Yields-option P none absent f holds gives = holds
Yields-option P (some b) absent f holds gives = gives b refl

-- A run that is known.
pub Yields-of {ℓ κ} :
    {A : Type ℓ} (P : A → Type κ) (m : Outcome A) (a : A) → m ≡ done a → P a → Yields P m
Yields-of P m a runs holds b same = subst P (done-inj (sym runs ∙ same)) holds
