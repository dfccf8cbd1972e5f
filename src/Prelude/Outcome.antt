-- ===== src/Prelude/Outcome.antt =====
-- The result of code that may run into undefined behaviour (a null pointer is followed, an iterator
-- at the end is read, an assertion fails) or, in the model, out of fuel.
use mathlib.Core.Path.{◌≡◌, refl}
use mathlib.Core.Logic.{◌≢◌}
use mathlib.Core.Bool.{Bool, true, false}
use dep_taint.Prelude.Tests.{if◌then◌else◌}

pub data Outcome {ℓ} (A : Type ℓ) : Type ℓ where
  done : A → Outcome A
  fault : Outcome A
  out_of_fuel : Outcome A

infixl 5 ◌>>=◌
abbrev pub ◌>>=◌ {ℓ κ} : {A : Type ℓ} {B : Type κ} → Outcome A → (A → Outcome B) → Outcome B
done a >>= f = f a
fault >>= f = fault
out_of_fuel >>= f = out_of_fuel

-- Inversion of a bind that succeeds.
pub >>=-eq-done {ℓ κ} :
    {A : Type ℓ} {B : Type κ} (m : Outcome A) (f : A → Outcome B) {b : B}
    → (m >>= f) ≡ done b
    → (a : A) × (m ≡ done a) × (f a ≡ done b)
>>=-eq-done (done a) f h = (a, refl, h)
>>=-eq-done fault f h = cc
>>=-eq-done out_of_fuel f h = cc

-- The run does not run out of fuel, and if it gives a result, the result has the property.
unfoldable pub Yields {ℓ} : {A : Type ℓ} → (A → Type 0) → Outcome A → Type 0
Yields P (done a) = P a
Yields P fault = Unit
Yields P out_of_fuel = ⊥

pub Yields-bind {ℓ κ} :
    {A : Type ℓ} {B : Type κ} (P : A → Type 0) (Q : B → Type 0) (m : Outcome A) (f : A → Outcome B)
    → Yields P m
    → ((a : A) → P a → Yields Q (f a))
    → Yields Q (m >>= f)
unfolding Yields
Yields-bind P Q (done a) f h k = k a h
Yields-bind P Q fault f h k = tt
Yields-bind P Q out_of_fuel f h k = absurd h

pub Yields-weaken {ℓ} :
    {A : Type ℓ} (P Q : A → Type 0) (m : Outcome A)
    → Yields P m
    → ((a : A) → P a → Q a)
    → Yields Q m
unfolding Yields
Yields-weaken P Q (done a) h k = k a h
Yields-weaken P Q fault h k = tt
Yields-weaken P Q out_of_fuel h k = h

pub Yields-ne_out_of_fuel {ℓ} :
    {A : Type ℓ} (P : A → Type 0) (m : Outcome A) → Yields P m → m ≢ out_of_fuel
unfolding Yields
Yields-ne_out_of_fuel P (done a) h e = cc
Yields-ne_out_of_fuel P fault h e = cc
Yields-ne_out_of_fuel P out_of_fuel h e = h

pub Yields-if {ℓ} :
    {A : Type ℓ} (P : A → Type 0) (b : Bool) (m n : Outcome A)
    → (b ≡ true → Yields P m)
    → (b ≡ false → Yields P n)
    → Yields P (if b then m else n)
Yields-if P true m n h k = h refl
Yields-if P false m n h k = k refl

pub Yields-done {ℓ} :
    {A : Type ℓ} (P : A → Type 0) (m : Outcome A) (a : A) → Yields P m → m ≡ done a → P a
unfolding Yields
Yields-done P (done b) a h e = let same : b ≡ a = cc in rw same at h
Yields-done P fault a h e = cc
Yields-done P out_of_fuel a h e = cc

pub Yields-fault {ℓ} : {A : Type ℓ} (m : Outcome A) → Yields (λ _. ⊥) m → m ≡ fault
unfolding Yields
Yields-fault (done a) h = absurd h
Yields-fault fault h = refl
Yields-fault out_of_fuel h = absurd h
