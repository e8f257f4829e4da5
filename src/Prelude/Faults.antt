-- ===== src/Prelude/Faults.antt =====
-- The outcome of code that can stop: a failed `assert`, an access through a null pointer or out of
-- range, `detail::panic_on` (detail/utils.hpp), a thrown exception, or a loop of the model that is out of fuel.
use mathlib.Core.Path.{◌≡◌}
use mathlib.Core.Bool.{Bool, true, false}

pub data Fault : Type 0 where
  assertion bad_access panic exception out_of_fuel : Fault

pub data Outcome {ℓ} (A : Type ℓ) : Type ℓ where
  ok : A → Outcome A
  abort : Fault → Outcome A

infixl 5 ◌>>=◌ ◌>>◌
abbrev pub ◌>>=◌ {ℓ κ} : {A : Type ℓ} {B : Type κ} → Outcome A → (A → Outcome B) → Outcome B
ok a >>= f = f a
abort e >>= f = abort e

abbrev pub ◌>>◌ {ℓ} : {B : Type ℓ} → Outcome (Unit {0}) → Outcome B → Outcome B
m >> k = m >>= λ _. k

abbrev pub check : Bool → Outcome (Unit {0})
check true = ok tt
check false = abort assertion

-- `Ends P m`: the run ends without a fault, in a result with `P`.
abbrev pub Ends {ℓ κ} : {A : Type ℓ} → (A → Type κ) → Outcome A → Type (ℓ ⊔ κ)
Ends {A} P m = (a : A) × (m ≡ ok a) × P a
