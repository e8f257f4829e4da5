-- ===== src/Prelude/Counts.antt =====
-- How often a number stands in a list, and the numbers below a bound.
use Prim.Native.Nat.{ℕ, zero, suc, ◌+◌}
use mathlib.Core.Path.{◌≡◌, refl}
use mathlib.Core.List.{List, [], ◌∷◌, ◌++◌}
use native.Mathlib.Omega.{arith}
use condy.Prelude.Tests.{◌==◌, ltb, if◌then◌else◌}
use condy.Prelude.Lists.{length, length-append}

abbrev pub copies : ℕ → List ℕ → ℕ
copies a [] = 0
copies a (x ∷ xs) = (if a == x then 1 else 0) + copies a xs

pub copies-append :
    (n : ℕ) (front back : List ℕ) → copies n (front ++ back) ≡ copies n front + copies n back
copies-append n [] back = omega arith
copies-append n (m ∷ front) back = omega (arith, copies-append n front back)

abbrev pub upto : ℕ → List ℕ
upto zero = []
upto (suc n) = upto n ++ n ∷ []

pub length-upto : (n : ℕ) → length (upto n) ≡ n
length-upto zero = refl
length-upto (suc n) = omega (arith, length-append (upto n) (n ∷ []), length-upto n)

pub copies-upto : (a n : ℕ) → copies a (upto n) ≡ (if ltb a n then 1 else 0)
copies-upto a zero = ground arith
copies-upto a (suc n) = ground (arith, copies-append a (upto n) (n ∷ []), copies-upto a n)
