-- ===== src/Prelude/Bits.antt =====
-- The laws of `&` and `|` that masks and tags need, from the digit recursion of the native operations.
use Prim.Native.Nat.{
  ℕ, zero, suc, ◌+◌, ◌-◌, ◌*◌, ◌/◌, ◌%◌, ◌^◌, ◌≤◌, ◌<◌, min, max, bit_and, bit_or, digits,
  bit_and-bitwise, bit_or-bitwise,
}
use mathlib.Core.Path.{◌≡◌, refl, sym, ap, ◌∙◌}
use native.Mathlib.Omega.{arith}
use native.Mathlib.Nat.{pow-suc, add-mul-mod_self_left, mod-eq_of_lt, mod-add-div, mod-lt}

-- The digits of two words, combined: with fuel for the first word the result does not change.
module _ (last : ℕ → ℕ) (op : ℕ → ℕ → ℕ) where
  digits-nil : (fuel w : ℕ) → digits last op fuel 0 w ≡ last w
  digits-nil zero w = refl
  digits-nil (suc fuel) w = refl

  digits_enough :
      (v w : ℕ) (one two : ℕ) → v ≤ one → v ≤ two → digits last op one v w ≡ digits last op two v w
  digits_enough zero w one two _ _ = digits-nil one w ∙ sym (digits-nil two w)
  digits_enough (suc v) w zero two h _ = absurd (omega arith)
  digits_enough (suc v) w (suc one) zero _ h = absurd (omega arith)
  digits_enough (suc v) w (suc one) (suc two) h k =
      ap (λ (t : ℕ). t * 2 + op (suc v % 2) (w % 2))
        (digits_enough (suc v / 2) (w / 2) one two (omega arith) (omega arith))

  digits-suc :
      (v w : ℕ)
      → digits last op (suc v) (suc v) w
        ≡ digits last op (suc v / 2) (suc v / 2) (w / 2) * 2 + op (suc v % 2) (w % 2)
  digits-suc v w =
      ap (λ (t : ℕ). t * 2 + op (suc v % 2) (w % 2))
        (digits_enough (suc v / 2) (w / 2) v (suc v / 2) (omega arith) (omega arith))

-- The lowest digit of `&`, and the rest.
pub bit_and_step : (v w : ℕ) → bit_and v w ≡ bit_and (v / 2) (w / 2) * 2 + min (v % 2) (w % 2)
bit_and_step zero w = bit_and-bitwise 0 w ∙ omega (arith, bit_and-bitwise (zero / 2) (w / 2))
bit_and_step (suc v) w =
    bit_and-bitwise (suc v) w
    ∙ digits-suc (λ _. 0) min v w
    ∙ ap (λ (t : ℕ). t * 2 + min (suc v % 2) (w % 2)) (sym (bit_and-bitwise (suc v / 2) (w / 2)))

-- The lowest digit of `|`, and the rest.
pub bit_or_step : (v w : ℕ) → bit_or v w ≡ bit_or (v / 2) (w / 2) * 2 + max (v % 2) (w % 2)
bit_or_step zero w = bit_or-bitwise 0 w ∙ omega (arith, bit_or-bitwise (zero / 2) (w / 2))
bit_or_step (suc v) w =
    bit_or-bitwise (suc v) w
    ∙ digits-suc (λ t. t) max v w
    ∙ ap (λ (t : ℕ). t * 2 + max (suc v % 2) (w % 2)) (sym (bit_or-bitwise (suc v / 2) (w / 2)))

-- Nothing is in both a word and 0, and `|` with 0 is the word: by halving.
and_nothing : (bound v : ℕ) → v ≤ bound → bit_and v 0 ≡ 0
and_nothing zero v h = ap (λ (t : ℕ). bit_and t 0) none_left
  where
    none_left : v ≡ 0
    none_left = omega arith
and_nothing (suc bound) zero h = refl
and_nothing (suc bound) (suc v) h =
    bit_and_step (suc v) 0 ∙ omega (arith, and_nothing bound (suc v / 2) (omega arith))

pub bit_and-zero : (v : ℕ) → bit_and v 0 ≡ 0
bit_and-zero v = and_nothing v v (omega arith)

or_nothing : (bound v : ℕ) → v ≤ bound → bit_or v 0 ≡ v
or_nothing zero v h = ap (λ (t : ℕ). bit_or t 0) none_left ∙ sym none_left
  where
    none_left : v ≡ 0
    none_left = omega arith
or_nothing (suc bound) zero h = refl
or_nothing (suc bound) (suc v) h =
    bit_or_step (suc v) 0 ∙ omega (arith, or_nothing bound (suc v / 2) (omega arith))

pub bit_or-zero : (v : ℕ) → bit_or v 0 ≡ v
bit_or-zero v = or_nothing v v (omega arith)

-- The two parts of `|`: the lowest digit and the rest.
or_half : (v w : ℕ) → bit_or v w / 2 ≡ bit_or (v / 2) (w / 2)
or_half v w = omega (arith, bit_or_step v w)

or_digit : (v w : ℕ) → bit_or v w % 2 ≡ max (v % 2) (w % 2)
or_digit v w = omega (arith, bit_or_step v w)

idem_to : (bound v w : ℕ) → v + w ≤ bound → bit_or (bit_or v w) w ≡ bit_or v w
idem_to zero v w h =
    ap (λ (t : ℕ). bit_or (bit_or v t) t) none_right
    ∙ bit_or-zero (bit_or v 0)
    ∙ ap (bit_or v) (sym none_right)
  where
    none_right : w ≡ 0
    none_right = omega arith
idem_to (suc bound) v zero h = bit_or-zero (bit_or v 0)
idem_to (suc bound) v (suc w) h = omega (
  arith,
  bit_or_step (bit_or v (suc w)) (suc w),
  ap (λ (t : ℕ). bit_or t (suc w / 2)) (or_half v (suc w)),
  idem_to bound (v / 2) (suc w / 2) (omega arith),
  or_half v (suc w),
  or_digit v (suc w),
)

-- Setting a flag twice is setting it once.
pub bit_or_idem : (v w : ℕ) → bit_or (bit_or v w) w ≡ bit_or v w
bit_or_idem v w = idem_to (v + w) v w (omega arith)

assoc_to : (bound v w x : ℕ) → w + x ≤ bound → bit_or (bit_or v w) x ≡ bit_or v (bit_or w x)
assoc_to zero v w x h =
    ap (bit_or (bit_or v w)) none_right
    ∙ bit_or-zero (bit_or v w)
    ∙ ap (bit_or v) (sym (ap (bit_or w) none_right ∙ bit_or-zero w))
  where
    none_right : x ≡ 0
    none_right = omega arith
assoc_to (suc bound) v w zero h = bit_or-zero (bit_or v w) ∙ ap (bit_or v) (sym (bit_or-zero w))
assoc_to (suc bound) v w (suc x) h = omega (
  arith,
  bit_or_step (bit_or v w) (suc x),
  ap (λ (t : ℕ). bit_or t (suc x / 2)) (or_half v w),
  assoc_to bound (v / 2) (w / 2) (suc x / 2) (omega arith),
  or_digit v w,
  bit_or_step v (bit_or w (suc x)),
  ap (bit_or (v / 2)) (or_half w (suc x)),
  or_digit w (suc x),
)

pub bit_or_assoc : (v w x : ℕ) → bit_or (bit_or v w) x ≡ bit_or v (bit_or w x)
bit_or_assoc v w x = assoc_to (w + x) v w x (omega arith)

pub pow_pos : (k : ℕ) → 0 < 2 ^ k
pow_pos zero = omega arith
pow_pos (suc k) = omega (arith, pow-suc 2 k, pow_pos k)

mod_double : (a m : ℕ) → 0 < m → a % (2 * m) ≡ a / 2 % m * 2 + a % 2
mod_double a m h =
    ap (λ (t : ℕ). t % (2 * m)) parts
    ∙ add-mul-mod_self_left (a / 2 % m * 2 + a % 2) (2 * m) (a / 2 / m)
    ∙ mod-eq_of_lt small
  where
    parts : a ≡ a / 2 % m * 2 + a % 2 + 2 * m * (a / 2 / m)
    parts = omega (arith, mod-add-div (a / 2) m)

    small : a / 2 % m * 2 + a % 2 < 2 * m
    small = omega (arith, mod-lt (a / 2) {m = m} h)

-- `x & (2^k - 1)` is the remainder by 2^k.
pub bit_and_mask : (k a : ℕ) → bit_and a (2 ^ k - 1) ≡ a % 2 ^ k
bit_and_mask zero a = omega (arith, bit_and-zero a)
bit_and_mask (suc k) a = omega (
  arith,
  bit_and_step a (2 ^ suc k - 1),
  bit_and_mask k (a / 2),
  mod_double a (2 ^ k) (pow_pos k),
  pow-suc 2 k,
  pow_pos k,
  half,
  wide,
)
  where
    half : bit_and (a / 2) ((2 ^ suc k - 1) / 2) ≡ bit_and (a / 2) (2 ^ k - 1)
    half = ap (bit_and (a / 2)) (omega (arith, pow-suc 2 k, pow_pos k))

    wide : a % 2 ^ suc k ≡ a % (2 * 2 ^ k)
    wide = ap (λ (t : ℕ). a % t) (omega (arith, pow-suc 2 k))

-- `|` of words without a common digit is their sum.
pub bit_or_disjoint : (k v t : ℕ) → v < 2 ^ k → bit_or v (2 ^ k * t) ≡ v + 2 ^ k * t
bit_or_disjoint zero v t h =
    ap (λ (x : ℕ). bit_or x (2 ^ 0 * t)) none_left ∙ bit_or-bitwise 0 (2 ^ 0 * t) ∙ omega arith
  where
    none_left : v ≡ 0
    none_left = omega arith
bit_or_disjoint (suc k) v t h = omega (
  arith,
  bit_or_step v (2 ^ suc k * t),
  pow-suc 2 k,
  halved,
  ap (bit_or (v / 2)) half,
  bit_or_disjoint k (v / 2) t (omega (arith, pow-suc 2 k)),
)
  where
    halved : 2 ^ suc k * t ≡ 2 * (2 ^ k * t)
    halved = omega (arith, ap (λ (x : ℕ). x * t) (pow-suc 2 k))

    half : 2 ^ suc k * t / 2 ≡ 2 ^ k * t
    half = omega (arith, halved)
