-- ===== src/Zcrx/Align.antt =====
-- `align_up` of include/condy/detail/utils.hpp, on `size_t`.
use condy.Prelude.{
  ℕ, zero, suc, ◌+◌, ◌-◌, ◌*◌, ◌/◌, ◌%◌, ◌^◌, ◌≤◌, ◌<◌, ◌≡◌, ap, ◌∙◌, false, ltb, lt→ltb, ◌==◌,
  if◌then◌else◌, bit_and, Outcome, ok, check, ◌>>◌, arith,
}
use condy.Prelude.Bits.{bit_and_step, bit_and-zero, bit_and_mask, pow_pos}
use condy.Prelude.Words.{size_max, add_size, sub_size}
use native.Mathlib.Nat.{pow-suc, mod-lt, mod-add-div, mod_self}

unfoldable pub align_up : ℕ → ℕ → Outcome ℕ
align_up value alignment = do
  check (if ltb 0 alignment then bit_and alignment (sub_size alignment 1) == 0 else false)
  ok (bit_and (sub_size (add_size value alignment) 1) (size_max - 1 - sub_size alignment 1))

-- The digits of a word, above and below a power of two.
digits_apart :
    (k w a : ℕ) → k ≤ w → bit_and a (2 ^ w - 2 ^ k) + bit_and a (2 ^ k - 1) ≡ bit_and a (2 ^ w - 1)
digits_apart zero w a h = omega (arith, bit_and-zero a)
digits_apart (suc k) zero a h = absurd (omega arith)
digits_apart (suc k) (suc w) a h = omega (
  arith,
  bit_and_step a (2 ^ suc w - 2 ^ suc k),
  bit_and_step a (2 ^ suc k - 1),
  bit_and_step a (2 ^ suc w - 1),
  high,
  low k,
  low w,
  digits_apart k w (a / 2) (omega arith),
  pow-suc 2 k,
  pow-suc 2 w,
  pow_pos k,
  pow_pos w,
)
  where
    high : bit_and (a / 2) ((2 ^ suc w - 2 ^ suc k) / 2) ≡ bit_and (a / 2) (2 ^ w - 2 ^ k)
    high = ap (bit_and (a / 2)) (omega (arith, pow-suc 2 k, pow-suc 2 w))

    low : (n : ℕ) → bit_and (a / 2) ((2 ^ suc n - 1) / 2) ≡ bit_and (a / 2) (2 ^ n - 1)
    low n = ap (bit_and (a / 2)) (omega (arith, pow-suc 2 n, pow_pos n))

-- A multiple of the alignment, the least that is not below the value.
pub record Aligned (value alignment r : ℕ) : Type 0 where
  pub parts : ℕ
  pub whole : r ≡ alignment * parts
  pub enough : value ≤ r
  pub tight : r < value + alignment

pub align_up-Aligned :
    (k value : ℕ)
    → k ≤ 63
    → value + 2 ^ k ≤ 2 ^ 64
    → (r : ℕ) × (align_up value (2 ^ k) ≡ ok r) × Aligned value (2 ^ k) r
unfolding align_up
align_up-Aligned k value h fits =
    let n : ℕ = value + 2 ^ k - 1 in
    let small : sub_size (2 ^ k) 1 ≡ 2 ^ k - 1 = omega (arith, pow_pos k) in
    let power : bit_and (2 ^ k) (sub_size (2 ^ k) 1) ≡ 0 =
      ap (bit_and (2 ^ k)) small ∙ bit_and_mask k (2 ^ k) ∙ mod_self (2 ^ k) in
    let sum : sub_size (add_size value (2 ^ k)) 1 ≡ n = omega (arith, pow_pos k) in
    let mask : size_max - 1 - sub_size (2 ^ k) 1 ≡ 2 ^ 64 - 2 ^ k = omega (arith, pow_pos k) in
    let low : bit_and n (2 ^ 64 - 2 ^ k) + n % 2 ^ k ≡ n =
      omega (
        arith,
        digits_apart k 64 n (omega arith),
        bit_and_mask k n,
        bit_and_mask 64 n,
        pow_pos k,
      ) in
    let r : ℕ = bit_and n (2 ^ 64 - 2 ^ k) in
    (
      r,
      simp (lt→ltb 0 (2 ^ k) (pow_pos k), power, sum, mask),
      record {
        parts = n / 2 ^ k;
        whole = omega (arith, low, mod-add-div n (2 ^ k));
        enough = omega (arith, low, mod-lt n {m = 2 ^ k} (pow_pos k), pow_pos k);
        tight = omega (arith, low, pow_pos k);
      },
    )
