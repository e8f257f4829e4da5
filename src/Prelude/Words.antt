-- ===== src/Prelude/Words.antt =====
-- `size_t` arithmetic, and `std::bit_ceil`, on the native numbers.
use Prim.Native.Nat.{ℕ, zero, suc, ◌+◌, ◌-◌, ◌*◌, ◌/◌, ◌%◌, ◌^◌, ◌≤◌, ◌<◌, bit_and}
use mathlib.Core.Path.{◌≡◌, refl, ap, sym, ◌∙◌}
use mathlib.Core.Logic.{inl, inr}
use mathlib.Core.Bool.{false}
use native.Mathlib.Omega.{arith}
use native.Mathlib.Decide.{dec_lt}
use native.Mathlib.Nat.{pow-suc, add-mul-mod_self_left, mod-add-div}
use condy.Prelude.Tests.{leb, if◌then◌else◌, Bool-cases}
use condy.Prelude.Bits.{bit_and_mask, pow_pos}

abbrev pub size_max : ℕ
size_max = 2 ^ 64

abbrev pub add_size : ℕ → ℕ → ℕ
add_size a b = (a + b) % size_max

abbrev pub sub_size : ℕ → ℕ → ℕ
sub_size a b = (a + size_max - b) % size_max

-- A counter that goes up and down again.
pub sub_size-add_size : (n : ℕ) → n < 2 ^ 64 → sub_size (add_size n 1) 1 ≡ n
sub_size-add_size n h = omega arith

-- `std::bit_ceil`: the least power of two that is not below `n`, found by doubling.
bit_ceil_loop : ℕ → ℕ → ℕ → ℕ
bit_ceil_loop zero p n = p
bit_ceil_loop (suc k) p n = let rest = bit_ceil_loop k (2 * p) n in if leb n p then p else rest

unfoldable pub bit_ceil : ℕ → ℕ
unfolding bit_ceil_loop
bit_ceil n = bit_ceil_loop 64 1 n

-- A power of two up to `2^63`, with what it takes to make up the range of `size_t`.
pub record IsPow2 (c : ℕ) : Type 0 where
  pub log : ℕ
  pub cofactor : ℕ
  pub is_pow : c ≡ 2 ^ log
  pub splits : c * cofactor ≡ size_max
  pub small : c ≤ 2 ^ 63

pub IsPow2-pos : (c : ℕ) → IsPow2 c → 0 < c
IsPow2-pos c s = omega (arith, pow_pos s.log, s.is_pow)

half_le : (p q m s : ℕ) → q ≡ 2 + 2 * m → p * q ≡ s → 2 * p ≤ s
half_le p q m s e f = omega (arith, ap (λ (t : ℕ). p * t) e)

pow_half : (k : ℕ) → 2 ^ suc k ≡ 2 + 2 * (2 ^ k - 1)
pow_half k = omega (arith, pow-suc 2 k, pow_pos k)

rounds_left :
    (k p q n : ℕ) → q ≡ 2 ^ suc k → p * q ≡ size_max → n ≤ 2 ^ 63 → leb n p ≡ false → 0 < k
rounds_left zero p q n f g h more =
    let e : q ≡ 2 = f in let w : p * q ≡ p * 2 = ap (λ (t : ℕ). p * t) e in ground arith
rounds_left (suc k) p q n f g h more = omega arith

bit_ceil_loop-IsPow2 :
    (k p q n : ℕ) (j : ℕ)
    → p ≡ 2 ^ j
    → q ≡ 2 ^ k
    → p * q ≡ size_max
    → n ≤ 2 ^ 63
    → 0 < k
    → IsPow2 (bit_ceil_loop k p n) × (n ≤ bit_ceil_loop k p n)
unfolding bit_ceil_loop
bit_ceil_loop-IsPow2 zero p q n j e f g h z = absurd (omega arith)
bit_ceil_loop-IsPow2 (suc k) p q n j e f g h z = elim (Bool-cases (leb n p)) [
  | inl done ↦ rw done (
    record {
      log = j;
      cofactor = q;
      is_pow = e;
      splits = g;
      small = omega (arith, half_le p q (2 ^ k - 1) size_max (f ∙ pow_half k) g);
    },
    ground arith,
  )
  | inr more ↦ rw more (
      bit_ceil_loop-IsPow2 k (2 * p) (2 ^ k) n (suc j) (omega (arith, pow-suc 2 j)) refl
        (omega (arith, ap (λ (t : ℕ). p * t) (f ∙ pow-suc 2 k))) h (rounds_left k p q n f g h more))
]

-- On a `size_t` up to `2^63` the result is a power of two, and not below the argument.
pub bit_ceil-IsPow2 : (n : ℕ) → n ≤ 2 ^ 63 → IsPow2 (bit_ceil n) × (n ≤ bit_ceil n)
unfolding bit_ceil
bit_ceil-IsPow2 n h = bit_ceil_loop-IsPow2 64 1 (2 ^ 64) n 0 refl refl refl h (omega arith)

bit_ceil_loop-le : (k p n b : ℕ) → p ≤ b → 2 * n ≤ b → bit_ceil_loop k p n ≤ b
unfolding bit_ceil_loop
bit_ceil_loop-le zero p n b h g = h
bit_ceil_loop-le (suc k) p n b h g = elim (Bool-cases (leb n p)) [
  | inl done ↦ rw done h
  | inr more ↦ rw more (bit_ceil_loop-le k (2 * p) n b (ground arith) g)
]

pub bit_ceil-le : (n b : ℕ) → 1 ≤ b → 2 * n ≤ b → bit_ceil n ≤ b
unfolding bit_ceil
bit_ceil-le n b h g = bit_ceil_loop-le 64 1 n b h g

-- Counters that wrap at a multiple of `c` keep their remainders by `c`.
pub mod_factor : (c cofactor s a : ℕ) → c * cofactor ≡ s → a % s % c ≡ a % c
mod_factor c cofactor s a splits =
    sym (add-mul-mod_self_left (a % s) c (cofactor * (a / s))) ∙ ap (λ (t : ℕ). t % c) (sym parts)
  where
    parts : a ≡ a % s + c * (cofactor * (a / s))
    parts = omega (arith, mod-add-div a s, ap (λ (t : ℕ). t * (a / s)) splits)

pub mod_wrap : (c a : ℕ) → IsPow2 c → a % size_max % c ≡ a % c
mod_wrap c a s = mod_factor c s.cofactor size_max a s.splits

-- `i & (capacity - 1)` is the remainder by a capacity that is a power of two.
pub mask_index : (c i : ℕ) → IsPow2 c → bit_and i (sub_size c 1) ≡ i % c
mask_index c i s = ap (bit_and i) mask ∙ bit_and_mask s.log i ∙ ap (λ (t : ℕ). i % t) (sym s.is_pow)
  where
    mask : sub_size c 1 ≡ 2 ^ s.log - 1
    mask = omega (arith, IsPow2-pos c s, s.is_pow, s.small)

pow_split : (a b : ℕ) → 2 ^ a * 2 ^ b ≡ 2 ^ (a + b)
pow_split zero b = ap (λ (t : ℕ). 1 * t) refl ∙ omega (arith, ap (λ (t : ℕ). 2 ^ t) (zero_plus b))
  where
    zero_plus : (n : ℕ) → 0 + n ≡ n
    zero_plus n = omega arith
pow_split (suc a) b =
    grind
      (arith, pow-suc 2 a, pow-suc 2 (a + b), pow_split a b, ap (λ (t : ℕ). 2 ^ t) (suc_plus a b))
  where
    suc_plus : (m n : ℕ) → suc m + n ≡ suc (m + n)
    suc_plus m n = omega arith

pub pow_fits : (k log : ℕ) → 2 ^ log ≤ 2 ^ k → log ≤ k
pow_fits k log h = elim (dec_lt k log) [
  | yes p ↦
      let big : 2 ^ suc k * 2 ^ (log - suc k) ≡ 2 ^ log =
        pow_split (suc k) (log - suc k) ∙ ap (λ (t : ℕ). 2 ^ t) (omega arith) in
      let some_left : 2 ^ (log - suc k) ≡ 1 + (2 ^ (log - suc k) - 1) =
        omega (arith, pow_pos (log - suc k)) in
      let more : 2 ^ suc k * 2 ^ (log - suc k) ≡ 2 ^ suc k * (1 + (2 ^ (log - suc k) - 1)) =
        ap (λ (t : ℕ). 2 ^ suc k * t) some_left in
      absurd (omega (arith, big, more, pow-suc 2 k, pow_pos k))
  | no p ↦ omega arith
]

-- A power of two divides those that are not less.
pub pow_splits : (w log : ℕ) → 2 ^ log ≤ 2 ^ w → 2 ^ log * 2 ^ (w - log) ≡ 2 ^ w
pow_splits w log h =
    let whole : log + (w - log) ≡ w = omega (arith, pow_fits w log h) in
    pow_split log (w - log) ∙ ap (λ (t : ℕ). 2 ^ t) whole

pub splits_short : (log : ℕ) → 2 ^ log ≤ 2 ^ 15 → 2 ^ log * 2 ^ (16 - log) ≡ 2 ^ 16
splits_short log h = pow_splits 16 log (omega arith)
