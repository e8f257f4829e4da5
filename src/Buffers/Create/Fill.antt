-- ===== src/Buffers/Create/Fill.antt =====
-- include/condy/provided_buffers.hpp: a new pool has all its buffers with the kernel.
use condy.Prelude.{
  ℕ, zero, suc, ◌+◌, ◌-◌, ◌*◌, ◌%◌, ◌^◌, ◌≤◌, ◌<◌, ◌≡◌, refl, sym, ap, ◌∙◌, List, [], ltb,
  if◌then◌else◌, length, length-set, length-replicate, replicate, get_or, set, bit_and, arith,
}
use mathlib.Core.Path.{subst}
use condy.Prelude.Bits.{bit_and_mask}
use condy.Prelude.Words.{IsPow2, bit_ceil, bit_ceil-IsPow2, splits_short}
use condy.Prelude.Slots.{Holds, Holds-append}
use condy.Prelude.Counts.{upto, length-upto, copies-upto}
use condy.Buffers.{Pool}
use condy.Buffers.Custody.Keeps.{Custody}
use condy.Buffers.Create.{fill, fill_pool}

-- The ring is filled with the ids in order.
module _ (c log : ℕ) (is_pow : c ≡ 2 ^ log) where
  fill-Holds :
      (k bid : ℕ) (bufs : List ℕ)
      → length bufs ≡ c
      → bid + k ≤ c
      → Holds bufs c 0 0 (upto bid)
      → Holds (fill k bid 0 (c - 1) bufs) c 0 0 (upto (bid + k))
        × (length (fill k bid 0 (c - 1) bufs) ≡ c)
  unfolding fill
  fill-Holds zero bid bufs long room h =
      let same : bid ≡ bid + 0 = omega arith in
      (subst (λ (n : ℕ). Holds bufs c 0 0 (upto n)) same h, long)
  fill-Holds (suc k) bid bufs long room h =
      let step : suc bid ≡ bid + 1 = omega arith in
      let rest : bid + 1 + k ≡ bid + suc k = omega arith in
      let slot : bit_and (0 + bid) (c - 1) ≡ (0 + length (upto bid)) % c =
        simp is_pow (bit_and_mask log (0 + bid))
        ∙ ap (λ (n : ℕ). (0 + n) % c) (sym (length-upto bid)) in
      let next : Holds (set bufs (bit_and (0 + bid) (c - 1)) bid) c 0 0 (upto (suc bid)) =
        subst (λ (i : ℕ). Holds (set bufs i bid) c 0 0 (upto (suc bid))) (sym slot)
          (Holds-append bufs c 0 0 bid (upto bid) long (omega (arith, length-upto bid)) h) in
      let (held, kept) =
        fill-Holds k (bid + 1) (set bufs (bit_and (0 + bid) (c - 1)) bid)
          (length-set bufs (bit_and (0 + bid) (c - 1)) bid ∙ long) (omega arith)
          (subst (λ (n : ℕ). Holds (set bufs (bit_and (0 + bid) (c - 1)) bid) c 0 0 (upto n)) step
            next) in
      (
        subst
            (λ (n : ℕ).
              Holds (fill k (bid + 1) 0 (c - 1) (set bufs (bit_and (0 + bid) (c - 1)) bid)) c 0 0
                (upto n))
            rest held,
        kept,
      )

pub fill_pool-Custody :
    (p : Pool) (num size : ℕ)
    → p.bufs ≡ replicate (bit_ceil num) 0
    → p.tail ≡ 0
    → p.br_head ≡ 0
    → p.mask ≡ bit_ceil num - 1
    → p.num_buffers ≡ bit_ceil num
    → p.buffer_size ≡ size
    → p.curr_buf_len ≡ size
    → num ≤ 2 ^ 31
    → bit_ceil num ≤ 2 ^ 15
    → 0 < size
    → Custody
        (record { base = p.buffers_base; size = p.buffer_size; number = p.num_buffers })
        (record { pool = fill_pool p; held = [] })
unfolding fill_pool
fill_pool-Custody p num size bufs tail head mask number size_is cur fits few some_size =
    let n : ℕ = bit_ceil num in
    let pow : IsPow2 n = (bit_ceil-IsPow2 num (omega arith)).0 in
    let none_left : 0 + n ≡ n = omega arith in
    let (held, long) =
      fill-Holds n pow.log pow.is_pow n 0 (replicate n 0) (length-replicate n 0) (omega arith)
        (λ i h. absurd (omega arith)) in
    let same : fill p.num_buffers 0 p.tail p.mask p.bufs ≡ fill n 0 0 (n - 1) (replicate n 0) =
      simp (bufs, tail, mask, number) in
    let all : Holds (fill n 0 0 (n - 1) (replicate n 0)) n 0 0 (upto n) =
      subst (λ (m : ℕ). Holds (fill n 0 0 (n - 1) (replicate n 0)) n 0 0 (upto m)) none_left held in
    record {
      queued = upto n;
      names = [];
      ring = record {
        log = pow.log;
        cofactor = 2 ^ (16 - pow.log);
        is_pow = number ∙ pow.is_pow;
        splits =
            ap (λ (m : ℕ). m * 2 ^ (16 - pow.log)) (number ∙ pow.is_pow)
            ∙ splits_short pow.log (omega (arith, pow.is_pow));
        small = omega (arith, number);
        number_is = refl;
        mask_is = mask ∙ ap (λ (m : ℕ). m - 1) (sym number);
        base_is = refl;
        size_is = refl;
        slots = ap (length {A = ℕ}) same ∙ long ∙ sym number;
        holds = λ i below.
            ap (λ (b : List ℕ). get_or b ((p.br_head + i) % p.num_buffers) 0) same
            ∙ simp (head, number) (all i below);
        tail_is = omega (arith, tail, head, number, length-upto n);
        head_small = omega (arith, head);
        ready = record { some_left = omega (arith, cur); fits = omega (arith, cur, size_is) };
      };
      named = tt;
      once = λ a.
          omega (arith, copies-upto a n) ∙ ap (λ (m : ℕ). if ltb a m then 1 else 0) (sym number);
      number = omega (arith, length-upto n, number);
    }
