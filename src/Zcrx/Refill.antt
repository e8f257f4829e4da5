-- ===== src/Zcrx/Refill.antt =====
-- include/condy/zcrx.hpp: a buffer goes back to the place in the area that it came from.
use condy.Prelude.{
  ℕ, ◌+◌, ◌-◌, ◌*◌, ◌%◌, ◌^◌, ◌≤◌, ◌<◌, ◌≡◌, sym, ap, ◌∙◌, Bool, true, false, List, [], ◌∷◌, ◌++◌,
  lt→ltb, if◌then◌else◌, length, length-append, length-set, get_or, set, bit_and, bit_or, Outcome,
  ◌>>=◌, ok, arith,
}
use condy.Prelude.Int.{pos}
use condy.Prelude.Bits.{bit_and_mask, bit_or_disjoint, pow_pos}
use condy.Prelude.Slots.{Holds, Holds-append}
use condy.Prelude.Words.{add_size, sub_size, mod_factor}
use native.Mathlib.Nat.{mod-lt, mod-eq_of_lt, add-mul-mod_self_left}
use condy.Zcrx.{
  Rqe, ZcrxPool, no_buffer, add_unsigned, sub_unsigned, rq_nr_queued, flush_rq, maybe_flush_rq,
  rq_enqueue, add_buffer_back, zcrx_handle_finish, reset_buffer,
}

-- The number of entries that `std::bit_ceil` gives, the head of the kernel in range, and the entries
-- `q` that the kernel has not taken yet, oldest first.
pub record Queue (p : ZcrxPool) (d : Rqe) (q : List Rqe) : Type 0 where
  pub log : ℕ
  pub cofactor : ℕ
  pub is_pow : p.ring_entries ≡ 2 ^ log
  pub splits : p.ring_entries * cofactor ≡ 2 ^ 32
  pub bounded : p.ring_entries ≤ 2 ^ 31
  pub room : length p.rqes ≡ p.ring_entries
  pub head_in : p.khead < 2 ^ 32
  pub tail_at : p.rq_tail ≡ add_unsigned p.khead (length q)
  pub fits : length q ≤ p.ring_entries
  pub holds : Holds p.rqes p.ring_entries p.khead d q

module _ {p : ZcrxPool} {d : Rqe} {q : List Rqe} (rep : Queue p d q) where
  queued : rq_nr_queued p ≡ length q
  unfolding rq_nr_queued
  queued = omega (arith, rep.tail_at, rep.fits, rep.bounded, rep.head_in)

  slot : bit_and p.rq_tail (sub_unsigned p.ring_entries 1) ≡ (p.khead + length q) % p.ring_entries
  slot =
      ap (bit_and p.rq_tail) mask
      ∙ bit_and_mask rep.log p.rq_tail
      ∙ ap (λ (t : ℕ). p.rq_tail % t) (sym rep.is_pow)
      ∙ ap (λ (t : ℕ). t % p.ring_entries) rep.tail_at
      ∙ mod_factor p.ring_entries rep.cofactor (2 ^ 32) (p.khead + length q) rep.splits
    where
      mask : sub_unsigned p.ring_entries 1 ≡ 2 ^ rep.log - 1
      mask = omega (arith, rep.is_pow, rep.bounded, pow_pos rep.log)

  -- The entry is written behind the others.
  abbrev enqueued : Rqe → ZcrxPool
  enqueued e = record p {
    rqes = set p.rqes (bit_and p.rq_tail (sub_unsigned p.ring_entries 1)) e;
    rq_tail = add_unsigned p.rq_tail 1;
    ktail = add_unsigned p.rq_tail 1;
  }

  enqueued-Queue : (e : Rqe) → length q < p.ring_entries → Queue (enqueued e) d (q ++ e ∷ [])
  enqueued-Queue e free = record {
    log = rep.log;
    cofactor = rep.cofactor;
    is_pow = rep.is_pow;
    splits = rep.splits;
    bounded = rep.bounded;
    room = length-set p.rqes _ e ∙ rep.room;
    head_in = rep.head_in;
    tail_at = omega (arith, rep.tail_at, length-append q (e ∷ []), rep.head_in, rep.bounded);
    fits = omega (arith, length-append q (e ∷ []));
    holds = λ i below.
        ap (λ (j : ℕ). get_or (set p.rqes j e) ((p.khead + i) % p.ring_entries) d) slot
        ∙ Holds-append p.rqes p.ring_entries p.khead d e q rep.room free rep.holds i below;
  }

  rq_enqueue-enqueued :
      (ptr size : ℕ)
      → length q < p.ring_entries
      → rq_enqueue ptr size p
        ≡ ok (
            enqueued
              (record { off = bit_or (sub_size ptr p.area_ptr) p.area_token; len = size % 2 ^ 32 }))
  unfolding rq_enqueue
  rq_enqueue-enqueued ptr size free = simp (
    lt→ltb (rq_nr_queued p) p.ring_entries (omega (arith, queued)),
    lt→ltb (bit_and p.rq_tail (sub_unsigned p.ring_entries 1)) (length p.rqes) (
        omega
          (arith, slot, rep.room, mod-lt (p.khead + length q) {m = p.ring_entries} (omega arith))),
  )

  add_buffer_back-enqueued :
      (ptr size : ℕ) (e : Rqe)
      → length q < p.ring_entries
      → bit_or (sub_size ptr p.area_ptr) p.area_token ≡ e.off
      → size % 2 ^ 32 ≡ e.len
      → add_buffer_back ptr size p ≡ ok (maybe_flush_rq (enqueued e))
  unfolding add_buffer_back
  add_buffer_back-enqueued ptr size e free same_off same_len =
      ap (λ (m : Outcome ZcrxPool). m >>= λ p1. ok (maybe_flush_rq p1))
        (rq_enqueue-enqueued ptr size free)
      ∙ ap (λ (x : ℕ). ok (maybe_flush_rq (enqueued (record { off = x; len = size % 2 ^ 32 }))))
          same_off
      ∙ ap (λ (x : ℕ). ok (maybe_flush_rq (enqueued (record { off = e.off; len = x })))) same_len

-- An offset with the token of its area, and back.
place : (k o t : ℕ) → o < 2 ^ k → bit_and (o + 2 ^ k * t) (2 ^ k - 1) ≡ o
place k o t small =
    bit_and_mask k (o + 2 ^ k * t) ∙ add-mul-mod_self_left o (2 ^ k) t ∙ mod-eq_of_lt small

module _ {d : Rqe} where
  flushed-Queue :
      (b : Bool) {p : ZcrxPool} {q : List Rqe}
      → Queue p d q
      → Queue (if b then flush_rq p else p) d q
  unfolding flush_rq
  flushed-Queue false rep = rep
  flushed-Queue true rep = record {
    log = rep.log;
    cofactor = rep.cofactor;
    is_pow = rep.is_pow;
    splits = rep.splits;
    bounded = rep.bounded;
    room = rep.room;
    head_in = rep.head_in;
    tail_at = rep.tail_at;
    fits = rep.fits;
    holds = rep.holds;
  }

  -- A completion with a result `n` that is not negative, and with an offset `o` of `area_shift` bits in
  -- the area of the pool, gives out a buffer; when that is reset while the refill ring has an
  -- entry free, the ring holds, behind the entries that the kernel has not taken yet, one more, with the
  -- offset and the length of the completion, and the others are as they were. A flush, where one is
  -- due, is only counted.
  pub reset_buffer-zcrx_handle_finish :
      (area_shift t o n : ℕ) {p : ZcrxPool} {q : List Rqe}
      → Queue p d q
      → length q < p.ring_entries
      → p.area_token ≡ 2 ^ area_shift * t
      → o < 2 ^ area_shift
      → o + p.area_token < 2 ^ 64
      → p.area_ptr + o < 2 ^ 64
      → n < 2 ^ 31
      → (p' : ZcrxPool) × (reset_buffer
            (zcrx_handle_finish area_shift (pos n) (o + p.area_token) p)
            p
          ≡ ok (no_buffer, p'))
        × Queue p' d (q ++ record { off = o + p.area_token; len = n } ∷ [])
  unfolding reset_buffer zcrx_handle_finish add_buffer_back maybe_flush_rq
  reset_buffer-zcrx_handle_finish area_shift t o n {p} {q} rep free token small wide inside
        bounded =
      let e : Rqe = record { off = o + p.area_token; len = n } in
      let ptr = add_size p.area_ptr (bit_and (o + p.area_token) (2 ^ area_shift - 1)) in
      let there : bit_and (o + p.area_token) (2 ^ area_shift - 1) ≡ o =
        ap (λ (x : ℕ). bit_and (o + x) (2 ^ area_shift - 1)) token ∙ place area_shift o t small in
      let back : sub_size ptr p.area_ptr ≡ o =
        ap (λ (x : ℕ). sub_size (add_size p.area_ptr x) p.area_ptr) there ∙ omega arith in
      let off : bit_or (sub_size ptr p.area_ptr) p.area_token ≡ o + p.area_token =
        ap (λ (x : ℕ). bit_or x p.area_token) back
        ∙ ap (bit_or o) token
        ∙ bit_or_disjoint area_shift o t small
        ∙ ap (o +◌) (sym token) in
      (
        maybe_flush_rq (enqueued rep e),
        simp (add_buffer_back-enqueued rep ptr n e free off (mod-eq_of_lt (omega arith))),
        flushed-Queue _ (enqueued-Queue rep e free),
      )
