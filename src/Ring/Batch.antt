-- ===== src/Ring/Batch.antt =====
-- include/condy/detail/ring.hpp: requests are not held back longer than the batch, and room is made.
use condy.Prelude.{
  ℕ, ◌+◌, ◌<◌, ◌≤◌, ◌^◌, ◌≡◌, refl, ap, ◌⊎◌, inl, inr, true, false, leb, Bool-cases, zero, suc,
  out_of_fuel, ok, abort, arith,
}
use condy.Prelude.Words.{add_size}
use native.Mathlib.Nat.{mod-eq_of_lt}
use native.Mathlib.Decide.{dec_lt}
use condy.Ring.{Ring, submit, maybe_submit, reserve_space}

le_of_leb : (a b : ℕ) → leb a b ≡ true → a ≤ b
le_of_leb a b h = ground arith

lt_of_leb : (a b : ℕ) → leb a b ≡ false → b < a
lt_of_leb a b h = ground arith

lt_to_leb : (a b : ℕ) → b < a → leb a b ≡ false
lt_to_leb a b h = ground arith

leb_of_le : (a b : ℕ) → a ≤ b → leb a b ≡ true
leb_of_le a b h = ground arith

module _ {R : Type 0} (io_uring_submit : R → R) where
  -- With a positive batch below `2 ^ 64` and fewer requests counted than the batch, a further request
  -- either completes the batch, which is submitted and counted anew from 0, or is counted, and then
  -- still fewer than the batch are held back.
  pub maybe_submit_lem :
      (r : Ring R)
      → r.submit_batch < 2 ^ 64
      → r.maybe_submit_count < r.submit_batch
      → (r.maybe_submit_count + 1 ≡ r.submit_batch)
          × (maybe_submit io_uring_submit r
              ≡ record r { maybe_submit_count = 0; ring = io_uring_submit r.ring })
        ⊎ (r.maybe_submit_count + 1 < r.submit_batch)
          × (maybe_submit io_uring_submit r
              ≡ record r { maybe_submit_count = r.maybe_submit_count + 1 })
  unfolding maybe_submit submit
  maybe_submit_lem r small held = elim (Bool-cases (leb r.submit_batch next)) [
    | inl e ↦ inl (omega (arith, exact, le_of_leb r.submit_batch next e), simp e)
    | inr e ↦ inr (
      omega (arith, exact, lt_of_leb r.submit_batch next e),
      simp e (ap (λ (k : ℕ). record r { maybe_submit_count = k }) exact),
    )
  ]
    where
      next : ℕ
      next = add_size r.maybe_submit_count 1

      exact : add_size r.maybe_submit_count 1 ≡ r.maybe_submit_count + 1
      exact = mod-eq_of_lt (omega arith)

  -- One submission at most, where it leaves room enough.
  pub reserve_space_once :
      (space_left : R → ℕ) (n : ℕ) (r : Ring R)
      → n ≤ space_left (io_uring_submit r.ring)
      → (r1 : Ring R) × (reserve_space io_uring_submit space_left 2 n r ≡ ok r1)
        × (n ≤ space_left r1.ring)
        × ((n ≤ space_left r.ring) × (r1 ≡ r)
            ⊎ (space_left r.ring < n) × (r1 ≡ submit io_uring_submit r))
  unfolding reserve_space submit
  reserve_space_once space_left n r roomy = elim (Bool-cases (leb n (space_left r.ring))) [
    | inl e ↦ let h = le_of_leb n (space_left r.ring) e in (r, simp e, h, inl (h, refl))
    | inr e ↦ (
      submit io_uring_submit r,
      simp (e, leb_of_le n (space_left (io_uring_submit r.ring)) roomy),
      roomy,
      inr (lt_of_leb n (space_left r.ring) e, refl),
    )
  ]

  -- So many submissions, one after another.
  abbrev pub submits : ℕ → Ring R → Ring R
  submits zero r = r
  submits (suc k) r = submits k (submit io_uring_submit r)

  module _ (space_left : R → ℕ) (n : ℕ) where
    -- `k` is the least number of submissions that leave room for `n` requests.
    abbrev pub IsLeast : ℕ → Ring R → Type 0
    IsLeast k r =
        (n ≤ space_left (submits k r).ring) × ((j : ℕ) → j < k → space_left (submits j r).ring < n)

    reserve_space-IsLeast :
        (k m : ℕ) (r : Ring R)
        → k < m
        → IsLeast k r
        → reserve_space io_uring_submit space_left m n r ≡ ok (submits k r)
    unfolding reserve_space
    reserve_space-IsLeast k zero r less h = absurd (omega arith)
    reserve_space-IsLeast zero (suc m) r less (room, _) =
        simp (leb_of_le n (space_left r.ring) room)
    reserve_space-IsLeast (suc k) (suc m) r less (room, short) =
        simp (lt_to_leb n (space_left r.ring) (short 0 (omega arith))) (
          reserve_space-IsLeast k m (submit io_uring_submit r) (omega arith)
            (room, λ j lower. short (suc j) (omega arith)))

    reserve_space-short :
        (m : ℕ) (r : Ring R)
        → ((j : ℕ) → j < m → space_left (submits j r).ring < n)
        → reserve_space io_uring_submit space_left m n r ≡ abort out_of_fuel
    unfolding reserve_space
    reserve_space-short zero r short = refl
    reserve_space-short (suc m) r short =
        simp (lt_to_leb n (space_left r.ring) (short 0 (omega arith))) (
          reserve_space-short m (submit io_uring_submit r) (λ j lower. short (suc j) (omega arith)))

    -- How far `m` rounds come: the least number of submissions is found, or none is below `m`.
    search_room :
        (m : ℕ) (r : Ring R)
        → ((k : ℕ) × (k < m) × IsLeast k r) ⊎ ((j : ℕ) → j < m → space_left (submits j r).ring < n)
    search_room zero r = inr (λ j less. absurd (omega arith))
    search_room (suc m) r = elim (search_room m r) [
      | inl (k, less, h) ↦ inl (k, omega arith, h)
      | inr short ↦ elim (dec_lt (space_left (submits m r).ring) n) [
        | no room ↦ inl (m, omega arith, (omega arith, short))
        | yes still ↦ inr (λ j less. elim (dec_lt j m) [
          | yes lower ↦ short j lower
          | no last ↦
              let same : j ≡ m = omega arith in
              omega (arith, still, ap (λ (i : ℕ). space_left (submits i r).ring) same)
        ])
      ]
    ]

    -- In `m` rounds `reserve_space n` either comes to its end, after the least number of submissions,
    -- below `m`, that leaves room for `n` requests, with none if there is room already; or it
    -- submits in every round and is not at its end, and then none of the first `m` rounds had room.
    pub reserve_space_lem :
        (m : ℕ) (r : Ring R)
        → ((k : ℕ) × (k < m)
            × IsLeast k r
            × (reserve_space io_uring_submit space_left m n r ≡ ok (submits k r)))
          ⊎ ((j : ℕ) → j < m → space_left (submits j r).ring < n)
            × (reserve_space io_uring_submit space_left m n r ≡ abort out_of_fuel)
    reserve_space_lem m r = elim (search_room m r) [
      | inl (k, less, h) ↦ inl (k, less, h, reserve_space-IsLeast k m r less h)
      | inr short ↦ inr (short, reserve_space-short m r short)
    ]
