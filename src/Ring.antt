-- ===== src/Ring.antt =====
-- include/condy/detail/ring.hpp: when `Ring` submits. `R` is the state of liburing's `io_uring`;
-- `io_uring_submit`, `io_uring_sq_space_left` and `io_uring_get_sqe` are parameters.
pub mod Batch
use condy.Prelude.{
  ℕ, zero, suc, ◌+◌, Bool, true, false, Option, none, some, leb, if◌then◌else◌, out_of_fuel,
  Outcome, ok, abort,
}
use condy.Prelude.Words.{add_size}

pub record Ring (R : Type 0) : Type 0 where
  pub ring : R
  pub submit_batch : ℕ
  pub maybe_submit_count : ℕ

module _ {R : Type 0} (io_uring_submit : R → R) where
  unfoldable pub submit : Ring R → Ring R
  submit r = record r { maybe_submit_count = 0; ring = io_uring_submit r.ring }

  unfoldable pub maybe_submit : Ring R → Ring R
  unfolding submit
  maybe_submit r =
      let r1 = record r { maybe_submit_count = add_size r.maybe_submit_count 1 } in
      if leb r1.submit_batch r1.maybe_submit_count then submit r1 else r1

  module _ (space_left : R → ℕ) where
    -- The first argument bounds the rounds of the loop.
    unfoldable pub reserve_space : ℕ → ℕ → Ring R → Outcome (Ring R)
    unfolding submit
    reserve_space zero n r = abort out_of_fuel
    reserve_space (suc k) n r =
        let rest = reserve_space k n (submit r) in if leb n (space_left r.ring) then ok r else rest

  module _ {S : Type 0} (get_sqe : R → Option S × R) where
    -- `get_sqe_` of a ring without a submission thread.
    unfoldable pub get_sqe_loop : ℕ → Ring R → Outcome (S × Ring R)
    unfolding submit
    get_sqe_loop zero r = abort out_of_fuel
    get_sqe_loop (suc k) r =
        let rest = get_sqe_loop k (submit (record r { ring = (get_sqe r.ring).1 })) in
        elim (get_sqe r.ring).0 [
          | some s ↦ ok (s, record r { ring = (get_sqe r.ring).1 })
          | none ↦ rest
        ]
