-- ===== src/Launch.antt =====
-- include/condy/detail/op_states.hpp: `OpSenderOperationState`, which prepares a request on the ring or
-- fails at once, and the start of a whole sender, act by act. `R` is the state of liburing's
-- `io_uring` and `S` its pointers to submission entries; the functions of liburing and the prep
-- functions are parameters. The handles and the count of pending works are those of Finish.antt.
pub mod Settle
pub mod Complete
pub mod Linked
pub mod Chain
pub mod Cut
use condy.Prelude.{
  ℕ, Bool, true, false, Option, none, some, List, [], ◌∷◌, if◌then◌else◌, bit_or, bad_access,
  Outcome, ok, abort, check, ◌>>=◌, ◌>>◌,
}
use condy.Prelude.Int.{ℤ, negsuc, is_neg}
use condy.Work.{common, encode_work_ptr}
use condy.Ring.{Ring, maybe_submit, reserve_space}
use condy.Finish.{Cqe, Handle, Loop, pend_work, put, handle}
use condy.Senders.{Act, reserve, prepare, receive}

-- The ring and the works of the current runtime.
pub record Launch (R B : Type 0) : Type 0 where
  pub ring : Ring R
  pub loop : Loop B

-- The prep function, the address of the finish handle, and what its stop token says.
pub record Operation (R S : Type 0) : Type 0 where
  pub prep_func : Ring R → Option S × Ring R
  pub address : ℕ
  pub stop_requested : Bool
  pub stop_possible : Bool

-- `-EINVAL` and `-ECANCELED`
abbrev pub einval : ℤ
einval = negsuc 21

abbrev pub ecanceled : ℤ
ecanceled = negsuc 124

-- The zeroed completion of `fail_`, with its result.
abbrev pub failed_cqe : ℤ → Cqe
failed_cqe res = record { user_data = 0; res = res; flag_more = false; flag_notif = false }

module _ {R B : Type 0} (cqe_handler : Cqe → B) where
  -- `fail_`
  unfoldable pub fail : ℤ → ℕ → Launch R B → Outcome (Launch R B)
  fail res p s = do
    check (is_neg res)
    done ← handle cqe_handler (failed_cqe res) (s.loop.handles p)
    ok (record s { loop = put p done.1 s.loop })

module _ {R S B : Type 0} where
  -- `maybe_set_cancel`
  unfoldable pub maybe_set_cancel : Operation R S → Launch R B → Launch R B
  maybe_set_cancel o s =
      if o.stop_possible
      then record s {
        loop = put o.address (record (s.loop.handles o.address) { stop_callback = true }) s.loop;
      }
      else s

module _ {R S : Type 0} (io_uring_sqe_flags : S → R → ℕ)
    (io_uring_sqe_set_flags io_uring_sqe_set_data64 : S → ℕ → R → R) where
  -- What is written to the entry: its flags with those of `start`, and the work.
  unfoldable pub write_sqe : ℕ → ℕ → S → R → R
  write_sqe flags work sqe r =
      io_uring_sqe_set_data64 sqe work
        (io_uring_sqe_set_flags sqe (bit_or (io_uring_sqe_flags sqe r) flags) r)

module _ {R S B : Type 0} (io_uring_submit : R → R) (space_left : R → ℕ) (write : ℕ → ℕ → S → R → R)
    (cqe_handler : Cqe → B) (has_runtime : Bool) where
  -- `start` once there is an entry.
  unfoldable pub start_sqe : ℕ → Operation R S → S → Launch R B → Outcome (Launch R B)
  unfolding maybe_set_cancel
  start_sqe flags o sqe s = do
    let r = s.ring
    work ← encode_work_ptr o.address common
    ok (
        maybe_set_cancel o (record {
          ring = maybe_submit io_uring_submit (record r { ring = write flags work sqe r.ring });
          loop = pend_work s.loop;
        }))

  abbrev pub with_ring : Ring R → Launch R B → Launch R B
  with_ring r s = record s { ring = r }

  -- `OpSenderOperationState::start`
  unfoldable pub start_op : ℕ → Operation R S → Launch R B → Outcome (Launch R B)
  unfolding start_sqe fail
  start_op flags o s =
      if has_runtime
      then (if o.stop_requested
          then fail cqe_handler ecanceled o.address s
          else let (entry, r) = o.prep_func s.ring in
            elim entry [
              | some sqe ↦ start_sqe flags o sqe (with_ring r s)
              | none ↦ fail cqe_handler einval o.address (with_ring r s)
            ])
      else fail cqe_handler einval o.address s

  -- One act of the start of a sender. Linked operations look for the ring of the current runtime
  -- without a test for null; the call of a receiver does not touch the launch.
  unfoldable pub perform_act : (ℕ → Operation R S) → Act → Launch R B → Outcome (Launch R B)
  unfolding start_op
  perform_act ops (reserve n) s =
      if has_runtime
      then (do r ← reserve_space io_uring_submit space_left 2 n s.ring; ok (with_ring r s))
      else abort bad_access
  perform_act ops (prepare a flags) s = start_op flags (ops a) s
  perform_act ops receive s = ok s

  unfoldable pub perform : (ℕ → Operation R S) → List Act → Launch R B → Outcome (Launch R B)
  unfolding perform_act
  perform ops [] s = ok s
  perform ops (act ∷ acts) s = do s1 ← perform_act ops act s; perform ops acts s1
