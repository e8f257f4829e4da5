-- ===== src/Requests/Entry.antt =====
-- include/condy/async_operations.hpp, down to the submission entry: every way of making an operation, with
-- or without a descriptor to mark.
use condy.Prelude.{ℕ, ◌%◌, ◌≡◌, refl, Bool, false, Option, none, some, List, bit_or}
use condy.Ring.{Ring}
use condy.Finish.{Cqe}
use condy.Senders.{op, start}
use condy.Launch.{Launch, Operation}
use condy.Async.{
  Sqe, Fd, fill, make_op_awaiter, make_multishot_op_awaiter, make_zero_copy_op_awaiter,
  make_select_buffer_op_awaiter, make_multishot_select_buffer_op_awaiter,
  make_bundle_select_buffer_op_awaiter, make_multishot_bundle_select_buffer_op_awaiter,
  select_buffer, bundle,
}
use condy.Async.Entry.{with_fd, connect_made, Enters, perform_one, start_filled, start_on_file}
use condy.Requests.{
  Prep, perform_call, AsyncOp, Making, once, shots, zero_copied, selected, selected_shots, bundled,
  bundled_shots, BufferGroup, flag_file, make,
}

-- The flags that an operation is started with.
abbrev pub with_file : ℕ → ℕ → Option Fd → ℕ
with_file fixed_file flags none = flags
with_file fixed_file flags (some fd) = with_fd fixed_file flags fd

module _ {X : Type 0} (buffer_select recvsend_bundle : ℕ) where
  abbrev pub with_group : BufferGroup → Sqe X → Sqe X
  with_group b e = record e { flags = bit_or e.flags buffer_select; buf_group = b.bgid }

  abbrev pub with_bundle : BufferGroup → Sqe X → Sqe X
  with_bundle b e = record e {
    flags = bit_or e.flags buffer_select;
    buf_group = b.bgid;
    ioprio = bit_or e.ioprio recvsend_bundle;
  }

  -- What the way of making an operation adds to its entry.
  abbrev pub with_making : Making → Sqe X → Sqe X
  with_making once e = e
  with_making shots e = e
  with_making zero_copied e = e
  with_making (selected b) e = with_group b e
  with_making (selected_shots b) e = with_group b e
  with_making (bundled b) e = with_bundle b e
  with_making (bundled_shots b) e = with_bundle b e

module _ {R S X B : Type 0} (io_uring_submit : R → R) (space_left : R → ℕ) (entry : S → R → Sqe X)
    (change : S → (Sqe X → Sqe X) → R → R)
    (seen : (s : S) (f : Sqe X → Sqe X) (r : R) → entry s (change s f r) ≡ f (entry s r))
    (cqe_handler : Cqe → B) (get_sqe : Ring R → S × Ring R)
    (buffer_select recvsend_bundle : ℕ) where
  make-prep_func :
      (m : Making) (f : Sqe X → Sqe X) (r : Ring R)
      → (make change get_sqe buffer_select recvsend_bundle m f).prep_func r
        ≡ fill change (λ e. with_making buffer_select recvsend_bundle m (f e)) (get_sqe r)
  unfolding make make_op_awaiter make_multishot_op_awaiter make_zero_copy_op_awaiter
      make_select_buffer_op_awaiter make_multishot_select_buffer_op_awaiter
      make_bundle_select_buffer_op_awaiter make_multishot_bundle_select_buffer_op_awaiter
      select_buffer bundle
  make-prep_func once f r = refl
  make-prep_func shots f r = refl
  make-prep_func zero_copied f r = refl
  make-prep_func (selected b) f r = refl
  make-prep_func (selected_shots b) f r = refl
  make-prep_func (bundled b) f r = refl
  make-prep_func (bundled_shots b) f r = refl

  start_marked :
      (fixed_file flags a : ℕ) (file : Option Fd) (f : Sqe X → Sqe X) (o : Operation R S)
      (s : Launch R B)
      → o.address % 8 ≡ 0
      → o.stop_requested ≡ false
      → o.prep_func s.ring ≡ fill change f (get_sqe s.ring)
      → let (sqe, r) = get_sqe s.ring in
        let e = f (entry sqe r.ring) in
        Enters io_uring_submit space_left entry change seen cqe_handler get_sqe
          (perform_one io_uring_submit space_left entry change seen cqe_handler get_sqe o
            (start flags (flag_file fixed_file (op a) file))
            s)
          sqe
          r
          (record e {
            flags = bit_or e.flags (with_file fixed_file flags file);
            user_data = o.address;
          })
  unfolding flag_file start
  start_marked fixed_file flags a none f o s =
      start_filled io_uring_submit space_left entry change seen cqe_handler get_sqe a flags f o s
  start_marked fixed_file flags a (some fd) f o s =
      start_on_file io_uring_submit space_left entry change seen cqe_handler get_sqe fixed_file
        flags a fd f o s

  -- An operation that was asked for, whose finish handle stands at a multiple of 8, is started with
  -- `flags`: it takes one entry and counts one request. The entry holds what the call of its prep function left;
  -- with the flag and the group of the buffers it selects from, if it selects, and the mark of a
  -- bundle where that is asked for; with the flags of the start, and `IOSQE_FIXED_FILE` if it was given a
  -- fixed descriptor to mark; and with the address of the handle.
  pub start-Enters :
      (func : Prep → List ℕ → Sqe X → Sqe X) (set_addr : ℕ → ℕ → Sqe X → Sqe X)
      (recvsend_fixed_buf fixed_file flags a : ℕ) (t : AsyncOp) (address : ℕ) (possible : Bool)
      (s : Launch R B)
      → address % 8 ≡ 0
      → let (sqe, r) = get_sqe s.ring in
        let f = perform_call func set_addr recvsend_fixed_buf t.call in
        let e = with_making buffer_select recvsend_bundle t.making (f (entry sqe r.ring)) in
        Enters io_uring_submit space_left entry change seen cqe_handler get_sqe
          (perform_one io_uring_submit space_left entry change seen cqe_handler get_sqe
            (connect_made
              (make change get_sqe buffer_select recvsend_bundle t.making f)
              address
              possible)
            (start flags (flag_file fixed_file (op a) t.file))
            s)
          sqe
          r
          (record e {
            flags = bit_or e.flags (with_file fixed_file flags t.file);
            user_data = address;
          })
  start-Enters func set_addr recvsend_fixed_buf fixed_file flags a t address possible s aligned =
      let f = perform_call func set_addr recvsend_fixed_buf t.call in
      let g : Sqe X → Sqe X = λ e. with_making buffer_select recvsend_bundle t.making (f e) in
      start_marked fixed_file flags a t.file g
        (connect_made (make change get_sqe buffer_select recvsend_bundle t.making f) address
          possible)
        s aligned refl (make-prep_func t.making f s.ring)
