-- ===== src/Async.antt =====
-- include/condy/detail/async_operations.hpp: how an operation prepares its submission entry. `R` is the
-- state of liburing's `io_uring` and `S` its pointers to entries; an entry is read and changed through
-- two parameters, and so are the `io_uring_prep_` functions (`func`, with its arguments) and the
-- flags of the kernel's header.
pub mod Entry
use condy.Prelude.{ℕ, ◌%◌, ◌^◌, Bool, true, false, Option, none, some, if◌then◌else◌, bit_or}
use condy.Ring.{Ring}
use condy.Finish.{Kind, op, multi_shot, zero_copy}
use condy.Senders.{Sender, flag}

-- The fields of `io_uring_sqe` that the library writes; `rest` is what only liburing writes.
pub record Sqe (X : Type 0) : Type 0 where
  pub flags : ℕ
  pub ioprio : ℕ
  pub buf_group : ℕ
  pub buf_index : ℕ
  pub rw_flags : ℕ
  pub zcrx_ifq_idx : ℕ
  pub user_data : ℕ
  pub rest : X

-- `int` or `FixedFd`
pub data Fd : Type 0 where
  plain fixed : ℕ → Fd

unfoldable pub unwrap_fixed : Fd → ℕ
unwrap_fixed (plain fd) = fd
unwrap_fixed (fixed fd) = fd

-- `maybe_flag_fixed_fd`
unfoldable pub maybe_flag_fixed_fd : ℕ → Sender → Fd → Sender
unfolding flag
maybe_flag_fixed_fd fixed_file s (plain fd) = s
maybe_flag_fixed_fd fixed_file s (fixed fd) = flag fixed_file s

module _ {X : Type 0} where
  -- What `make_select_buffer_op_awaiter` adds to an entry.
  unfoldable pub select_buffer : ℕ → ℕ → Sqe X → Sqe X
  select_buffer buffer_select bgid e = record e {
    flags = bit_or e.flags buffer_select;
    buf_group = bgid;
  }

  -- What `make_bundle_select_buffer_op_awaiter` adds to it further.
  unfoldable pub bundle : ℕ → Sqe X → Sqe X
  bundle recvsend_bundle e = record e { ioprio = bit_or e.ioprio recvsend_bundle }

  -- `prep_send_fixed`, `prep_recv_fixed`, `prep_sendto_fixed` and `prep_sendto_zc_fixed`, after the
  -- function they call; `buf_index` has 16 bits.
  unfoldable pub prep_fixed_buf : ℕ → ℕ → (Sqe X → Sqe X) → Sqe X → Sqe X
  prep_fixed_buf recvsend_fixed_buf index func e =
      let e1 = func e in
      record e1 { ioprio = bit_or e1.ioprio recvsend_fixed_buf; buf_index = index % 2 ^ 16 }

  -- `prep_recv_zc_multishot`, after `io_uring_prep_rw`.
  unfoldable pub prep_recv_zc_multishot : ℕ → ℕ → (Sqe X → Sqe X) → Sqe X → Sqe X
  prep_recv_zc_multishot recv_multishot zcrx_id func e =
      let e1 = func e in
      record e1 { ioprio = bit_or e1.ioprio recv_multishot; zcrx_ifq_idx = zcrx_id }

  -- `prep_read`, `prep_read_fixed`, `prep_write` and `prep_write_fixed`, after the function they call.
  unfoldable pub prep_rw : ℕ → (Sqe X → Sqe X) → Sqe X → Sqe X
  prep_rw rw func e = record (func e) { rw_flags = rw }

-- An operation that was made: how it prepares its entry, the finish handle it gets, and the buffers
-- that its CQE handler selects from, if any.
pub record Made (R S : Type 0) : Type 0 where
  pub prep_func : Ring R → Option S × Ring R
  pub kind : Kind
  pub buffers : Option ℕ

module _ {R S X : Type 0} (change : S → (Sqe X → Sqe X) → R → R) where
  abbrev pub fill : (Sqe X → Sqe X) → S × Ring R → Option S × Ring R
  fill f (sqe, r) = (some sqe, record r { ring = change sqe f r.ring })

  module _ (get_sqe : Ring R → S × Ring R) (func : Sqe X → Sqe X) where
    unfoldable pub make_op_awaiter : Made R S
    make_op_awaiter = record { prep_func = λ r. fill func (get_sqe r); kind = op; buffers = none }

    unfoldable pub make_multishot_op_awaiter : Made R S
    make_multishot_op_awaiter = record {
      prep_func = λ r. fill func (get_sqe r);
      kind = multi_shot;
      buffers = none;
    }

    unfoldable pub make_zero_copy_op_awaiter : Made R S
    make_zero_copy_op_awaiter = record {
      prep_func = λ r. fill func (get_sqe r);
      kind = zero_copy;
      buffers = none;
    }

    module _ (buffer_select bgid br : ℕ) where
      unfoldable pub make_select_buffer_op_awaiter : Made R S
      unfolding select_buffer
      make_select_buffer_op_awaiter = record {
        prep_func = λ r. fill (λ e. select_buffer buffer_select bgid (func e)) (get_sqe r);
        kind = op;
        buffers = some br;
      }

      unfoldable pub make_multishot_select_buffer_op_awaiter : Made R S
      unfolding select_buffer
      make_multishot_select_buffer_op_awaiter = record {
        prep_func = λ r. fill (λ e. select_buffer buffer_select bgid (func e)) (get_sqe r);
        kind = multi_shot;
        buffers = some br;
      }

      unfoldable pub make_bundle_select_buffer_op_awaiter : ℕ → Made R S
      unfolding select_buffer bundle
      make_bundle_select_buffer_op_awaiter recvsend_bundle = record {
        prep_func = λ r.
            fill (λ e. bundle recvsend_bundle (select_buffer buffer_select bgid (func e)))
              (get_sqe r);
        kind = op;
        buffers = some br;
      }

      unfoldable pub make_multishot_bundle_select_buffer_op_awaiter : ℕ → Made R S
      unfolding select_buffer bundle
      make_multishot_bundle_select_buffer_op_awaiter recvsend_bundle = record {
        prep_func = λ r.
            fill (λ e. bundle recvsend_bundle (select_buffer buffer_select bgid (func e)))
              (get_sqe r);
        kind = multi_shot;
        buffers = some br;
      }

  -- `get_sqe128`, which has no entry on a ring without wide entries, stands for itself.
  unfoldable pub make_op_awaiter128 : (Ring R → Option S × Ring R) → (Sqe X → Sqe X) → Made R S
  make_op_awaiter128 get_sqe128 func = record {
    prep_func = λ r.
        let (entry, r1) = get_sqe128 r in
        elim entry [ some sqe ↦ fill func (sqe, r1) | none ↦ (none, r1) ];
    kind = op;
    buffers = none;
  }
