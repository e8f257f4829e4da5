-- ===== src/Requests/Commands.antt =====
-- include/condy/async_operations.hpp: the commands of a driver, and receipt into a zero-copy pool. A
-- command's entry is configured by `cmd_func`, and its completion is read by `cqe_handler`, which belongs to the
-- finish handle and is left out. With the operation stands the descriptor to mark.
use condy.Prelude.{ℕ, Option, none, some}
use condy.Ring.{Ring}
use condy.Finish.{op, multi_shot}
use condy.Async.{
  Sqe, Fd, plain, Made, fill, unwrap_fixed, make_op_awaiter128, prep_recv_zc_multishot,
}

module _ {R S X : Type 0} (change : S → (Sqe X → Sqe X) → R → R) where
  module _ (get_sqe : Ring R → S × Ring R) (io_uring_prep_uring_cmd : ℕ → ℕ → Sqe X → Sqe X)
      (cmd_op : ℕ) (fd : Fd) (cmd_func : Sqe X → Sqe X) where
    unfoldable pub async_uring_cmd : Made R S × Option Fd
    unfolding unwrap_fixed
    async_uring_cmd = (
      record {
        prep_func = λ r.
            fill change (λ e. cmd_func (io_uring_prep_uring_cmd cmd_op (unwrap_fixed fd) e))
              (get_sqe r);
        kind = op;
        buffers = none;
      },
      some fd,
    )

    unfoldable pub async_uring_cmd_multishot : Made R S × Option Fd
    unfolding unwrap_fixed
    async_uring_cmd_multishot = (
      record {
        prep_func = λ r.
            fill change (λ e. cmd_func (io_uring_prep_uring_cmd cmd_op (unwrap_fixed fd) e))
              (get_sqe r);
        kind = multi_shot;
        buffers = none;
      },
      some fd,
    )

  -- `get_sqe128` gives no entry on a ring without wide entries; then nothing is written.
  unfoldable pub async_uring_cmd128 :
      (Ring R → Option S × Ring R)
      → (ℕ → ℕ → Sqe X → Sqe X)
      → ℕ
      → Fd
      → (Sqe X → Sqe X)
      → Made R S × Option Fd
  unfolding unwrap_fixed make_op_awaiter128
  async_uring_cmd128 get_sqe128 io_uring_prep_uring_cmd128 cmd_op fd cmd_func = (
    make_op_awaiter128 change get_sqe128
        (λ e. cmd_func (io_uring_prep_uring_cmd128 cmd_op (unwrap_fixed fd) e)),
    some fd,
  )

  unfoldable pub async_nop128 :
      (Ring R → Option S × Ring R) → (Sqe X → Sqe X) → Made R S × Option Fd
  unfolding make_op_awaiter128
  async_nop128 get_sqe128 io_uring_prep_nop128 =
      (make_op_awaiter128 change get_sqe128 io_uring_prep_nop128, none)

  -- The overload of `async_recv_multishot` for a `ZeroCopyRxBufferPool`, with the pool's address and
  -- its id. It does not unwrap the descriptor, which is a plain one therefore.
  unfoldable pub async_recv_multishot_zcrx :
      (Ring R → S × Ring R) → ℕ → (ℕ → Sqe X → Sqe X) → ℕ → ℕ → ℕ → Made R S × Option Fd
  unfolding prep_recv_zc_multishot
  async_recv_multishot_zcrx get_sqe recv_multishot io_uring_prep_rw sockfd pool zcrx_id = (
    record {
      prep_func = λ r.
          fill change (prep_recv_zc_multishot recv_multishot zcrx_id (io_uring_prep_rw sockfd))
            (get_sqe r);
      kind = multi_shot;
      buffers = some pool;
    },
    some (plain sockfd),
  )
