-- ===== src/Requests.antt =====
-- include/condy/async_operations.hpp: the public functions that ask for an operation. A function of liburing
-- stands by its name; an argument stands by its machine word, and so do the constants of the system's
-- headers. The function that is called for the shots of an operation, or when its buffers are
-- free, belongs to the finish handle and is left out. Requests/Commands.antt has the commands of a driver.
pub mod Files
pub mod Paths
pub mod Sockets
pub mod Commands
pub mod Entry
pub mod Marks
use condy.Prelude.{ℕ, ◌%◌, ◌^◌, Option, none, some, List, [], ◌∷◌, bit_or}
use condy.Ring.{Ring}
use condy.Senders.{Sender}
use condy.Async.{
  Sqe, Fd, plain, fixed, maybe_flag_fixed_fd, prep_rw, prep_fixed_buf, select_buffer, bundle, Made,
  make_op_awaiter, make_multishot_op_awaiter, make_zero_copy_op_awaiter,
  make_select_buffer_op_awaiter, make_multishot_select_buffer_op_awaiter,
  make_bundle_select_buffer_op_awaiter, make_multishot_bundle_select_buffer_op_awaiter,
}

-- `BufferBase`, `FixedBuffer`, and a provided buffer queue or pool.
pub record Buffer : Type 0 where
  pub address : ℕ
  pub size : ℕ

pub record FixedBuffer {ℓ} (T : Type ℓ) : Type ℓ where
  pub value : T
  pub buf_index : ℕ

pub record BufferGroup : Type 0 where
  pub address : ℕ
  pub bgid : ℕ

-- The functions `io_uring_prep_` of liburing that are asked for.
pub data Prep : Type 0 where
  io_uring_prep_splice io_uring_prep_tee io_uring_prep_readv2 io_uring_prep_readv_fixed
        io_uring_prep_writev2 io_uring_prep_writev_fixed io_uring_prep_recvmsg
        io_uring_prep_recvmsg_multishot io_uring_prep_sendmsg io_uring_prep_sendmsg_zc
        io_uring_prep_sendmsg_zc_fixed io_uring_prep_fsync io_uring_prep_nop io_uring_prep_timeout
        io_uring_prep_accept io_uring_prep_accept_direct io_uring_prep_multishot_accept
        io_uring_prep_multishot_accept_direct io_uring_prep_cancel_fd io_uring_prep_link_timeout
        io_uring_prep_connect io_uring_prep_files_update io_uring_prep_fallocate
        io_uring_prep_openat io_uring_prep_openat_direct io_uring_prep_close
        io_uring_prep_close_direct io_uring_prep_read io_uring_prep_read_multishot
        io_uring_prep_statx io_uring_prep_fadvise io_uring_prep_fadvise64 io_uring_prep_madvise
        io_uring_prep_madvise64 io_uring_prep_send io_uring_prep_send_zc io_uring_prep_send_zc_fixed
        io_uring_prep_recv io_uring_prep_recv_multishot io_uring_prep_openat2
        io_uring_prep_openat2_direct io_uring_prep_shutdown io_uring_prep_unlinkat
        io_uring_prep_renameat io_uring_prep_sync_file_range io_uring_prep_mkdirat
        io_uring_prep_symlinkat io_uring_prep_linkat io_uring_prep_getxattr io_uring_prep_setxattr
        io_uring_prep_fgetxattr io_uring_prep_fsetxattr io_uring_prep_socket
        io_uring_prep_socket_direct io_uring_prep_cmd_sock io_uring_prep_cmd_getsockname
        io_uring_prep_waitid io_uring_prep_futex_wake io_uring_prep_futex_wait
        io_uring_prep_futex_waitv io_uring_prep_fixed_fd_install io_uring_prep_ftruncate
        io_uring_prep_cmd_discard io_uring_prep_bind io_uring_prep_listen io_uring_prep_epoll_ctl
        io_uring_prep_epoll_wait io_uring_prep_pipe io_uring_prep_pipe_direct
        io_uring_prep_read_fixed io_uring_prep_write io_uring_prep_write_fixed :
      Prep

-- A call of one of them, and what the functions `prep_` do after it: `io_uring_prep_send_set_addr`, and
-- writes to the entry.
pub data PrepCall : Type 0 where
  liburing : Prep → List ℕ → PrepCall
  send_set_addr : ℕ → ℕ → PrepCall → PrepCall
  set_fixed_buf : ℕ → PrepCall → PrepCall
  set_rw_flags : ℕ → PrepCall → PrepCall

unfoldable pub prep_send_fixed : ℕ → ℕ → ℕ → ℕ → ℕ → PrepCall
prep_send_fixed sockfd buf len flags buf_index =
    set_fixed_buf buf_index (liburing io_uring_prep_send (sockfd ∷ buf ∷ len ∷ flags ∷ []))

unfoldable pub prep_recv_fixed : ℕ → ℕ → ℕ → ℕ → ℕ → PrepCall
prep_recv_fixed sockfd buf len flags buf_index =
    set_fixed_buf buf_index (liburing io_uring_prep_recv (sockfd ∷ buf ∷ len ∷ flags ∷ []))

unfoldable pub prep_sendto : ℕ → ℕ → ℕ → ℕ → ℕ → ℕ → PrepCall
prep_sendto sockfd buf len flags addr addrlen =
    send_set_addr addr addrlen (liburing io_uring_prep_send (sockfd ∷ buf ∷ len ∷ flags ∷ []))

unfoldable pub prep_sendto_fixed : ℕ → ℕ → ℕ → ℕ → ℕ → ℕ → ℕ → PrepCall
unfolding prep_sendto
prep_sendto_fixed sockfd buf len flags addr addrlen buf_index =
    set_fixed_buf buf_index (prep_sendto sockfd buf len flags addr addrlen)

unfoldable pub prep_sendto_zc : ℕ → ℕ → ℕ → ℕ → ℕ → ℕ → ℕ → PrepCall
prep_sendto_zc sockfd buf len flags addr addrlen zc_flags =
    send_set_addr addr addrlen
      (liburing io_uring_prep_send_zc (sockfd ∷ buf ∷ len ∷ flags ∷ zc_flags ∷ []))

unfoldable pub prep_sendto_zc_fixed : ℕ → ℕ → ℕ → ℕ → ℕ → ℕ → ℕ → ℕ → PrepCall
unfolding prep_sendto_zc
prep_sendto_zc_fixed sockfd buf len flags addr addrlen zc_flags buf_index =
    set_fixed_buf buf_index (prep_sendto_zc sockfd buf len flags addr addrlen zc_flags)

-- `nbytes` is an `unsigned`, to which the size of a buffer is cut.
unfoldable pub prep_read : ℕ → ℕ → ℕ → ℕ → ℕ → PrepCall
prep_read fd buf nbytes offset flags =
    set_rw_flags flags (liburing io_uring_prep_read (fd ∷ buf ∷ nbytes % 2 ^ 32 ∷ offset ∷ []))

unfoldable pub prep_read_fixed : ℕ → ℕ → ℕ → ℕ → ℕ → ℕ → PrepCall
prep_read_fixed fd buf nbytes offset flags buf_index =
    set_rw_flags flags
      (liburing io_uring_prep_read_fixed (fd ∷ buf ∷ nbytes % 2 ^ 32 ∷ offset ∷ buf_index ∷ []))

unfoldable pub prep_write : ℕ → ℕ → ℕ → ℕ → ℕ → PrepCall
prep_write fd buf nbytes offset flags =
    set_rw_flags flags (liburing io_uring_prep_write (fd ∷ buf ∷ nbytes % 2 ^ 32 ∷ offset ∷ []))

unfoldable pub prep_write_fixed : ℕ → ℕ → ℕ → ℕ → ℕ → ℕ → PrepCall
prep_write_fixed fd buf nbytes offset flags buf_index =
    set_rw_flags flags
      (liburing io_uring_prep_write_fixed (fd ∷ buf ∷ nbytes % 2 ^ 32 ∷ offset ∷ buf_index ∷ []))

-- Which of the `make_` functions is called.
pub data Making : Type 0 where
  once shots zero_copied : Making
  selected selected_shots bundled bundled_shots : BufferGroup → Making

-- An operation that is asked for, with the descriptor that is given to `maybe_flag_fixed_fd`, if any.
pub record AsyncOp : Type 0 where
  pub making : Making
  pub call : PrepCall
  pub file : Option Fd

abbrev pub made : Making → PrepCall → Option Fd → AsyncOp
made making call file = record { making = making; call = call; file = file }

abbrev pub prepared : Making → Prep → List ℕ → Option Fd → AsyncOp
prepared making prep args file = made making (liburing prep args) file

-- A constant that is added to the flags `flags` under `is_fixed_fd_v`.
unfoldable pub or_if_fixed : ℕ → Fd → ℕ → ℕ
or_if_fixed constant (plain fd) flags = flags
or_if_fixed constant (fixed fd) flags = bit_or flags constant

-- The sender of a request whose operation is the sender `s`.
unfoldable pub flag_file : ℕ → Sender → Option Fd → Sender
unfolding maybe_flag_fixed_fd
flag_file fixed_file s none = s
flag_file fixed_file s (some fd) = maybe_flag_fixed_fd fixed_file s fd

module _ {X : Type 0} (func : Prep → List ℕ → Sqe X → Sqe X)
    (io_uring_prep_send_set_addr : ℕ → ℕ → Sqe X → Sqe X) (recvsend_fixed_buf : ℕ) where
  -- What a call does to an entry.
  unfoldable pub perform_call : PrepCall → Sqe X → Sqe X
  unfolding prep_rw prep_fixed_buf
  perform_call (liburing prep args) e = func prep args e
  perform_call (send_set_addr addr addrlen c) e =
      io_uring_prep_send_set_addr addr addrlen (perform_call c e)
  perform_call (set_fixed_buf index c) e =
      prep_fixed_buf recvsend_fixed_buf index (perform_call c) e
  perform_call (set_rw_flags flags c) e = prep_rw flags (perform_call c) e

module _ {R S X : Type 0} (change : S → (Sqe X → Sqe X) → R → R) (get_sqe : Ring R → S × Ring R)
    (buffer_select recvsend_bundle : ℕ) where
  unfoldable pub make : Making → (Sqe X → Sqe X) → Made R S
  unfolding make_op_awaiter make_multishot_op_awaiter make_zero_copy_op_awaiter
      make_select_buffer_op_awaiter make_multishot_select_buffer_op_awaiter
      make_bundle_select_buffer_op_awaiter make_multishot_bundle_select_buffer_op_awaiter
  make once func = make_op_awaiter change get_sqe func
  make shots func = make_multishot_op_awaiter change get_sqe func
  make zero_copied func = make_zero_copy_op_awaiter change get_sqe func
  make (selected b) func =
      make_select_buffer_op_awaiter change get_sqe func buffer_select b.bgid b.address
  make (selected_shots b) func =
      make_multishot_select_buffer_op_awaiter change get_sqe func buffer_select b.bgid b.address
  make (bundled b) func =
      make_bundle_select_buffer_op_awaiter change get_sqe func buffer_select b.bgid b.address
        recvsend_bundle
  make (bundled_shots b) func =
      make_multishot_bundle_select_buffer_op_awaiter change get_sqe func buffer_select b.bgid
        b.address recvsend_bundle
