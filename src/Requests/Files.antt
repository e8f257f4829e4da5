-- ===== src/Requests/Files.antt =====
-- include/condy/async_operations.hpp: the operations on a descriptor, without buffers.
use condy.Prelude.{ℕ, none, some, [], ◌∷◌}
use condy.Async.{Fd, plain, fixed, unwrap_fixed}
use condy.Requests.{
  AsyncOp, prepared, or_if_fixed, once, shots, zero_copied, io_uring_prep_splice, io_uring_prep_tee,
  io_uring_prep_readv2, io_uring_prep_writev2, io_uring_prep_recvmsg, io_uring_prep_sendmsg,
  io_uring_prep_sendmsg_zc, io_uring_prep_fsync, io_uring_prep_accept, io_uring_prep_accept_direct,
  io_uring_prep_multishot_accept, io_uring_prep_multishot_accept_direct, io_uring_prep_cancel_fd,
  io_uring_prep_connect, io_uring_prep_fallocate, io_uring_prep_close, io_uring_prep_close_direct,
  io_uring_prep_fadvise, io_uring_prep_fadvise64, io_uring_prep_shutdown,
  io_uring_prep_sync_file_range, io_uring_prep_cmd_sock, io_uring_prep_cmd_getsockname,
  io_uring_prep_ftruncate, io_uring_prep_cmd_discard, io_uring_prep_bind, io_uring_prep_listen,
}

unfoldable pub async_splice : ℕ → Fd → ℕ → Fd → ℕ → ℕ → ℕ → AsyncOp
unfolding unwrap_fixed or_if_fixed
async_splice splice_f_fd_in_fixed fd_in off_in fd_out off_out nbytes splice_flags =
    prepared once io_uring_prep_splice
      (unwrap_fixed fd_in
        ∷ off_in
        ∷ unwrap_fixed fd_out
        ∷ off_out
        ∷ nbytes
        ∷ or_if_fixed splice_f_fd_in_fixed fd_in splice_flags
        ∷ [])
      (some fd_out)

unfoldable pub async_tee : ℕ → Fd → Fd → ℕ → ℕ → AsyncOp
unfolding unwrap_fixed or_if_fixed
async_tee splice_f_fd_in_fixed fd_in fd_out nbytes splice_flags =
    prepared once io_uring_prep_tee
      (unwrap_fixed fd_in
        ∷ unwrap_fixed fd_out
        ∷ nbytes
        ∷ or_if_fixed splice_f_fd_in_fixed fd_in splice_flags
        ∷ [])
      (some fd_out)

unfoldable pub async_readv : Fd → ℕ → ℕ → ℕ → ℕ → AsyncOp
unfolding unwrap_fixed
async_readv fd iovecs nr_vecs offset flags =
    prepared once io_uring_prep_readv2 (unwrap_fixed fd ∷ iovecs ∷ nr_vecs ∷ offset ∷ flags ∷ [])
      (some fd)

unfoldable pub async_writev : Fd → ℕ → ℕ → ℕ → ℕ → AsyncOp
unfolding unwrap_fixed
async_writev fd iovecs nr_vecs offset flags =
    prepared once io_uring_prep_writev2 (unwrap_fixed fd ∷ iovecs ∷ nr_vecs ∷ offset ∷ flags ∷ [])
      (some fd)

unfoldable pub async_recvmsg : Fd → ℕ → ℕ → AsyncOp
unfolding unwrap_fixed
async_recvmsg fd msg flags =
    prepared once io_uring_prep_recvmsg (unwrap_fixed fd ∷ msg ∷ flags ∷ []) (some fd)

unfoldable pub async_sendmsg : Fd → ℕ → ℕ → AsyncOp
unfolding unwrap_fixed
async_sendmsg fd msg flags =
    prepared once io_uring_prep_sendmsg (unwrap_fixed fd ∷ msg ∷ flags ∷ []) (some fd)

unfoldable pub async_sendmsg_zc : Fd → ℕ → ℕ → AsyncOp
unfolding unwrap_fixed
async_sendmsg_zc fd msg flags =
    prepared zero_copied io_uring_prep_sendmsg_zc (unwrap_fixed fd ∷ msg ∷ flags ∷ []) (some fd)

unfoldable pub async_fsync : Fd → ℕ → AsyncOp
unfolding unwrap_fixed
async_fsync fd fsync_flags =
    prepared once io_uring_prep_fsync (unwrap_fixed fd ∷ fsync_flags ∷ []) (some fd)

unfoldable pub async_accept : Fd → ℕ → ℕ → ℕ → AsyncOp
unfolding unwrap_fixed
async_accept fd addr addrlen flags =
    prepared once io_uring_prep_accept (unwrap_fixed fd ∷ addr ∷ addrlen ∷ flags ∷ []) (some fd)

unfoldable pub async_accept_direct : Fd → ℕ → ℕ → ℕ → ℕ → AsyncOp
unfolding unwrap_fixed
async_accept_direct fd addr addrlen flags file_index =
    prepared once io_uring_prep_accept_direct
      (unwrap_fixed fd ∷ addr ∷ addrlen ∷ flags ∷ file_index ∷ []) (some fd)

unfoldable pub async_multishot_accept : Fd → ℕ → ℕ → ℕ → AsyncOp
unfolding unwrap_fixed
async_multishot_accept fd addr addrlen flags =
    prepared shots io_uring_prep_multishot_accept (unwrap_fixed fd ∷ addr ∷ addrlen ∷ flags ∷ [])
      (some fd)

unfoldable pub async_multishot_accept_direct : Fd → ℕ → ℕ → ℕ → AsyncOp
unfolding unwrap_fixed
async_multishot_accept_direct fd addr addrlen flags =
    prepared shots io_uring_prep_multishot_accept_direct
      (unwrap_fixed fd ∷ addr ∷ addrlen ∷ flags ∷ []) (some fd)

unfoldable pub async_cancel_fd : ℕ → Fd → ℕ → AsyncOp
unfolding unwrap_fixed or_if_fixed
async_cancel_fd ioring_async_cancel_fd_fixed fd flags =
    prepared once io_uring_prep_cancel_fd
      (unwrap_fixed fd ∷ or_if_fixed ioring_async_cancel_fd_fixed fd flags ∷ []) none

unfoldable pub async_connect : Fd → ℕ → ℕ → AsyncOp
unfolding unwrap_fixed
async_connect fd addr addrlen =
    prepared once io_uring_prep_connect (unwrap_fixed fd ∷ addr ∷ addrlen ∷ []) (some fd)

unfoldable pub async_fallocate : Fd → ℕ → ℕ → ℕ → AsyncOp
unfolding unwrap_fixed
async_fallocate fd mode offset len =
    prepared once io_uring_prep_fallocate (unwrap_fixed fd ∷ mode ∷ offset ∷ len ∷ []) (some fd)

-- The two overloads.
unfoldable pub async_close : Fd → AsyncOp
async_close (plain fd) = prepared once io_uring_prep_close (fd ∷ []) none
async_close (fixed fd) = prepared once io_uring_prep_close_direct (fd ∷ []) none

unfoldable pub async_fadvise : Fd → ℕ → ℕ → ℕ → AsyncOp
unfolding unwrap_fixed
async_fadvise fd offset len advice =
    prepared once io_uring_prep_fadvise (unwrap_fixed fd ∷ offset ∷ len ∷ advice ∷ []) (some fd)

unfoldable pub async_fadvise64 : Fd → ℕ → ℕ → ℕ → AsyncOp
unfolding unwrap_fixed
async_fadvise64 fd offset len advice =
    prepared once io_uring_prep_fadvise64 (unwrap_fixed fd ∷ offset ∷ len ∷ advice ∷ []) (some fd)

unfoldable pub async_shutdown : Fd → ℕ → AsyncOp
unfolding unwrap_fixed
async_shutdown fd how = prepared once io_uring_prep_shutdown (unwrap_fixed fd ∷ how ∷ []) (some fd)

unfoldable pub async_sync_file_range : Fd → ℕ → ℕ → ℕ → AsyncOp
unfolding unwrap_fixed
async_sync_file_range fd len offset flags =
    prepared once io_uring_prep_sync_file_range (unwrap_fixed fd ∷ len ∷ offset ∷ flags ∷ [])
      (some fd)

unfoldable pub async_cmd_sock : ℕ → Fd → ℕ → ℕ → ℕ → ℕ → AsyncOp
unfolding unwrap_fixed
async_cmd_sock cmd_op fd level optname optval optlen =
    prepared once io_uring_prep_cmd_sock
      (cmd_op ∷ unwrap_fixed fd ∷ level ∷ optname ∷ optval ∷ optlen ∷ []) (some fd)

unfoldable pub async_cmd_getsockname : Fd → ℕ → ℕ → ℕ → AsyncOp
unfolding unwrap_fixed
async_cmd_getsockname fd sockaddr sockaddr_len peer =
    prepared once io_uring_prep_cmd_getsockname
      (unwrap_fixed fd ∷ sockaddr ∷ sockaddr_len ∷ peer ∷ []) (some fd)

unfoldable pub async_ftruncate : Fd → ℕ → AsyncOp
unfolding unwrap_fixed
async_ftruncate fd len =
    prepared once io_uring_prep_ftruncate (unwrap_fixed fd ∷ len ∷ []) (some fd)

unfoldable pub async_cmd_discard : Fd → ℕ → ℕ → AsyncOp
unfolding unwrap_fixed
async_cmd_discard fd offset nbytes =
    prepared once io_uring_prep_cmd_discard (unwrap_fixed fd ∷ offset ∷ nbytes ∷ []) (some fd)

unfoldable pub async_bind : Fd → ℕ → ℕ → AsyncOp
unfolding unwrap_fixed
async_bind fd addr addrlen =
    prepared once io_uring_prep_bind (unwrap_fixed fd ∷ addr ∷ addrlen ∷ []) (some fd)

unfoldable pub async_listen : Fd → ℕ → AsyncOp
unfolding unwrap_fixed
async_listen fd backlog =
    prepared once io_uring_prep_listen (unwrap_fixed fd ∷ backlog ∷ []) (some fd)
