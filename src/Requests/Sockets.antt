-- ===== src/Requests/Sockets.antt =====
-- include/condy/async_operations.hpp: the operations on a descriptor with buffers, their overloads named
-- for the kind of the buffers.
use condy.Prelude.{ℕ, some, [], ◌∷◌}
use condy.Async.{Fd, unwrap_fixed}
use condy.Requests.{
  Buffer, FixedBuffer, BufferGroup, AsyncOp, prepared, made, once, zero_copied, selected,
  selected_shots, bundled, bundled_shots, prep_read, prep_read_fixed, prep_write, prep_write_fixed,
  prep_send_fixed, prep_recv_fixed, prep_sendto, prep_sendto_fixed, prep_sendto_zc,
  prep_sendto_zc_fixed, io_uring_prep_readv_fixed, io_uring_prep_writev_fixed,
  io_uring_prep_recvmsg_multishot, io_uring_prep_sendmsg_zc_fixed, io_uring_prep_read,
  io_uring_prep_read_multishot, io_uring_prep_send, io_uring_prep_send_zc,
  io_uring_prep_send_zc_fixed, io_uring_prep_recv, io_uring_prep_recv_multishot,
}

unfoldable pub async_readv_fixed_buffer : Fd → FixedBuffer ℕ → ℕ → ℕ → ℕ → AsyncOp
unfolding unwrap_fixed
async_readv_fixed_buffer fd iovecs nr_vecs offset flags =
    prepared once io_uring_prep_readv_fixed
      (unwrap_fixed fd ∷ iovecs.value ∷ nr_vecs ∷ offset ∷ flags ∷ iovecs.buf_index ∷ []) (some fd)

unfoldable pub async_writev_fixed_buffer : Fd → FixedBuffer ℕ → ℕ → ℕ → ℕ → AsyncOp
unfolding unwrap_fixed
async_writev_fixed_buffer fd iovecs nr_vecs offset flags =
    prepared once io_uring_prep_writev_fixed
      (unwrap_fixed fd ∷ iovecs.value ∷ nr_vecs ∷ offset ∷ flags ∷ iovecs.buf_index ∷ []) (some fd)

unfoldable pub async_recvmsg_multishot : Fd → ℕ → ℕ → BufferGroup → AsyncOp
unfolding unwrap_fixed
async_recvmsg_multishot fd msg flags buf =
    prepared (selected_shots buf) io_uring_prep_recvmsg_multishot
      (unwrap_fixed fd ∷ msg ∷ flags ∷ []) (some fd)

unfoldable pub async_sendmsg_zc_fixed_buffer : Fd → FixedBuffer ℕ → ℕ → AsyncOp
unfolding unwrap_fixed
async_sendmsg_zc_fixed_buffer fd msg flags =
    prepared zero_copied io_uring_prep_sendmsg_zc_fixed
      (unwrap_fixed fd ∷ msg.value ∷ flags ∷ msg.buf_index ∷ []) (some fd)

unfoldable pub async_read : Fd → Buffer → ℕ → ℕ → AsyncOp
unfolding unwrap_fixed prep_read
async_read fd buf offset flags =
    made once (prep_read (unwrap_fixed fd) buf.address buf.size offset flags) (some fd)

unfoldable pub async_read_fixed_buffer : Fd → FixedBuffer Buffer → ℕ → ℕ → AsyncOp
unfolding unwrap_fixed prep_read_fixed
async_read_fixed_buffer fd buf offset flags =
    made once
      (prep_read_fixed (unwrap_fixed fd) buf.value.address buf.value.size offset flags
        buf.buf_index)
      (some fd)

unfoldable pub async_read_select : Fd → BufferGroup → ℕ → AsyncOp
unfolding unwrap_fixed
async_read_select fd buf offset =
    prepared (selected buf) io_uring_prep_read (unwrap_fixed fd ∷ 0 ∷ 0 ∷ offset ∷ []) (some fd)

unfoldable pub async_read_multishot : Fd → BufferGroup → ℕ → AsyncOp
unfolding unwrap_fixed
async_read_multishot fd buf offset =
    prepared (selected_shots buf) io_uring_prep_read_multishot
      (unwrap_fixed fd ∷ 0 ∷ offset ∷ buf.bgid ∷ []) (some fd)

unfoldable pub async_write : Fd → Buffer → ℕ → ℕ → AsyncOp
unfolding unwrap_fixed prep_write
async_write fd buf offset flags =
    made once (prep_write (unwrap_fixed fd) buf.address buf.size offset flags) (some fd)

unfoldable pub async_write_fixed_buffer : Fd → FixedBuffer Buffer → ℕ → ℕ → AsyncOp
unfolding unwrap_fixed prep_write_fixed
async_write_fixed_buffer fd buf offset flags =
    made once
      (prep_write_fixed (unwrap_fixed fd) buf.value.address buf.value.size offset flags
        buf.buf_index)
      (some fd)

unfoldable pub async_send : Fd → Buffer → ℕ → AsyncOp
unfolding unwrap_fixed
async_send sockfd buf flags =
    prepared once io_uring_prep_send (unwrap_fixed sockfd ∷ buf.address ∷ buf.size ∷ flags ∷ [])
      (some sockfd)

unfoldable pub async_send_fixed_buffer : Fd → FixedBuffer Buffer → ℕ → AsyncOp
unfolding unwrap_fixed prep_send_fixed
async_send_fixed_buffer sockfd buf flags =
    made once
      (prep_send_fixed (unwrap_fixed sockfd) buf.value.address buf.value.size flags buf.buf_index)
      (some sockfd)

unfoldable pub async_send_select : Fd → BufferGroup → ℕ → AsyncOp
unfolding unwrap_fixed
async_send_select sockfd buf flags =
    prepared (selected buf) io_uring_prep_send (unwrap_fixed sockfd ∷ 0 ∷ 0 ∷ flags ∷ [])
      (some sockfd)

unfoldable pub async_send_bundle : Fd → BufferGroup → ℕ → AsyncOp
unfolding unwrap_fixed
async_send_bundle sockfd buf flags =
    prepared (bundled buf) io_uring_prep_send (unwrap_fixed sockfd ∷ 0 ∷ 0 ∷ flags ∷ [])
      (some sockfd)

unfoldable pub async_sendto : Fd → Buffer → ℕ → ℕ → ℕ → AsyncOp
unfolding unwrap_fixed prep_sendto
async_sendto sockfd buf flags addr addrlen =
    made once (prep_sendto (unwrap_fixed sockfd) buf.address buf.size flags addr addrlen)
      (some sockfd)

unfoldable pub async_sendto_fixed_buffer : Fd → FixedBuffer Buffer → ℕ → ℕ → ℕ → AsyncOp
unfolding unwrap_fixed prep_sendto_fixed
async_sendto_fixed_buffer sockfd buf flags addr addrlen =
    made once
      (prep_sendto_fixed (unwrap_fixed sockfd) buf.value.address buf.value.size flags addr addrlen
        buf.buf_index)
      (some sockfd)

unfoldable pub async_sendto_select : Fd → BufferGroup → ℕ → ℕ → ℕ → AsyncOp
unfolding unwrap_fixed prep_sendto
async_sendto_select sockfd buf flags addr addrlen =
    made (selected buf) (prep_sendto (unwrap_fixed sockfd) 0 0 flags addr addrlen) (some sockfd)

unfoldable pub async_sendto_bundle : Fd → BufferGroup → ℕ → ℕ → ℕ → AsyncOp
unfolding unwrap_fixed prep_sendto
async_sendto_bundle sockfd buf flags addr addrlen =
    made (bundled buf) (prep_sendto (unwrap_fixed sockfd) 0 0 flags addr addrlen) (some sockfd)

unfoldable pub async_send_zc : Fd → Buffer → ℕ → ℕ → AsyncOp
unfolding unwrap_fixed
async_send_zc sockfd buf flags zc_flags =
    prepared zero_copied io_uring_prep_send_zc
      (unwrap_fixed sockfd ∷ buf.address ∷ buf.size ∷ flags ∷ zc_flags ∷ []) (some sockfd)

unfoldable pub async_send_zc_fixed_buffer : Fd → FixedBuffer Buffer → ℕ → ℕ → AsyncOp
unfolding unwrap_fixed
async_send_zc_fixed_buffer sockfd buf flags zc_flags =
    prepared zero_copied io_uring_prep_send_zc_fixed
      (unwrap_fixed sockfd
        ∷ buf.value.address
        ∷ buf.value.size
        ∷ flags
        ∷ zc_flags
        ∷ buf.buf_index
        ∷ [])
      (some sockfd)

unfoldable pub async_sendto_zc : Fd → Buffer → ℕ → ℕ → ℕ → ℕ → AsyncOp
unfolding unwrap_fixed prep_sendto_zc
async_sendto_zc sockfd buf flags addr addrlen zc_flags =
    made zero_copied
      (prep_sendto_zc (unwrap_fixed sockfd) buf.address buf.size flags addr addrlen zc_flags)
      (some sockfd)

unfoldable pub async_sendto_zc_fixed_buffer : Fd → FixedBuffer Buffer → ℕ → ℕ → ℕ → ℕ → AsyncOp
unfolding unwrap_fixed prep_sendto_zc_fixed
async_sendto_zc_fixed_buffer sockfd buf flags addr addrlen zc_flags =
    made zero_copied
      (prep_sendto_zc_fixed (unwrap_fixed sockfd) buf.value.address buf.value.size flags addr
        addrlen zc_flags buf.buf_index)
      (some sockfd)

unfoldable pub async_recv : Fd → Buffer → ℕ → AsyncOp
unfolding unwrap_fixed
async_recv sockfd buf flags =
    prepared once io_uring_prep_recv (unwrap_fixed sockfd ∷ buf.address ∷ buf.size ∷ flags ∷ [])
      (some sockfd)

unfoldable pub async_recv_fixed_buffer : Fd → FixedBuffer Buffer → ℕ → AsyncOp
unfolding unwrap_fixed prep_recv_fixed
async_recv_fixed_buffer sockfd buf flags =
    made once
      (prep_recv_fixed (unwrap_fixed sockfd) buf.value.address buf.value.size flags buf.buf_index)
      (some sockfd)

unfoldable pub async_recv_select : Fd → BufferGroup → ℕ → AsyncOp
unfolding unwrap_fixed
async_recv_select sockfd buf flags =
    prepared (selected buf) io_uring_prep_recv (unwrap_fixed sockfd ∷ 0 ∷ 0 ∷ flags ∷ [])
      (some sockfd)

unfoldable pub async_recv_bundle : Fd → BufferGroup → ℕ → AsyncOp
unfolding unwrap_fixed
async_recv_bundle sockfd buf flags =
    prepared (bundled buf) io_uring_prep_recv (unwrap_fixed sockfd ∷ 0 ∷ 0 ∷ flags ∷ [])
      (some sockfd)

unfoldable pub async_recv_multishot : Fd → BufferGroup → ℕ → AsyncOp
unfolding unwrap_fixed
async_recv_multishot sockfd buf flags =
    prepared (selected_shots buf) io_uring_prep_recv_multishot
      (unwrap_fixed sockfd ∷ 0 ∷ 0 ∷ flags ∷ []) (some sockfd)

unfoldable pub async_recv_multishot_bundle : Fd → BufferGroup → ℕ → AsyncOp
unfolding unwrap_fixed
async_recv_multishot_bundle sockfd buf flags =
    prepared (bundled_shots buf) io_uring_prep_recv_multishot
      (unwrap_fixed sockfd ∷ 0 ∷ 0 ∷ flags ∷ []) (some sockfd)
