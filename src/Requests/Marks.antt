-- ===== src/Requests/Marks.antt =====
-- include/condy/async_operations.hpp: what a fixed descriptor changes in a request.
use condy.Prelude.{ℕ, ◌≡◌, refl, Option, List, [], ◌∷◌}
use condy.Ring.{Ring}
use condy.Async.{Sqe, Fd, plain, fixed, unwrap_fixed, maybe_flag_fixed_fd, Made}
use condy.Async.Entry.{with_fd}
use condy.Senders.{op, flag, start, prepare}
use condy.Requests.{Buffer, FixedBuffer, BufferGroup, AsyncOp, flag_file}
use condy.Requests.Commands.{async_uring_cmd, async_uring_cmd_multishot, async_uring_cmd128}
use condy.Requests.Files.{
  async_splice, async_tee, async_readv, async_writev, async_recvmsg, async_sendmsg,
  async_sendmsg_zc, async_fsync, async_accept, async_accept_direct, async_multishot_accept,
  async_multishot_accept_direct, async_connect, async_fallocate, async_fadvise, async_fadvise64,
  async_shutdown, async_sync_file_range, async_cmd_sock, async_cmd_getsockname, async_ftruncate,
  async_cmd_discard, async_bind, async_listen,
}
use condy.Requests.Sockets.{
  async_readv_fixed_buffer, async_writev_fixed_buffer, async_recvmsg_multishot,
  async_sendmsg_zc_fixed_buffer, async_read, async_read_fixed_buffer, async_read_select,
  async_read_multishot, async_write, async_write_fixed_buffer, async_send, async_send_fixed_buffer,
  async_send_select, async_send_bundle, async_sendto, async_sendto_fixed_buffer,
  async_sendto_select, async_sendto_bundle, async_send_zc, async_send_zc_fixed_buffer,
  async_sendto_zc, async_sendto_zc_fixed_buffer, async_recv, async_recv_fixed_buffer,
  async_recv_select, async_recv_bundle, async_recv_multishot, async_recv_multishot_bundle,
}

-- The other arguments of a request: words, buffers, and the descriptor that is read from.
pub record Args : Type 0 where
  pub word : ℕ → ℕ
  pub buffer : Buffer
  pub fixed_buffer : FixedBuffer Buffer
  pub fixed_vector : FixedBuffer ℕ
  pub group : BufferGroup
  pub other : Fd

-- The functions that give a descriptor to `maybe_flag_fixed_fd`, as functions of it alone, but for the
-- commands of drivers, which follow, and for the overload of `async_recv_multishot` for a
-- `ZeroCopyRxBufferPool`, which does not unwrap its descriptor and so takes no fixed one.
abbrev pub file_operations : Args → List (Fd → AsyncOp)
file_operations a =
    (λ fd. async_splice (a.word 0) a.other (a.word 1) fd (a.word 2) (a.word 3) (a.word 4))
    ∷ (λ fd. async_tee (a.word 0) a.other fd (a.word 1) (a.word 2))
    ∷ (λ fd. async_readv fd (a.word 0) (a.word 1) (a.word 2) (a.word 3))
    ∷ (λ fd. async_readv_fixed_buffer fd a.fixed_vector (a.word 0) (a.word 1) (a.word 2))
    ∷ (λ fd. async_writev fd (a.word 0) (a.word 1) (a.word 2) (a.word 3))
    ∷ (λ fd. async_writev_fixed_buffer fd a.fixed_vector (a.word 0) (a.word 1) (a.word 2))
    ∷ (λ fd. async_recvmsg fd (a.word 0) (a.word 1))
    ∷ (λ fd. async_recvmsg_multishot fd (a.word 0) (a.word 1) a.group)
    ∷ (λ fd. async_sendmsg fd (a.word 0) (a.word 1))
    ∷ (λ fd. async_sendmsg_zc fd (a.word 0) (a.word 1))
    ∷ (λ fd. async_sendmsg_zc_fixed_buffer fd a.fixed_vector (a.word 0))
    ∷ (λ fd. async_fsync fd (a.word 0))
    ∷ (λ fd. async_accept fd (a.word 0) (a.word 1) (a.word 2))
    ∷ (λ fd. async_accept_direct fd (a.word 0) (a.word 1) (a.word 2) (a.word 3))
    ∷ (λ fd. async_multishot_accept fd (a.word 0) (a.word 1) (a.word 2))
    ∷ (λ fd. async_multishot_accept_direct fd (a.word 0) (a.word 1) (a.word 2))
    ∷ (λ fd. async_connect fd (a.word 0) (a.word 1))
    ∷ (λ fd. async_fallocate fd (a.word 0) (a.word 1) (a.word 2))
    ∷ (λ fd. async_read fd a.buffer (a.word 0) (a.word 1))
    ∷ (λ fd. async_read_fixed_buffer fd a.fixed_buffer (a.word 0) (a.word 1))
    ∷ (λ fd. async_read_select fd a.group (a.word 0))
    ∷ (λ fd. async_read_multishot fd a.group (a.word 0))
    ∷ (λ fd. async_write fd a.buffer (a.word 0) (a.word 1))
    ∷ (λ fd. async_write_fixed_buffer fd a.fixed_buffer (a.word 0) (a.word 1))
    ∷ (λ fd. async_fadvise fd (a.word 0) (a.word 1) (a.word 2))
    ∷ (λ fd. async_fadvise64 fd (a.word 0) (a.word 1) (a.word 2))
    ∷ (λ fd. async_send fd a.buffer (a.word 0))
    ∷ (λ fd. async_send_fixed_buffer fd a.fixed_buffer (a.word 0))
    ∷ (λ fd. async_send_select fd a.group (a.word 0))
    ∷ (λ fd. async_send_bundle fd a.group (a.word 0))
    ∷ (λ fd. async_sendto fd a.buffer (a.word 0) (a.word 1) (a.word 2))
    ∷ (λ fd. async_sendto_fixed_buffer fd a.fixed_buffer (a.word 0) (a.word 1) (a.word 2))
    ∷ (λ fd. async_sendto_select fd a.group (a.word 0) (a.word 1) (a.word 2))
    ∷ (λ fd. async_sendto_bundle fd a.group (a.word 0) (a.word 1) (a.word 2))
    ∷ (λ fd. async_send_zc fd a.buffer (a.word 0) (a.word 1))
    ∷ (λ fd. async_send_zc_fixed_buffer fd a.fixed_buffer (a.word 0) (a.word 1))
    ∷ (λ fd. async_sendto_zc fd a.buffer (a.word 0) (a.word 1) (a.word 2) (a.word 3))
    ∷ (λ fd.
        async_sendto_zc_fixed_buffer fd a.fixed_buffer (a.word 0) (a.word 1) (a.word 2) (a.word 3))
    ∷ (λ fd. async_recv fd a.buffer (a.word 0))
    ∷ (λ fd. async_recv_fixed_buffer fd a.fixed_buffer (a.word 0))
    ∷ (λ fd. async_recv_select fd a.group (a.word 0))
    ∷ (λ fd. async_recv_bundle fd a.group (a.word 0))
    ∷ (λ fd. async_recv_multishot fd a.group (a.word 0))
    ∷ (λ fd. async_recv_multishot_bundle fd a.group (a.word 0))
    ∷ (λ fd. async_shutdown fd (a.word 0))
    ∷ (λ fd. async_sync_file_range fd (a.word 0) (a.word 1) (a.word 2))
    ∷ (λ fd. async_cmd_sock (a.word 0) fd (a.word 1) (a.word 2) (a.word 3) (a.word 4))
    ∷ (λ fd. async_cmd_getsockname fd (a.word 0) (a.word 1) (a.word 2))
    ∷ (λ fd. async_ftruncate fd (a.word 0))
    ∷ (λ fd. async_cmd_discard fd (a.word 0) (a.word 1))
    ∷ (λ fd. async_bind fd (a.word 0) (a.word 1))
    ∷ (λ fd. async_listen fd (a.word 0))
    ∷ []

abbrev pub Marks : ℕ → ℕ → ℕ → (Fd → AsyncOp) → Type 0
Marks fixed_file flags o f =
    (n : ℕ)
    → ((f (plain n)).making ≡ (f (fixed n)).making)
      × ((f (plain n)).call ≡ (f (fixed n)).call)
      × (start flags (flag_file fixed_file (op o) (f (plain n)).file) ≡ prepare o flags ∷ [])
      × (start flags (flag_file fixed_file (op o) (f (fixed n)).file)
          ≡ prepare o (with_fd fixed_file flags (fixed n)) ∷ [])

abbrev pub AllMarks : ℕ → ℕ → ℕ → List (Fd → AsyncOp) → Type 0
AllMarks fixed_file flags o [] = Unit
AllMarks fixed_file flags o (f ∷ fs) = Marks fixed_file flags o f × AllMarks fixed_file flags o fs

-- What a command to a driver is made of, and the queue that it gets its entry from.
pub record Driver (R S X : Type 0) : Type 0 where
  pub change : S → (Sqe X → Sqe X) → R → R
  pub get_sqe : Ring R → S × Ring R
  pub get_sqe128 : Ring R → Option S × Ring R
  pub io_uring_prep_uring_cmd : ℕ → ℕ → Sqe X → Sqe X
  pub io_uring_prep_uring_cmd128 : ℕ → ℕ → Sqe X → Sqe X
  pub cmd_op : ℕ
  pub cmd_func : Sqe X → Sqe X

module _ {R S : Type 0} where
  abbrev pub MarksCommand : ℕ → ℕ → ℕ → (Fd → Made R S × Option Fd) → Type 0
  MarksCommand fixed_file flags o f =
      (n : ℕ)
      → ((f (plain n)).0 ≡ (f (fixed n)).0)
        × (start flags (flag_file fixed_file (op o) (f (plain n)).1) ≡ prepare o flags ∷ [])
        × (start flags (flag_file fixed_file (op o) (f (fixed n)).1)
            ≡ prepare o (with_fd fixed_file flags (fixed n)) ∷ [])

  abbrev pub AllMarkCommands : ℕ → ℕ → ℕ → List (Fd → Made R S × Option Fd) → Type 0
  AllMarkCommands fixed_file flags o [] = Unit
  AllMarkCommands fixed_file flags o (f ∷ fs) =
      MarksCommand fixed_file flags o f × AllMarkCommands fixed_file flags o fs

module _ {R S X : Type 0} where
  abbrev pub driver_commands : Driver R S X → List (Fd → Made R S × Option Fd)
  driver_commands d =
      (λ fd. async_uring_cmd d.change d.get_sqe d.io_uring_prep_uring_cmd d.cmd_op fd d.cmd_func)
      ∷ (λ fd.
          async_uring_cmd_multishot d.change d.get_sqe d.io_uring_prep_uring_cmd d.cmd_op fd
            d.cmd_func)
      ∷ (λ fd.
          async_uring_cmd128 d.change d.get_sqe128 d.io_uring_prep_uring_cmd128 d.cmd_op fd
            d.cmd_func)
      ∷ []

  driver_commands-AllMarkCommands :
      (fixed_file flags o : ℕ) (d : Driver R S X)
      → AllMarkCommands fixed_file flags o (driver_commands d)
  unfolding flag_file start flag maybe_flag_fixed_fd unwrap_fixed async_uring_cmd
      async_uring_cmd_multishot async_uring_cmd128
  driver_commands-AllMarkCommands fixed_file flags o d =
      (λ n. (refl, refl, refl), (λ n. (refl, refl, refl), (λ n. (refl, refl, refl), tt)))

-- Each function that gives a descriptor to `maybe_flag_fixed_fd` and accepts a fixed one, with any other
-- arguments, makes the same operation with the same call when it is given a fixed descriptor as
-- when it is given the plain one of the same number; and the operation is started with
-- `IOSQE_FIXED_FILE` for the fixed descriptor, and without it for the plain one. The functions are
-- those of `file_operations` and `driver_commands`: all but the overload of `async_recv_multishot` for a
-- `ZeroCopyRxBufferPool`.
pub file_operations-AllMarks :
    {R S X : Type 0} (fixed_file flags o : ℕ) (a : Args) (d : Driver R S X)
    → AllMarks fixed_file flags o (file_operations a)
      × AllMarkCommands fixed_file flags o (driver_commands d)
unfolding flag_file start flag maybe_flag_fixed_fd unwrap_fixed async_splice async_tee async_readv
    async_readv_fixed_buffer async_writev async_writev_fixed_buffer async_recvmsg
    async_recvmsg_multishot async_sendmsg async_sendmsg_zc async_sendmsg_zc_fixed_buffer async_fsync
    async_accept async_accept_direct async_multishot_accept async_multishot_accept_direct
    async_connect async_fallocate async_read async_read_fixed_buffer async_read_select
    async_read_multishot async_write async_write_fixed_buffer async_fadvise async_fadvise64
    async_send async_send_fixed_buffer async_send_select async_send_bundle async_sendto
    async_sendto_fixed_buffer async_sendto_select async_sendto_bundle async_send_zc
    async_send_zc_fixed_buffer async_sendto_zc async_sendto_zc_fixed_buffer async_recv
    async_recv_fixed_buffer async_recv_select async_recv_bundle async_recv_multishot
    async_recv_multishot_bundle async_shutdown async_sync_file_range async_cmd_sock
    async_cmd_getsockname async_ftruncate async_cmd_discard async_bind async_listen
file_operations-AllMarks fixed_file flags o a d =
    (search, driver_commands-AllMarkCommands fixed_file flags o d)
