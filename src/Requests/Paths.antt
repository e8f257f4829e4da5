-- ===== src/Requests/Paths.antt =====
-- include/condy/async_operations.hpp: the operations on paths, memory and time, and those whose descriptors
-- are always plain. `AT_FDCWD` is an argument.
use condy.Prelude.{ℕ, none, [], ◌∷◌, bit_or}
use condy.Requests.{
  AsyncOp, prepared, once, shots, io_uring_prep_nop, io_uring_prep_timeout,
  io_uring_prep_link_timeout, io_uring_prep_files_update, io_uring_prep_openat,
  io_uring_prep_openat_direct, io_uring_prep_statx, io_uring_prep_madvise, io_uring_prep_madvise64,
  io_uring_prep_openat2, io_uring_prep_openat2_direct, io_uring_prep_unlinkat,
  io_uring_prep_renameat, io_uring_prep_mkdirat, io_uring_prep_symlinkat, io_uring_prep_linkat,
  io_uring_prep_getxattr, io_uring_prep_setxattr, io_uring_prep_fgetxattr, io_uring_prep_fsetxattr,
  io_uring_prep_socket, io_uring_prep_socket_direct, io_uring_prep_waitid, io_uring_prep_futex_wake,
  io_uring_prep_futex_wait, io_uring_prep_futex_waitv, io_uring_prep_fixed_fd_install,
  io_uring_prep_epoll_ctl, io_uring_prep_epoll_wait, io_uring_prep_pipe, io_uring_prep_pipe_direct,
}

unfoldable pub async_nop : AsyncOp
async_nop = prepared once io_uring_prep_nop [] none

unfoldable pub async_timeout : ℕ → ℕ → ℕ → AsyncOp
async_timeout ts count flags = prepared once io_uring_prep_timeout (ts ∷ count ∷ flags ∷ []) none

unfoldable pub async_timeout_multishot : ℕ → ℕ → ℕ → ℕ → AsyncOp
async_timeout_multishot ioring_timeout_multishot ts count flags =
    prepared shots io_uring_prep_timeout (ts ∷ count ∷ bit_or flags ioring_timeout_multishot ∷ [])
      none

unfoldable pub async_link_timeout : ℕ → ℕ → AsyncOp
async_link_timeout ts flags = prepared once io_uring_prep_link_timeout (ts ∷ flags ∷ []) none

unfoldable pub async_files_update : ℕ → ℕ → ℕ → AsyncOp
async_files_update fds nr_fds offset =
    prepared once io_uring_prep_files_update (fds ∷ nr_fds ∷ offset ∷ []) none

unfoldable pub async_openat : ℕ → ℕ → ℕ → ℕ → AsyncOp
async_openat dfd path flags mode =
    prepared once io_uring_prep_openat (dfd ∷ path ∷ flags ∷ mode ∷ []) none

unfoldable pub async_openat_direct : ℕ → ℕ → ℕ → ℕ → ℕ → AsyncOp
async_openat_direct dfd path flags mode file_index =
    prepared once io_uring_prep_openat_direct (dfd ∷ path ∷ flags ∷ mode ∷ file_index ∷ []) none

unfoldable pub async_open : ℕ → ℕ → ℕ → ℕ → AsyncOp
unfolding async_openat
async_open at_fdcwd path flags mode = async_openat at_fdcwd path flags mode

unfoldable pub async_open_direct : ℕ → ℕ → ℕ → ℕ → ℕ → AsyncOp
unfolding async_openat_direct
async_open_direct at_fdcwd path flags mode file_index =
    async_openat_direct at_fdcwd path flags mode file_index

unfoldable pub async_statx : ℕ → ℕ → ℕ → ℕ → ℕ → AsyncOp
async_statx dfd path flags mask statxbuf =
    prepared once io_uring_prep_statx (dfd ∷ path ∷ flags ∷ mask ∷ statxbuf ∷ []) none

unfoldable pub async_madvise : ℕ → ℕ → ℕ → AsyncOp
async_madvise addr length advice =
    prepared once io_uring_prep_madvise (addr ∷ length ∷ advice ∷ []) none

unfoldable pub async_madvise64 : ℕ → ℕ → ℕ → AsyncOp
async_madvise64 addr length advice =
    prepared once io_uring_prep_madvise64 (addr ∷ length ∷ advice ∷ []) none

unfoldable pub async_openat2 : ℕ → ℕ → ℕ → AsyncOp
async_openat2 dfd path how = prepared once io_uring_prep_openat2 (dfd ∷ path ∷ how ∷ []) none

unfoldable pub async_openat2_direct : ℕ → ℕ → ℕ → ℕ → AsyncOp
async_openat2_direct dfd path how file_index =
    prepared once io_uring_prep_openat2_direct (dfd ∷ path ∷ how ∷ file_index ∷ []) none

unfoldable pub async_unlinkat : ℕ → ℕ → ℕ → AsyncOp
async_unlinkat dfd path flags = prepared once io_uring_prep_unlinkat (dfd ∷ path ∷ flags ∷ []) none

unfoldable pub async_unlink : ℕ → ℕ → ℕ → AsyncOp
unfolding async_unlinkat
async_unlink at_fdcwd path flags = async_unlinkat at_fdcwd path flags

unfoldable pub async_renameat : ℕ → ℕ → ℕ → ℕ → ℕ → AsyncOp
async_renameat olddfd oldpath newdfd newpath flags =
    prepared once io_uring_prep_renameat (olddfd ∷ oldpath ∷ newdfd ∷ newpath ∷ flags ∷ []) none

unfoldable pub async_rename : ℕ → ℕ → ℕ → AsyncOp
unfolding async_renameat
async_rename at_fdcwd oldpath newpath = async_renameat at_fdcwd oldpath at_fdcwd newpath 0

unfoldable pub async_mkdirat : ℕ → ℕ → ℕ → AsyncOp
async_mkdirat dfd path mode = prepared once io_uring_prep_mkdirat (dfd ∷ path ∷ mode ∷ []) none

unfoldable pub async_mkdir : ℕ → ℕ → ℕ → AsyncOp
unfolding async_mkdirat
async_mkdir at_fdcwd path mode = async_mkdirat at_fdcwd path mode

unfoldable pub async_symlinkat : ℕ → ℕ → ℕ → AsyncOp
async_symlinkat target newdirfd linkpath =
    prepared once io_uring_prep_symlinkat (target ∷ newdirfd ∷ linkpath ∷ []) none

unfoldable pub async_symlink : ℕ → ℕ → ℕ → AsyncOp
unfolding async_symlinkat
async_symlink at_fdcwd target linkpath = async_symlinkat target at_fdcwd linkpath

unfoldable pub async_linkat : ℕ → ℕ → ℕ → ℕ → ℕ → AsyncOp
async_linkat olddfd oldpath newdfd newpath flags =
    prepared once io_uring_prep_linkat (olddfd ∷ oldpath ∷ newdfd ∷ newpath ∷ flags ∷ []) none

unfoldable pub async_link : ℕ → ℕ → ℕ → ℕ → AsyncOp
unfolding async_linkat
async_link at_fdcwd oldpath newpath flags = async_linkat at_fdcwd oldpath at_fdcwd newpath flags

unfoldable pub async_getxattr : ℕ → ℕ → ℕ → ℕ → AsyncOp
async_getxattr name value path len =
    prepared once io_uring_prep_getxattr (name ∷ value ∷ path ∷ len ∷ []) none

unfoldable pub async_setxattr : ℕ → ℕ → ℕ → ℕ → ℕ → AsyncOp
async_setxattr name value path flags len =
    prepared once io_uring_prep_setxattr (name ∷ value ∷ path ∷ flags ∷ len ∷ []) none

unfoldable pub async_fgetxattr : ℕ → ℕ → ℕ → ℕ → AsyncOp
async_fgetxattr fd name value len =
    prepared once io_uring_prep_fgetxattr (fd ∷ name ∷ value ∷ len ∷ []) none

unfoldable pub async_fsetxattr : ℕ → ℕ → ℕ → ℕ → ℕ → AsyncOp
async_fsetxattr fd name value flags len =
    prepared once io_uring_prep_fsetxattr (fd ∷ name ∷ value ∷ flags ∷ len ∷ []) none

unfoldable pub async_socket : ℕ → ℕ → ℕ → ℕ → AsyncOp
async_socket domain socket_type protocol flags =
    prepared once io_uring_prep_socket (domain ∷ socket_type ∷ protocol ∷ flags ∷ []) none

unfoldable pub async_socket_direct : ℕ → ℕ → ℕ → ℕ → ℕ → AsyncOp
async_socket_direct domain socket_type protocol file_index flags =
    prepared once io_uring_prep_socket_direct
      (domain ∷ socket_type ∷ protocol ∷ file_index ∷ flags ∷ []) none

unfoldable pub async_waitid : ℕ → ℕ → ℕ → ℕ → ℕ → AsyncOp
async_waitid idtype id infop options flags =
    prepared once io_uring_prep_waitid (idtype ∷ id ∷ infop ∷ options ∷ flags ∷ []) none

unfoldable pub async_futex_wake : ℕ → ℕ → ℕ → ℕ → ℕ → AsyncOp
async_futex_wake futex val mask futex_flags flags =
    prepared once io_uring_prep_futex_wake (futex ∷ val ∷ mask ∷ futex_flags ∷ flags ∷ []) none

unfoldable pub async_futex_wait : ℕ → ℕ → ℕ → ℕ → ℕ → AsyncOp
async_futex_wait futex val mask futex_flags flags =
    prepared once io_uring_prep_futex_wait (futex ∷ val ∷ mask ∷ futex_flags ∷ flags ∷ []) none

unfoldable pub async_futex_waitv : ℕ → ℕ → ℕ → AsyncOp
async_futex_waitv futex nr_futex flags =
    prepared once io_uring_prep_futex_waitv (futex ∷ nr_futex ∷ flags ∷ []) none

unfoldable pub async_fixed_fd_install : ℕ → ℕ → AsyncOp
async_fixed_fd_install fixed_fd flags =
    prepared once io_uring_prep_fixed_fd_install (fixed_fd ∷ flags ∷ []) none

unfoldable pub async_epoll_ctl : ℕ → ℕ → ℕ → ℕ → AsyncOp
async_epoll_ctl epfd fd operation ev =
    prepared once io_uring_prep_epoll_ctl (epfd ∷ fd ∷ operation ∷ ev ∷ []) none

unfoldable pub async_epoll_wait : ℕ → ℕ → ℕ → ℕ → AsyncOp
async_epoll_wait fd events maxevents flags =
    prepared once io_uring_prep_epoll_wait (fd ∷ events ∷ maxevents ∷ flags ∷ []) none

unfoldable pub async_pipe : ℕ → ℕ → AsyncOp
async_pipe fds pipe_flags = prepared once io_uring_prep_pipe (fds ∷ pipe_flags ∷ []) none

unfoldable pub async_pipe_direct : ℕ → ℕ → ℕ → AsyncOp
async_pipe_direct fds pipe_flags file_index =
    prepared once io_uring_prep_pipe_direct (fds ∷ pipe_flags ∷ file_index ∷ []) none
