-- ===== src/Setup.antt =====
-- include/condy/runtime.hpp: `Runtime::create_ring_`, from the options to what liburing is asked for.
-- A flag stands by its name: the numbers belong to the kernel's headers. `ring_fd` gives the file
-- descriptor of the ring of another runtime. The numbers in `io_uring_params` have 32 bits.
pub mod Flags
use condy.Prelude.{
  ℕ, ◌-◌, ◌%◌, ◌^◌, min, Bool, true, false, Option, none, some, List, [], ◌∷◌, ◌++◌, ◌==◌,
  if◌then◌else◌, not, Outcome, ok, check, ◌>>=◌, ◌>>◌,
}
use condy.Prelude.Words.{size_max}
use condy.Options.{RuntimeOptions}

pub data Flag : Type 0 where
  clamp single_issuer submit_all r_disabled cqsize iopoll hybrid_iopoll sqpoll sq_aff : Flag
  attach_wq defer_taskrun taskrun_flag coop_taskrun sqe128 cqe32 sqe_mixed cqe_mixed : Flag
  no_mmap sq_rewind : Flag

-- The fields of `io_uring_params` that are set, with the other arguments of `detail::Ring`.
pub record Setup : Type 0 where
  pub entries : ℕ
  pub flags : List Flag
  pub cq_entries : ℕ
  pub sq_thread_idle : ℕ
  pub sq_thread_cpu : ℕ
  pub wq_fd : ℕ
  pub buf : Option ℕ
  pub buf_size : ℕ
  pub submit_batch : ℕ

abbrev pub with_flag : Bool → List Flag → List Flag
with_flag b fs = if b then fs else []

unfoldable pub affinity : Option ℕ → List Flag
affinity none = []
affinity (some cpu) = sq_aff ∷ []

unfoldable pub attached : Option ℕ → List Flag
attached none = []
attached (some target) = attach_wq ∷ []

-- The flags in the order in which the function sets them.
unfoldable pub setup_flags : RuntimeOptions → List Flag
unfolding affinity attached
setup_flags o =
    clamp
    ∷ single_issuer
    ∷ submit_all
    ∷ r_disabled
    ∷ (with_flag (not (o.cq_size == 0)) (cqsize ∷ [])
        ++ (with_flag o.enable_iopoll
              (iopoll ∷ with_flag o.enable_hybrid_iopoll (hybrid_iopoll ∷ []))
            ++ (with_flag o.enable_sqpoll (sqpoll ∷ affinity o.sqpoll_thread_cpu)
                ++ (attached o.attach_wq_target
                    ++ (with_flag o.enable_defer_taskrun (defer_taskrun ∷ taskrun_flag ∷ [])
                        ++ (with_flag o.enable_coop_taskrun (coop_taskrun ∷ taskrun_flag ∷ [])
                            ++ (with_flag o.enable_sqe128 (sqe128 ∷ [])
                                ++ (with_flag o.enable_cqe32 (cqe32 ∷ [])
                                    ++ (with_flag o.enable_sqe_mixed (sqe_mixed ∷ [])
                                        ++ (with_flag o.enable_cqe_mixed (cqe_mixed ∷ [])
                                            ++ (with_flag o.enable_no_mmap (no_mmap ∷ [])
                                                ++ with_flag o.enable_sq_rewind
                                                    (sq_rewind ∷ []))))))))))))

unfoldable pub batch_of : RuntimeOptions → ℕ
batch_of o =
    if o.submit_batch == 0
    then (if o.enable_sqpoll then min 32 o.sq_size else size_max - 1)
    else o.submit_batch

abbrev or_zero : Option ℕ → ℕ
or_zero none = 0
or_zero (some n) = n

abbrev fd_of : (ℕ → ℕ) → Option ℕ → ℕ
fd_of ring_fd none = 0
fd_of ring_fd (some other) = ring_fd other

unfoldable pub setup_of : (ℕ → ℕ) → RuntimeOptions → Setup
setup_of ring_fd o = record {
  entries = o.sq_size % 2 ^ 32;
  flags = setup_flags o;
  cq_entries = o.cq_size % 2 ^ 32;
  sq_thread_idle = if o.enable_sqpoll then o.sqpoll_idle_time_ms % 2 ^ 32 else 0;
  sq_thread_cpu = if o.enable_sqpoll then or_zero o.sqpoll_thread_cpu else 0;
  wq_fd = fd_of ring_fd o.attach_wq_target;
  buf = if o.enable_no_mmap then o.no_mmap_buf else none;
  buf_size = if o.enable_no_mmap then o.no_mmap_buf_size else 0;
  submit_batch = batch_of o;
}

unfoldable pub create_ring : (ℕ → ℕ) → RuntimeOptions → Outcome Setup
unfolding batch_of
create_ring ring_fd o = do check (if batch_of o == 0 then false else true); ok (setup_of ring_fd o)
