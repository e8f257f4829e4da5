-- ===== src/Options.antt =====
-- include/condy/runtime_options.hpp: `RuntimeOptions` with its setters, of a build against a liburing
-- that has every option. A setter that throws `std::logic_error` ends in `abort exception`; one that
-- returns `*this` gives the options it leaves.
pub mod Compatible
use condy.Prelude.{
  ℕ, Bool, true, false, Option, none, some, List, [], ◌∷◌, if◌then◌else◌, not, exception, Outcome,
  ok, abort, ◌>>=◌,
}

pub record RuntimeOptions : Type 0 where
  pub event_interval : ℕ
  pub disable_register_ring_fd : Bool
  pub enable_iopoll : Bool
  pub enable_hybrid_iopoll : Bool
  pub enable_sqpoll : Bool
  pub sqpoll_idle_time_ms : ℕ
  pub sqpoll_thread_cpu : Option ℕ
  pub enable_defer_taskrun : Bool
  pub sq_size : ℕ
  pub cq_size : ℕ
  pub submit_batch : ℕ
  pub attach_wq_target : Option ℕ
  pub enable_coop_taskrun : Bool
  pub enable_sqe128 : Bool
  pub enable_cqe32 : Bool
  pub enable_sqe_mixed : Bool
  pub enable_cqe_mixed : Bool
  pub enable_no_mmap : Bool
  pub no_mmap_buf : Option ℕ
  pub no_mmap_buf_size : ℕ
  pub enable_sq_rewind : Bool

abbrev pub default_options : RuntimeOptions
default_options = record {
  event_interval = 61;
  disable_register_ring_fd = false;
  enable_iopoll = false;
  enable_hybrid_iopoll = false;
  enable_sqpoll = false;
  sqpoll_idle_time_ms = 1000;
  sqpoll_thread_cpu = none;
  enable_defer_taskrun = false;
  sq_size = 128;
  cq_size = 0;
  submit_batch = 0;
  attach_wq_target = none;
  enable_coop_taskrun = false;
  enable_sqe128 = false;
  enable_cqe32 = false;
  enable_sqe_mixed = false;
  enable_cqe_mixed = false;
  enable_no_mmap = false;
  no_mmap_buf = none;
  no_mmap_buf_size = 0;
  enable_sq_rewind = false;
}

-- The calls of setters, with their arguments. A runtime and a buffer stand by their addresses.
pub data Setter : Type 0 where
  event_interval sq_size cq_size submit_batch : ℕ → Setter
  disable_register_ring_fd iopoll hybrid_iopoll defer_taskrun coop_taskrun : Setter
  sqe128 cqe32 sqe_mixed cqe_mixed sq_rewind : Setter
  sqpoll : ℕ → Option ℕ → Setter
  attach_wq : ℕ → Setter
  no_mmap : Option ℕ → ℕ → Setter

unfoldable pub enable_hybrid_iopoll : RuntimeOptions → Outcome RuntimeOptions
enable_hybrid_iopoll o =
    if not o.enable_iopoll then abort exception else ok (record o { enable_hybrid_iopoll = true })

unfoldable pub enable_sqpoll : ℕ → Option ℕ → RuntimeOptions → Outcome RuntimeOptions
enable_sqpoll idle_time_ms cpu o =
    if o.enable_defer_taskrun
    then abort exception
    else if o.enable_coop_taskrun
    then abort exception
    else if o.enable_sq_rewind
    then abort exception
    else ok (record o {
      enable_sqpoll = true;
      sqpoll_idle_time_ms = idle_time_ms;
      sqpoll_thread_cpu = cpu;
    })

unfoldable pub enable_defer_taskrun : RuntimeOptions → Outcome RuntimeOptions
enable_defer_taskrun o =
    if o.enable_sqpoll
    then abort exception
    else if o.enable_coop_taskrun
    then abort exception
    else ok (record o { enable_defer_taskrun = true })

unfoldable pub enable_coop_taskrun : RuntimeOptions → Outcome RuntimeOptions
enable_coop_taskrun o =
    if o.enable_sqpoll
    then abort exception
    else if o.enable_defer_taskrun
    then abort exception
    else ok (record o { enable_coop_taskrun = true })

unfoldable pub enable_sqe128 : RuntimeOptions → Outcome RuntimeOptions
enable_sqe128 o =
    if o.enable_sqe_mixed then abort exception else ok (record o { enable_sqe128 = true })

unfoldable pub enable_cqe32 : RuntimeOptions → Outcome RuntimeOptions
enable_cqe32 o =
    if o.enable_cqe_mixed then abort exception else ok (record o { enable_cqe32 = true })

unfoldable pub enable_sqe_mixed : RuntimeOptions → Outcome RuntimeOptions
enable_sqe_mixed o =
    if o.enable_sqe128 then abort exception else ok (record o { enable_sqe_mixed = true })

unfoldable pub enable_cqe_mixed : RuntimeOptions → Outcome RuntimeOptions
enable_cqe_mixed o =
    if o.enable_cqe32 then abort exception else ok (record o { enable_cqe_mixed = true })

unfoldable pub enable_sq_rewind : RuntimeOptions → Outcome RuntimeOptions
enable_sq_rewind o =
    if o.enable_sqpoll then abort exception else ok (record o { enable_sq_rewind = true })

-- The setter that a call names.
unfoldable pub apply : Setter → RuntimeOptions → Outcome RuntimeOptions
unfolding enable_hybrid_iopoll enable_sqpoll enable_defer_taskrun enable_coop_taskrun enable_sqe128
    enable_cqe32 enable_sqe_mixed enable_cqe_mixed enable_sq_rewind
apply (event_interval v) o = ok (record o { event_interval = v })
apply (sq_size v) o = ok (record o { sq_size = v })
apply (cq_size v) o = ok (record o { cq_size = v })
apply (submit_batch v) o = ok (record o { submit_batch = v })
apply disable_register_ring_fd o = ok (record o { disable_register_ring_fd = true })
apply iopoll o = ok (record o { enable_iopoll = true })
apply hybrid_iopoll o = enable_hybrid_iopoll o
apply defer_taskrun o = enable_defer_taskrun o
apply coop_taskrun o = enable_coop_taskrun o
apply sqe128 o = enable_sqe128 o
apply cqe32 o = enable_cqe32 o
apply sqe_mixed o = enable_sqe_mixed o
apply cqe_mixed o = enable_cqe_mixed o
apply sq_rewind o = enable_sq_rewind o
apply (sqpoll ms cpu) o = enable_sqpoll ms cpu o
apply (attach_wq target) o = ok (record o { attach_wq_target = some target })
apply (no_mmap buf size) o =
    ok (record o { enable_no_mmap = true; no_mmap_buf = buf; no_mmap_buf_size = size })

-- A chain of setters, `options.a().b()`.
unfoldable pub configure : List Setter → RuntimeOptions → Outcome RuntimeOptions
unfolding apply
configure [] o = ok o
configure (s ∷ ss) o = do o1 ← apply s o; configure ss o1
