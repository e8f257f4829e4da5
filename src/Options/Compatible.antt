-- ===== src/Options/Compatible.antt =====
-- include/condy/runtime_options.hpp: which options go together, said once, against the checks that
-- are spread over the setters.
use condy.Prelude.{
  ◌≡◌, refl, Bool, true, some, List, [], ◌∷◌, ◌&&◌, ◌||◌, not, ◌⊎◌, inl, inr, Bool-cases, arith,
  if◌then◌else◌, exception, ok, abort,
}
use condy.Options.{
  RuntimeOptions, Setter, event_interval, sq_size, cq_size, submit_batch, disable_register_ring_fd,
  iopoll, hybrid_iopoll, defer_taskrun, coop_taskrun, sqe128, cqe32, sqe_mixed, cqe_mixed,
  sq_rewind, sqpoll, attach_wq, no_mmap, apply, configure, enable_hybrid_iopoll, enable_sqpoll,
  enable_defer_taskrun, enable_coop_taskrun, enable_sqe128, enable_cqe32, enable_sqe_mixed,
  enable_cqe_mixed, enable_sq_rewind, default_options,
}

-- Hybrid polling needs polling, the kernel thread excludes both modes of task work and the rewound
-- queue, the two modes exclude one another, and a ring of wide entries is not one of mixed entries.
abbrev pub compatible : RuntimeOptions → Bool
compatible o =
    (not o.enable_hybrid_iopoll || o.enable_iopoll)
    && not (o.enable_sqpoll && o.enable_defer_taskrun)
    && not (o.enable_sqpoll && o.enable_coop_taskrun)
    && not (o.enable_sqpoll && o.enable_sq_rewind)
    && not (o.enable_defer_taskrun && o.enable_coop_taskrun)
    && not (o.enable_sqe128 && o.enable_sqe_mixed)
    && not (o.enable_cqe32 && o.enable_cqe_mixed)

-- What a setter sets, with no check.
abbrev pub written : Setter → RuntimeOptions → RuntimeOptions
written (event_interval v) o = record o { event_interval = v }
written (sq_size v) o = record o { sq_size = v }
written (cq_size v) o = record o { cq_size = v }
written (submit_batch v) o = record o { submit_batch = v }
written disable_register_ring_fd o = record o { disable_register_ring_fd = true }
written iopoll o = record o { enable_iopoll = true }
written hybrid_iopoll o = record o { enable_hybrid_iopoll = true }
written defer_taskrun o = record o { enable_defer_taskrun = true }
written coop_taskrun o = record o { enable_coop_taskrun = true }
written sqe128 o = record o { enable_sqe128 = true }
written cqe32 o = record o { enable_cqe32 = true }
written sqe_mixed o = record o { enable_sqe_mixed = true }
written cqe_mixed o = record o { enable_cqe_mixed = true }
written sq_rewind o = record o { enable_sq_rewind = true }
written (sqpoll ms cpu) o = record o {
  enable_sqpoll = true;
  sqpoll_idle_time_ms = ms;
  sqpoll_thread_cpu = cpu;
}
written (attach_wq target) o = record o { attach_wq_target = some target }
written (no_mmap buf size) o = record o {
  enable_no_mmap = true;
  no_mmap_buf = buf;
  no_mmap_buf_size = size;
}

-- On compatible options a setter succeeds exactly when the options it would leave are compatible:
-- it then leaves those, and otherwise it throws.
pub apply_lem :
    (s : Setter) (o : RuntimeOptions)
    → compatible o ≡ true
    → apply s o ≡ (if compatible (written s o) then ok (written s o) else abort exception)
unfolding apply enable_hybrid_iopoll enable_sqpoll enable_defer_taskrun enable_coop_taskrun
    enable_sqe128 enable_cqe32 enable_sqe_mixed enable_cqe_mixed enable_sq_rewind
apply_lem (event_interval v) o h = ground arith
apply_lem (sq_size v) o h = ground arith
apply_lem (cq_size v) o h = ground arith
apply_lem (submit_batch v) o h = ground arith
apply_lem disable_register_ring_fd o h = ground arith
apply_lem iopoll o h = ground arith
apply_lem hybrid_iopoll o h = ground arith
apply_lem defer_taskrun o h = ground arith
apply_lem coop_taskrun o h = ground arith
apply_lem sqe128 o h = ground arith
apply_lem cqe32 o h = ground arith
apply_lem sqe_mixed o h = ground arith
apply_lem cqe_mixed o h = ground arith
apply_lem sq_rewind o h = ground arith
apply_lem (sqpoll ms cpu) o h = ground arith
apply_lem (attach_wq target) o h = ground arith
apply_lem (no_mmap buf size) o h = ground arith

abbrev pub written_all : List Setter → RuntimeOptions → RuntimeOptions
written_all [] o = o
written_all (s ∷ ss) o = written_all ss (written s o)

configure-compatible :
    (ss : List Setter) (o : RuntimeOptions)
    → compatible o ≡ true
    → (configure ss o ≡ abort exception)
      ⊎ (configure ss o ≡ ok (written_all ss o)) × (compatible (written_all ss o) ≡ true)
unfolding configure
configure-compatible [] o h = inr (refl, h)
configure-compatible (s ∷ ss) o h = elim (Bool-cases (compatible (written s o))) [
  | inl e ↦ simp (apply_lem s o h, e) (configure-compatible ss (written s o) e)
  | inr e ↦ inl (simp (apply_lem s o h, e))
]

-- A chain of setters from the default options either throws, or leaves all that its setters wrote,
-- and these options are compatible.
pub configure-default :
    (ss : List Setter)
    → (configure ss default_options ≡ abort exception)
      ⊎ (configure ss default_options ≡ ok (written_all ss default_options))
        × (compatible (written_all ss default_options) ≡ true)
configure-default ss = configure-compatible ss default_options refl
