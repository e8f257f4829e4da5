-- ===== src/Setup/Flags.antt =====
-- include/condy/runtime.hpp: what the flags of a ring say of the options they come from.
use condy.Prelude.{
  ℕ, ◌≡◌, ◌≢◌, refl, ◌∙◌, Bool, true, false, Option, none, some, List, [], ◌∷◌, ◌++◌, ◌&&◌, ◌||◌,
  not, ◌==◌, ◌⊎◌, inl, inr, abort, assertion, exception, ok, arith, Bool-cases, ==_iff,
}
use condy.Options.{RuntimeOptions, Setter, configure, default_options}
use condy.Options.Compatible.{compatible, written_all, configure-default}
use condy.Setup.{
  Flag, clamp, single_issuer, submit_all, r_disabled, cqsize, iopoll, hybrid_iopoll, sqpoll, sq_aff,
  attach_wq, defer_taskrun, taskrun_flag, coop_taskrun, sqe128, cqe32, sqe_mixed, cqe_mixed,
  no_mmap, sq_rewind, Setup, with_flag, affinity, attached, setup_flags, batch_of, setup_of,
  create_ring,
}

-- A number for each flag, to compare them by.
abbrev pub number : Flag → ℕ
number clamp = 0
number single_issuer = 1
number submit_all = 2
number r_disabled = 3
number cqsize = 4
number iopoll = 5
number hybrid_iopoll = 6
number sqpoll = 7
number sq_aff = 8
number attach_wq = 9
number defer_taskrun = 10
number taskrun_flag = 11
number coop_taskrun = 12
number sqe128 = 13
number cqe32 = 14
number sqe_mixed = 15
number cqe_mixed = 16
number no_mmap = 17
number sq_rewind = 18

abbrev pub has_flag : Flag → List Flag → Bool
has_flag f [] = false
has_flag f (g ∷ gs) = (number f == number g) || has_flag f gs

-- Hybrid polling comes with polling, the kernel thread comes with no mode of task work and no rewound
-- queue, and modes that exclude each other do not meet.
abbrev pub coherent : List Flag → Bool
coherent fs =
    (not (has_flag hybrid_iopoll fs) || has_flag iopoll fs)
    && not (has_flag sqpoll fs && has_flag taskrun_flag fs)
    && not (has_flag sqpoll fs && has_flag sq_rewind fs)
    && not (has_flag defer_taskrun fs && has_flag coop_taskrun fs)
    && not (has_flag sqe128 fs && has_flag sqe_mixed fs)
    && not (has_flag cqe32 fs && has_flag cqe_mixed fs)

or_step : (a b c d : Bool) → b ≡ (c || d) → (a || b) ≡ ((a || c) || d)
or_step true b c d e = refl
or_step false b c d e = e

has_flag-append :
    (f : Flag) (xs ys : List Flag) → has_flag f (xs ++ ys) ≡ (has_flag f xs || has_flag f ys)
has_flag-append f [] ys = refl
has_flag-append f (x ∷ xs) ys = or_step (number f == number x) _ _ _ (has_flag-append f xs ys)

has_flag-with :
    (f : Flag) (b : Bool) (xs : List Flag) → has_flag f (with_flag b xs) ≡ (b && has_flag f xs)
has_flag-with f true xs = refl
has_flag-with f false xs = refl

affinity-only :
    (f : Flag) (cpu : Option ℕ) → (number f == 8) ≡ false → has_flag f (affinity cpu) ≡ false
unfolding affinity
affinity-only f none h = refl
affinity-only f (some cpu) h = simp h

attached-only :
    (f : Flag) (t : Option ℕ) → (number f == 9) ≡ false → has_flag f (attached t) ≡ false
unfolding attached
attached-only f none h = refl
attached-only f (some t) h = simp h

or_false : (b : Bool) → (b || false) ≡ b
or_false true = refl
or_false false = refl

and_false : (b : Bool) → (b && false) ≡ false
and_false true = refl
and_false false = refl

and_true : (b : Bool) → (b && true) ≡ b
and_true true = refl
and_true false = refl

ruleset membership = (has_flag-append, has_flag-with, or_false, and_false, and_true)

module _ (o : RuntimeOptions) where
  abbrev fs : List Flag
  fs = setup_flags o

  -- The flags but for those that a value gives, `SQ_AFF` and `ATTACH_WQ`.
  abbrev plain : List Flag
  plain =
      clamp
      ∷ single_issuer
      ∷ submit_all
      ∷ r_disabled
      ∷ (with_flag (not (o.cq_size == 0)) (cqsize ∷ [])
          ++ (with_flag o.enable_iopoll
                (iopoll ∷ with_flag o.enable_hybrid_iopoll (hybrid_iopoll ∷ []))
              ++ (with_flag o.enable_sqpoll (sqpoll ∷ [])
                  ++ (with_flag o.enable_defer_taskrun (defer_taskrun ∷ taskrun_flag ∷ [])
                      ++ (with_flag o.enable_coop_taskrun (coop_taskrun ∷ taskrun_flag ∷ [])
                          ++ (with_flag o.enable_sqe128 (sqe128 ∷ [])
                              ++ (with_flag o.enable_cqe32 (cqe32 ∷ [])
                                  ++ (with_flag o.enable_sqe_mixed (sqe_mixed ∷ [])
                                      ++ (with_flag o.enable_cqe_mixed (cqe_mixed ∷ [])
                                          ++ (with_flag o.enable_no_mmap (no_mmap ∷ [])
                                              ++ with_flag o.enable_sq_rewind
                                                  (sq_rewind ∷ [])))))))))))

  flags-plain :
      (f : Flag)
      → (number f == 8) ≡ false
      → (number f == 9) ≡ false
      → has_flag f fs ≡ has_flag f plain
  unfolding setup_flags
  flags-plain f p q = simp (
    has_flag-append,
    affinity-only f o.sqpoll_thread_cpu p,
    attached-only f o.attach_wq_target q,
    has_flag-with,
    or_false,
  )

  flags-sqpoll : has_flag sqpoll fs ≡ o.enable_sqpoll
  flags-sqpoll = flags-plain sqpoll refl refl ∙ simp membership

  flags-iopoll : has_flag iopoll fs ≡ o.enable_iopoll
  flags-iopoll = flags-plain iopoll refl refl ∙ simp membership

  flags-hybrid : has_flag hybrid_iopoll fs ≡ (o.enable_iopoll && o.enable_hybrid_iopoll)
  flags-hybrid = flags-plain hybrid_iopoll refl refl ∙ simp membership

  flags-defer : has_flag defer_taskrun fs ≡ o.enable_defer_taskrun
  flags-defer = flags-plain defer_taskrun refl refl ∙ simp membership

  flags-coop : has_flag coop_taskrun fs ≡ o.enable_coop_taskrun
  flags-coop = flags-plain coop_taskrun refl refl ∙ simp membership

  flags-taskrun : has_flag taskrun_flag fs ≡ (o.enable_defer_taskrun || o.enable_coop_taskrun)
  flags-taskrun = flags-plain taskrun_flag refl refl ∙ simp membership

  flags-sqe128 : has_flag sqe128 fs ≡ o.enable_sqe128
  flags-sqe128 = flags-plain sqe128 refl refl ∙ simp membership

  flags-cqe32 : has_flag cqe32 fs ≡ o.enable_cqe32
  flags-cqe32 = flags-plain cqe32 refl refl ∙ simp membership

  flags-sqe_mixed : has_flag sqe_mixed fs ≡ o.enable_sqe_mixed
  flags-sqe_mixed = flags-plain sqe_mixed refl refl ∙ simp membership

  flags-cqe_mixed : has_flag cqe_mixed fs ≡ o.enable_cqe_mixed
  flags-cqe_mixed = flags-plain cqe_mixed refl refl ∙ simp membership

  flags-rewind : has_flag sq_rewind fs ≡ o.enable_sq_rewind
  flags-rewind = flags-plain sq_rewind refl refl ∙ simp membership

  fs-coherent : compatible o ≡ true → coherent fs ≡ true
  fs-coherent h = ground (
    arith, flags-sqpoll, flags-iopoll, flags-hybrid, flags-defer, flags-coop, flags-taskrun,
    flags-sqe128, flags-cqe32, flags-sqe_mixed, flags-cqe_mixed, flags-rewind,
  )

  -- Either an assertion fails, for options that poll the submission queue in the kernel and ask for
  -- neither an entry nor a batch, or the batch is positive and the flags are coherent.
  abbrev pub Created : (ℕ → ℕ) → Type 0
  Created ring_fd =
      (create_ring ring_fd o ≡ abort assertion)
        × (o.submit_batch ≡ 0)
        × (o.enable_sqpoll ≡ true)
        × (o.sq_size ≡ 0)
      ⊎ ((s : Setup) × (create_ring ring_fd o ≡ ok s)
          × (s.submit_batch ≢ 0)
          × (coherent s.flags ≡ true))

  not_both : (b : Bool) → b ≡ false → b ≡ true → ⊥
  not_both b p q = ground arith

  no_batch : batch_of o ≡ 0 → (o.submit_batch ≡ 0) × (o.enable_sqpoll ≡ true) × (o.sq_size ≡ 0)
  unfolding batch_of
  no_batch h = ground arith

  create_ring-coherent : (ring_fd : ℕ → ℕ) → compatible o ≡ true → Created ring_fd
  unfolding create_ring setup_of
  create_ring-coherent ring_fd h = elim (Bool-cases (batch_of o == 0)) [
    | inl e ↦ let (a, b, c) = no_batch ((==_iff (batch_of o) 0).0 e) in inl (simp e, a, b, c)
    | inr e ↦ inr (
      setup_of ring_fd o,
      simp e,
      λ (z : batch_of o ≡ 0). not_both (batch_of o == 0) e ((==_iff (batch_of o) 0).1 z),
      fs-coherent h,
    )
  ]

-- A ring is set up from whatever options a chain of setters accepts: the flags passed to the kernel
-- are coherent and the submission batch is positive, unless the options poll the submission queue in
-- the kernel with no entry and no batch, for which an assertion fails.
pub create_ring-configure :
    (ring_fd : ℕ → ℕ) (ss : List Setter)
    → (configure ss default_options ≡ abort exception)
      ⊎ (configure ss default_options ≡ ok (written_all ss default_options))
        × Created (written_all ss default_options) ring_fd
create_ring-configure ring_fd ss = elim (configure-default ss) [
  | inl thrown ↦ inl thrown
  | inr (set, fits) ↦ inr (set, create_ring-coherent (written_all ss default_options) ring_fd fits)
]
