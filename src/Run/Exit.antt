-- ===== src/Run/Exit.antt =====
-- include/condy/runtime.hpp: when `run` returns.
use condy.Prelude.{
  ℕ, zero, suc, ◌≡◌, refl, sym, ap, ◌∙◌, Bool, true, false, some, none, List, [], ◌∷◌, ◌==◌, ==_iff,
  if◌then◌else◌, inl, inr, ◌⊎◌, Option, Fault, exception, out_of_fuel, Outcome, ok, abort, ◌>>=◌,
  arith, leb,
}
use condy.Prelude.Int.{ℤ}
use condy.Prelude.Words.{add_size}
use mathlib.Core.Path.{subst}
use condy.Run.{
  Works, EventLoop, Did, invoked, waited, left, is_left, ends_left, local_queue, Uring, flush_ring,
  flush_ring_wait, take_work, round, next_round, rounds, start_run, end_run, return_if_left, run,
}

bind-ok :
    {A B : Type 0} (m : Outcome A) (f : A → Outcome B) (b : B)
    → (m >>= f) ≡ ok b
    → (a : A) × (m ≡ ok a) × (f a ≡ ok b)
bind-ok (ok a) f b h = (a, refl, h)
bind-ok (abort e) f b h = absurd (ground arith)

clash : true ≡ false → ⊥
clash h = ground arith

value_or : {A : Type 0} → A → Outcome A → A
value_or d (ok a) = a
value_or d (abort e) = d

ok_inj : {A : Type 0} (a b : A) → ok a ≡ ok b → a ≡ b
unfolding value_or
ok_inj a b h = ap (value_or a) h

not_left : (d did : Did) → is_left d ≡ false → d ≡ did → is_left did ≡ true → ⊥
not_left d did stays same is = clash (sym is ∙ ap is_left (sym same) ∙ stays)

leaving :
    {X : Type 0} (b : Bool) (m : Outcome X) (w w' : X) (did : Did)
    → if◌then◌else◌ {A = Outcome (Did × X)} b (ok (left, w)) (m >>= λ w1. ok (waited, w1))
      ≡ ok (did, w')
    → is_left did ≡ true
    → (b ≡ true) × (w ≡ w')
leaving true m w w' did h is = (refl, ap (λ x. x.1) (ok_inj _ _ h))
leaving false m w w' did h is =
    let (w1, _, e) = bind-ok m (λ w1. ok (waited, w1)) (did, w') h in
    absurd (not_left waited did refl (ap (λ x. x.0) (ok_inj _ _ e)) is)

both_true : (a b : Bool) → (if a then b else false) ≡ true → (a ≡ true) × (b ≡ true)
both_true true b h = (refl, h)
both_true false b h = absurd (clash (sym h))

ends_more :
    (did : Bool × Did) (more : List (Bool × Did))
    → is_left did.1 ≡ false
    → ends_left (did ∷ more) ≡ true
    → ends_left more ≡ true
ends_more did [] go h = absurd (clash (sym h ∙ go))
ends_more did (d ∷ ds) go h = h

ok_if :
    {A : Type 0} (b : Bool) (m : Outcome A) (fault : Fault) (a : A)
    → (if b then m else abort fault) ≡ ok a
    → (b ≡ true) × (m ≡ ok a)
ok_if true m fault a h = (refl, h)
ok_if false m fault a h = absurd (ground arith)

-- Nothing is queued or pending, and the loop may be left.
pub record IsIdle {R W : Type 0} (w : Works R W) : Type 0 where
  pub empty : local_queue w ≡ []
  pub settled : w.pending_works ≡ 0
  pub allowed : w.queues.exit_allowed ≡ true

module _ {R W C : Type 0} (uring : Uring R C) (process_cqe : C → Works R W → Outcome (Works R W))
    (invoke : ℕ → Works R W → Works R W) (interrupts : ℕ) where
  take_work-left :
      (q : List ℕ) (w w' : Works R W) (did : Did)
      → local_queue w ≡ q
      → take_work uring process_cqe invoke interrupts q w ≡ ok (did, w')
      → is_left did ≡ true
      → IsIdle w'
  unfolding take_work
  take_work-left [] w w' did here h is =
      let (idle, same) = leaving _ (flush_ring_wait uring process_cqe interrupts w) w w' did h is in
      let (zero_left, may) = both_true (w.pending_works == 0) w.queues.exit_allowed idle in
      subst IsIdle same
        (record { empty = here; settled = (==_iff w.pending_works 0).0 zero_left; allowed = may })
  take_work-left (a ∷ q) w w' did here h is =
      absurd (not_left (invoked a) did refl (ap (λ x. x.0) (ok_inj _ _ h)) is)

  after_take :
      (f : Bool) (w : Works R W) (more : Works R W → EventLoop R W) (did : Bool × Did)
      (l' : EventLoop R W)
      → ((w1 : Works R W) → (more w1).works ≡ w1)
      → ◌>>=◌ {B = (Bool × Did) × EventLoop R W}
          (take_work uring process_cqe invoke interrupts (local_queue w) w)
          (λ (d, w1). ok ((f, d), more w1))
        ≡ ok (did, l')
      → is_left did.1 ≡ true
      → IsIdle l'.works
  after_take f w more did l' same h is =
      let ((d, w1), e, h1) = bind-ok _ _ _ h in
      let pair = ok_inj _ _ h1 in
      subst IsIdle (sym (same w1) ∙ ap (λ x. x.1.works) pair)
        (take_work-left (local_queue w) w w1 d refl e (ap (λ x. is_left x.0.1) pair ∙ is))

  round-left :
      (b : Bool) (l l' : EventLoop R W) (did : Bool × Did)
      → leb l.event_interval (add_size l.tick_count 1) ≡ b
      → round uring process_cqe invoke interrupts l ≡ ok (did, l')
      → is_left did.1 ≡ true
      → IsIdle l'.works
  unfolding round
  round-left true l l' did flush h is =
      let h1 = simp flush at h in
      let (w, _, h2) =
        bind-ok (flush_ring uring process_cqe l.works)
          (λ w.
            ◌>>=◌ {B = (Bool × Did) × EventLoop R W}
              (take_work uring process_cqe invoke interrupts (local_queue w) w)
              (λ (d, w1). ok ((true, d), record l { works = w1; tick_count = 0 })))
          (did, l') h1 in
      after_take true w (λ w1. record l { works = w1; tick_count = 0 }) did l' (λ w1. refl) h2 is
  round-left false l l' did wait h is =
      let h1 = simp wait at h in
      after_take false l.works (λ w1. record l { works = w1; tick_count = add_size l.tick_count 1 })
        did l' (λ w1. refl) h1 is

  next_round-left :
      (b : Bool) (did : Bool × Did) (l1 l' : EventLoop R W)
      (rest : Outcome (List (Bool × Did) × EventLoop R W)) (dids : List (Bool × Did))
      → is_left did.1 ≡ b
      → next_round b did l1 rest ≡ ok (dids, l')
      → ends_left dids ≡ true
      → (is_left did.1 ≡ true) × (l1 ≡ l')
        ⊎ ((more : List (Bool × Did)) × (rest ≡ ok (more, l')) × (ends_left more ≡ true))
  next_round-left true did l1 l' rest dids stop h is = inl (stop, ap (λ x. x.1) (ok_inj _ _ h))
  next_round-left false did l1 l' rest dids go h is =
      let ((more, l2), e, h1) = bind-ok rest (λ (ds, l2). ok (did ∷ ds, l2)) (dids, l') h in
      let pair = ok_inj _ _ h1 in
      inr (
        more,
        e ∙ ap (λ (x : EventLoop R W). ok (more, x)) (ap (λ x. x.1) pair),
        ends_more did more go (ap (λ x. ends_left x.0) pair ∙ is),
      )

  rounds-left :
      (n : ℕ) (l l' : EventLoop R W) (dids : List (Bool × Did))
      → rounds uring process_cqe invoke interrupts n l ≡ ok (dids, l')
      → ends_left dids ≡ true
      → IsIdle l'.works
  unfolding rounds
  rounds-left zero l l' dids h is =
      absurd (clash (sym is ∙ ap (λ x. ends_left x.0) (sym (ok_inj _ _ h))))
  rounds-left (suc n) l l' dids h is =
      let ((did, l1), e, h1) =
        bind-ok (round uring process_cqe invoke interrupts l)
          (λ (did, l1).
            next_round (is_left did.1) did l1 (rounds uring process_cqe invoke interrupts n l1))
          (dids, l') h in
      elim (next_round-left (is_left did.1) did l1 l'
        (rounds uring process_cqe invoke interrupts n l1) dids refl h1 is) [
          | inl (stop, same) ↦
              subst (λ (x : EventLoop R W). IsIdle x.works) same (round-left _ l l1 did refl e stop)
          | inr (more, e', ends) ↦ rounds-left n l1 l' more e' ends
        ]

  start_run-thread :
      (owner : Option ℕ) (enabled : ℤ) (thread : ℕ) (l l1 : EventLoop R W)
      → start_run uring process_cqe invoke interrupts owner enabled thread l ≡ ok l1
      → (owner ≡ none) ⊎ (owner ≡ some thread)
  unfolding start_run
  start_run-thread none enabled thread l l1 h = inl refl
  start_run-thread (some t) enabled thread l l1 h =
      inr (ap some ((==_iff t thread).0 (ok_if (t == thread) _ exception l1 h).0))

  -- `run` returns only in the thread that ran first, and only when its rounds have ended, from the loop
  -- as it was started, in a loop `l1` with no work queued or pending and the exit allowed, of which it has
  -- then reset the ticks and the permission.
  pub run-IsIdle :
      (n : ℕ) (enabled : ℤ) (thread : ℕ) (l l' : EventLoop R W)
      → run uring process_cqe invoke interrupts n enabled thread l ≡ ok l'
      → ((l.run_thread_id ≡ none) ⊎ (l.run_thread_id ≡ some thread))
        × ((l0 l1 : EventLoop R W) × (dids : List (Bool × Did)) × (start_run uring process_cqe
                invoke interrupts l.run_thread_id enabled thread l
              ≡ ok l0)
            × (rounds uring process_cqe invoke interrupts n l0 ≡ ok (dids, l1))
            × IsIdle l1.works
            × (l' ≡ end_run l1))
  unfolding run
  run-IsIdle n enabled thread l l' h =
      let (l0, started, h1) =
        bind-ok (start_run uring process_cqe invoke interrupts l.run_thread_id enabled thread l)
          (λ l0.
            ◌>>=◌ {B = EventLoop R W} (rounds uring process_cqe invoke interrupts n l0)
              return_if_left)
          l' h in
      let ((dids, l1), e, h2) =
        bind-ok (rounds uring process_cqe invoke interrupts n l0) return_if_left l' h1 in
      let (is, same) = ok_if (ends_left dids) (ok (end_run l1)) out_of_fuel l' h2 in
      (
        start_run-thread l.run_thread_id enabled thread l l0 started,
        (l0, l1, dids, started, e, rounds-left n l0 l1 dids e is, sym (ok_inj _ _ same)),
      )
