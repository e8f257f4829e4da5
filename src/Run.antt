-- ===== src/Run.antt =====
-- include/condy/runtime.hpp: `run`, the event loop, with the reaping of completions of
-- include/condy/detail/ring.hpp. The queues are those of Schedule.antt. The code of a work, the
-- processing of a completion and the functions of liburing are parameters; `W` is what else they
-- change. The time that the loop waits in the kernel is one call.
pub mod Exit
pub mod Turns
use condy.Prelude.{
  ℕ, zero, suc, ◌+◌, Bool, true, false, Option, none, some, List, [], ◌∷◌, ◌==◌, leb, if◌then◌else◌,
  panic, exception, out_of_fuel, Outcome, ok, abort, ◌>>=◌, ◌>>◌,
}
use condy.Prelude.Int.{ℤ, pos, negsuc, is_neg}
use condy.Prelude.Words.{add_size}
use condy.Ring.{Ring}
use condy.Schedule.{Runtime, enable}

-- What works and completions change.
pub record Works (R W : Type 0) : Type 0 where
  pub queues : Runtime
  pub pending_works : ℕ
  pub ring : Ring R
  pub world : W

-- With what only the loop changes.
pub record EventLoop (R W : Type 0) : Type 0 where
  pub works : Works R W
  pub tick_count : ℕ
  pub event_interval : ℕ
  pub run_thread_id : Option ℕ

-- A round of the loop: whether the ring was flushed, and what followed.
pub data Did : Type 0 where
  invoked : ℕ → Did
  waited left : Did

abbrev pub is_left : Did → Bool
is_left (invoked a) = false
is_left waited = false
is_left left = true

abbrev pub ends_left : List (Bool × Did) → Bool
ends_left [] = false
ends_left (did ∷ []) = is_left did.1
ends_left (did ∷ d ∷ ds) = ends_left (d ∷ ds)

abbrev pub is_errno : ℕ → ℤ → Bool
is_errno n (pos m) = false
is_errno n (negsuc m) = n == m + 1

-- `EAGAIN` and `EINTR`
abbrev pub eagain : ℕ
eagain = 11

abbrev pub eintr : ℕ
eintr = 4

module _ {R W : Type 0} where
  abbrev pub local_queue : Works R W → List ℕ
  local_queue w = w.queues.local_queue

  abbrev pub set_local_queue : List ℕ → Works R W → Works R W
  set_local_queue q w = record w { queues = record w.queues { local_queue = q } }

  abbrev pub set_uring : R → Works R W → Works R W
  set_uring r w = record w { ring = record w.ring { ring = r } }

  abbrev pub next_round :
      Bool
      → Bool × Did
      → EventLoop R W
      → Outcome (List (Bool × Did) × EventLoop R W)
      → Outcome (List (Bool × Did) × EventLoop R W)
  next_round true did l rest = ok (did ∷ [], l)
  next_round false did l rest = do (dids, l1) ← rest; ok (did ∷ dids, l1)

  -- What the end of `run` resets.
  abbrev pub end_run : EventLoop R W → EventLoop R W
  end_run l = record l {
    tick_count = 0;
    works = record l.works { queues = record l.works.queues { exit_allowed = false } };
  }

  -- The result when the loop was left.
  abbrev pub return_if_left : List (Bool × Did) × EventLoop R W → Outcome (EventLoop R W)
  return_if_left (dids, l) = if ends_left dids then ok (end_run l) else abort out_of_fuel

-- liburing: the code of `io_uring_peek_cqe`, the completions that `io_uring_for_each_cqe` meets, the
-- entries that one takes up, `io_uring_cq_advance` and `io_uring_submit_and_wait`.
pub record Uring (R C : Type 0) : Type 0 where
  pub peek_cqe : R → ℤ
  pub for_each_cqe : R → List C
  pub cqe_nr : C → ℕ
  pub cq_advance : ℕ → R → R
  pub submit_and_wait : R → ℤ × R

module _ {R W C : Type 0} (uring : Uring R C)
    (process_cqe : C → Works R W → Outcome (Works R W)) where
  unfoldable pub reap_each : List C → Works R W → Outcome (ℕ × Works R W)
  reap_each [] w = ok (0, w)
  reap_each (c ∷ cs) w = do
    w1 ← process_cqe c w
    (reaped, w2) ← reap_each cs w1
    ok (uring.cqe_nr c + reaped, w2)

  -- The loop over the completions of both functions, and the advance after it.
  unfoldable pub reap : Works R W → Outcome (ℤ × Works R W)
  unfolding reap_each
  reap w = do
    (reaped, w1) ← reap_each (uring.for_each_cqe w.ring.ring) w
    ok (pos reaped, set_uring (uring.cq_advance reaped w1.ring.ring) w1)

  unfoldable pub reap_completions : Works R W → Outcome (ℤ × Works R W)
  unfolding reap
  reap_completions w =
      let r = uring.peek_cqe w.ring.ring in
      if is_errno eagain r then ok (pos 0, w) else if is_neg r then ok (r, w) else reap w

  -- The first argument bounds the calls that a signal interrupts.
  unfoldable pub reap_completions_wait : ℕ → Works R W → Outcome (ℤ × Works R W)
  unfolding reap
  reap_completions_wait zero w = abort out_of_fuel
  reap_completions_wait (suc k) w =
      let (r, u) = uring.submit_and_wait w.ring.ring in
      let rest = reap_completions_wait k (set_uring u w) in
      if is_neg r
      then (if is_errno eintr r then rest else ok (r, set_uring u w))
      else reap (record w { ring = record w.ring { ring = u; maybe_submit_count = 0 } })

  abbrev pub panic_if_neg : ℤ × Works R W → Outcome (Works R W)
  panic_if_neg (r, w) = if is_neg r then abort panic else ok w

  -- `flush_ring_`
  unfoldable pub flush_ring : Works R W → Outcome (Works R W)
  unfolding reap_completions
  flush_ring w = do r ← reap_completions w; panic_if_neg r

  -- `flush_ring_wait_`
  unfoldable pub flush_ring_wait : ℕ → Works R W → Outcome (Works R W)
  unfolding reap_completions_wait
  flush_ring_wait k w = do r ← reap_completions_wait k w; panic_if_neg r

  module _ (invoke : ℕ → Works R W → Works R W) (interrupts : ℕ) where
    -- A round of the loop after its flush, where the local queue is the first argument.
    unfoldable pub take_work : List ℕ → Works R W → Outcome (Did × Works R W)
    unfolding flush_ring_wait
    take_work (a ∷ rest) w = ok (invoked a, invoke a (set_local_queue rest w))
    take_work [] w =
        if (if w.pending_works == 0 then w.queues.exit_allowed else false)
        then ok (left, w)
        else (do w1 ← flush_ring_wait interrupts w; ok (waited, w1))

    -- A round of the loop in `run`.
    unfoldable pub round : EventLoop R W → Outcome ((Bool × Did) × EventLoop R W)
    unfolding flush_ring take_work
    round l =
        let tick = add_size l.tick_count 1 in
        if leb l.event_interval tick
        then (do
          w ← flush_ring l.works
          (d, w1) ← take_work (local_queue w) w
          ok ((true, d), record l { works = w1; tick_count = 0 }))
        else (do
          (d, w1) ← take_work (local_queue l.works) l.works
          ok ((false, d), record l { works = w1; tick_count = tick }))

    -- At most so many rounds, which end with the loop.
    unfoldable pub rounds : ℕ → EventLoop R W → Outcome (List (Bool × Did) × EventLoop R W)
    unfolding round
    rounds zero l = ok ([], l)
    rounds (suc n) l = do (did, l1) ← round l; next_round (is_left did.1) did l1 (rounds n l1)

    -- The start of `run` in a thread, where the thread that ran first is the first argument, and
    -- `enabled` is the code of `io_uring_enable_rings`.
    unfoldable pub start_run : Option ℕ → ℤ → ℕ → EventLoop R W → Outcome (EventLoop R W)
    unfolding enable flush_ring
    start_run none enabled thread l =
        if is_neg enabled
        then abort exception
        else ok (record l {
          run_thread_id = some thread;
          works = record l.works { queues = enable l.works.queues };
        })
    start_run (some t) enabled thread l =
        if t == thread
        then (do w ← flush_ring l.works; ok (record l { works = w }))
        else abort exception

    -- `run`, with at most so many rounds.
    unfoldable pub run : ℕ → ℤ → ℕ → EventLoop R W → Outcome (EventLoop R W)
    unfolding start_run rounds
    run n enabled thread l = do
      l1 ← start_run l.run_thread_id enabled thread l
      done ← rounds n l1
      return_if_left done
