-- ===== src/Tests/Rounds.antt =====
-- A concrete event loop with works that do nothing and a ring with nothing to reap.
use condy.Prelude.{ℕ, ◌≡◌, ◌⊎◌, refl, Bool, true, none, some, List, [], ◌∷◌, Outcome, ok}
use condy.Prelude.Int.{pos, negsuc}
use condy.Run.{Works, EventLoop, Did, Uring, start_run, rounds, end_run, run}
use condy.Run.Exit.{IsIdle, run-IsIdle}

abbrev nothing_to_reap : Uring ℕ ℕ
nothing_to_reap = record {
  peek_cqe = λ _. negsuc 10;
  for_each_cqe = λ _. [];
  cqe_nr = λ _. 1;
  cq_advance = λ _ r. r;
  submit_and_wait = λ r. (pos 1, r);
}

abbrev process_cqe : ℕ → Works ℕ ℕ → Outcome (Works ℕ ℕ)
process_cqe c w = ok w

abbrev invoke : ℕ → Works ℕ ℕ → Works ℕ ℕ
invoke a w = w

-- Works 5 and 6 are queued; the interval is 2.
abbrev two_queued : EventLoop ℕ ℕ
two_queued = record {
  works = record {
    queues = record {
      local_queue = 5 ∷ 6 ∷ [];
      global_queue = [];
      msg_ring = [];
      ring_enabled = true;
      exit_allowed = true;
      pended = 0;
      submitted = 0;
      prepared = [];
    };
    pending_works = 0;
    ring = record { ring = 0; submit_batch = 8; maybe_submit_count = 0 };
    world = 0;
  };
  tick_count = 0;
  event_interval = 2;
  run_thread_id = some 1;
}

-- After both works the loop is left in the third round.
abbrev left_loop : EventLoop ℕ ℕ
left_loop = record (end_run two_queued) {
  works = record (end_run two_queued).works {
    queues = record (end_run two_queued).works.queues { local_queue = [] };
  };
}

runs_out : run nothing_to_reap process_cqe invoke 1 3 (pos 0) 1 two_queued ≡ ok left_loop
unfolding run
runs_out = refl

run-IsIdle_example :
    ((two_queued.run_thread_id ≡ none) ⊎ (two_queued.run_thread_id ≡ some 1))
    × ((l0 l1 : EventLoop ℕ ℕ) × (dids : List (Bool × Did)) × (start_run nothing_to_reap process_cqe
            invoke 1 two_queued.run_thread_id
            (pos 0)
            1
            two_queued
          ≡ ok l0)
        × (rounds nothing_to_reap process_cqe invoke 1 3 l0 ≡ ok (dids, l1))
        × IsIdle l1.works
        × (left_loop ≡ end_run l1))
run-IsIdle_example =
    run-IsIdle nothing_to_reap process_cqe invoke 1 3 (pos 0) 1 two_queued left_loop runs_out
