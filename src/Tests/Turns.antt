-- ===== src/Tests/Turns.antt =====
-- An event loop over the completions of a zero-copy send, whose works schedule others.
use condy.Prelude.{
  ℕ, ◌+◌, ◌≡◌, ◌⊎◌, inl, inr, refl, sym, append-nil, Bool, true, false, some, List, [], ◌∷◌, ◌++◌,
  map, Outcome, ok, abort, ◌>>=◌, arith,
}
use condy.Prelude.Int.{ℤ, pos, negsuc, is_neg}
use condy.Finish.{Cqe, zero_copy, Loop, process_each}
use condy.Finish
use condy.Finish.Streams.{released}
use condy.Finish.Dispatch.{process_each-Ends}
use condy.Run.{Works, EventLoop, Did, invoked, local_queue, Uring, is_errno, eagain, round, rounds}
use condy.Run.Turns.{
  Grows, IsCalm, calls, called, processed, reaped_of, rounds-called, rounds-flushed,
}

-- The handles of operations, and what was called and processed.
record World : Type 0 where
  loop : Loop ℤ
  trace : List (ℕ ⊎ Cqe)

-- A completion queue that is emptied by each flush.
abbrev peek : List Cqe → ℤ
peek [] = negsuc 10
peek (c ∷ cs) = pos 0

abbrev completion_queue : Uring (List Cqe) Cqe
completion_queue = record {
  peek_cqe = peek;
  for_each_cqe = λ r. r;
  cqe_nr = λ _. 1;
  cq_advance = λ _ r. [];
  submit_and_wait = λ r. (pos 1, r);
}

abbrev result : Cqe → ℤ
result c = c.res

abbrev note : Cqe → Works (List Cqe) World → Loop ℤ → Works (List Cqe) World
note c w l = record w {
  pending_works = l.pending_works;
  world = record { loop = l; trace = w.world.trace ++ inr c ∷ [] };
}

-- `process_cqe_` of Finish.antt.
abbrev process_cqe : Cqe → Works (List Cqe) World → Outcome (Works (List Cqe) World)
process_cqe c w = do l ← Finish.process_cqe result c w.world.loop; ok (note c w l)

-- Each work schedules another.
abbrev invoke : ℕ → Works (List Cqe) World → Works (List Cqe) World
invoke a w = record w {
  queues = record w.queues { local_queue = local_queue w ++ (a + 10) ∷ [] };
  world = record w.world { trace = w.world.trace ++ inl a ∷ [] };
}

-- The handles can take these completions.
abbrev Fine : List Cqe → Works (List Cqe) World → Type 0
Fine cs w = (l : Loop ℤ) × (process_each result cs w.world.loop ≡ ok l)

abbrev Good : Works (List Cqe) World → Type 0
Good w = Fine w.ring.ring w

first_step :
    (m : Outcome (Loop ℤ)) (f : Loop ℤ → Outcome (Loop ℤ))
    → (l : Loop ℤ) × ((m >>= f) ≡ ok l)
    → (l1 : Loop ℤ) × (m ≡ ok l1) × ((l : Loop ℤ) × (f l1 ≡ ok l))
first_step (ok l1) f h = (l1, refl, h)
first_step (abort e) f (l, h) = absurd (ground arith)

peek-calm :
    (r : List Cqe)
    → (is_errno eagain (peek r) ≡ true)
      ⊎ (is_errno eagain (peek r) ≡ false) × (is_neg (peek r) ≡ false)
peek-calm [] = inl refl
peek-calm (c ∷ cs) = inr (refl, refl)

calm : IsCalm completion_queue process_cqe invoke (λ w. w.trace) Good Fine
unfolding process_each
calm = record {
  begins = λ w good. good;
  processes = λ c cs w fine.
      let (l1, e, rest) =
        first_step (Finish.process_cqe result c w.world.loop) (process_each result cs) fine in
      (note c w l1, simp e, ([], sym (append-nil (local_queue w))), refl, rest);
  ends = λ n w fine. fine;
  invokes = λ a q w good. (((a + 10) ∷ [], refl), refl, good);
  peeks = peek-calm;
}

-- A zero-copy send at address 64, with its completion and its notification.
abbrev sent : Cqe
sent = record { user_data = 64; res = pos 100; flag_more = true; flag_notif = false }

abbrev notified : Cqe
notified = record { user_data = 64; res = pos 0; flag_more = false; flag_notif = true }

abbrev sending : Loop ℤ
sending = record {
  pending_works = 1;
  handles = λ _. record {
    kind = zero_copy;
    stop_callback = true;
    received = [];
    called = [];
    freed = [];
    deleted = false;
  };
  invoked = [];
  cancelled = [];
}

-- Works 5, 6 and 7 are queued; the interval is 2.
abbrev three_queued : EventLoop (List Cqe) World
three_queued = record {
  works = record {
    queues = record {
      local_queue = 5 ∷ 6 ∷ 7 ∷ [];
      global_queue = [];
      msg_ring = [];
      ring_enabled = true;
      exit_allowed = true;
      pended = 0;
      submitted = 0;
      prepared = [];
    };
    pending_works = 1;
    ring = record { ring = sent ∷ notified ∷ []; submit_batch = 8; maybe_submit_count = 0 };
    world = record { loop = sending; trace = [] };
  };
  tick_count = 0;
  event_interval = 2;
  run_thread_id = some 1;
}

three_queued-Good : Good three_queued.works
three_queued-Good =
    let (l, e, _) =
      process_each-Ends result 64 refl (omega arith) (released refl refl refl) sending
        (refl, (refl, tt)) refl refl in
    (l, e)

rounds-called_example :
    (dids : List (Bool × Did)) × (l' : EventLoop (List Cqe) World) × (rounds completion_queue
        process_cqe invoke 1 2 three_queued
      ≡ ok (dids, l'))
    × (map (λ d. d.1) dids ≡ map invoked (5 ∷ 6 ∷ []))
    × (calls l'.works.world.trace ≡ 5 ∷ 6 ∷ [])
    × Grows (7 ∷ []) l'.works
rounds-called_example =
    rounds-called completion_queue process_cqe invoke (λ w. w.trace) Good Fine calm 1 (5 ∷ 6 ∷ [])
      (7 ∷ []) three_queued refl three_queued-Good

rounds-flushed_example :
    (dids : List (Bool × Did)) × (l1 l2 : EventLoop (List Cqe) World) × (rounds completion_queue
        process_cqe invoke 1 1 three_queued
      ≡ ok (dids, l1))
    × (l1.works.world.trace ≡ called (5 ∷ []))
    × (round completion_queue process_cqe invoke 1 l1 ≡ ok ((true, invoked 6), l2))
    × (l2.works.world.trace
        ≡ (l1.works.world.trace
            ++ processed (
                reaped_of completion_queue process_cqe invoke
                  (λ w. w.trace)
                  Good
                  Fine
                  calm
                  l1.works))
          ++ inl 6 ∷ [])
    × (l2.tick_count ≡ 0)
rounds-flushed_example =
    rounds-flushed completion_queue process_cqe invoke (λ w. w.trace) Good Fine calm 1 (5 ∷ []) 6
      (7 ∷ []) three_queued refl three_queued-Good refl (omega arith)
