-- ===== src/Tests/Launch.antt =====
-- Concrete senders and launches, on a ring that keeps its entries and what was submitted.
use condy.Prelude.{
  ℕ, ◌+◌, ◌-◌, ◌≡◌, ◌⊎◌, refl, true, false, some, List, [], ◌∷◌, ◌++◌, length, ok, arith,
}
use condy.Prelude.Int.{ℤ, pos}
use condy.Ring.{Ring, submit}
use condy.Finish.{Cqe, op, Handle, Loop}
use condy.Finish.Streams.{single}
use condy.Senders.{Sender, op, flagged, start, prepared, both, either, in_sequence}
use condy.Senders.Order.{marks, requests, start-marks}
use condy.Senders.Brackets.{operators_assoc}
use condy.Launch.{Launch, Operation, start_op, perform}
use condy.Launch.Settle.{error_of, Receives, Settles, start_op-Settles}
use condy.Launch.Complete.{post, final_cqe, start_op-Receives}
use condy.Launch.Linked.{chain, linked, marked, written, IsReady}
use condy.Launch.Cut.{perform-whole, perform-cut}

-- Two linked operations, the first drained, beside a third.
abbrev mixed : Sender
mixed = both (in_sequence 4 (flagged 2 (op 1)) (op 2)) (op 3)

start-marks_example : prepared (start 16 mixed) ≡ requests 16 (marks mixed)
start-marks_example = start-marks 16 mixed

operators_assoc_example :
    (prepared (start 16 (both (both (op 1) (op 2)) (op 3)))
      ≡ prepared (start 16 (both (op 1) (both (op 2) (op 3)))))
    × (prepared (start 16 (either (either (op 1) (op 2)) (op 3)))
        ≡ prepared (start 16 (either (op 1) (either (op 2) (op 3)))))
    × (prepared (start 16 (in_sequence 4 (in_sequence 4 (op 1) (op 2)) (op 3)))
        ≡ prepared (start 16 (in_sequence 4 (op 1) (in_sequence 4 (op 2) (op 3)))))
operators_assoc_example = operators_assoc 4 16 (op 1) (op 2) (op 3)

-- Entries with their flags and works, and the submissions.
record Uring : Type 0 where
  free : ℕ
  queued : List (ℕ × ℕ × ℕ)
  submitted : List (List (ℕ × ℕ × ℕ))

abbrev io_uring_submit : Uring → Uring
io_uring_submit u = record {
  free = u.free + length u.queued;
  queued = [];
  submitted = u.submitted ++ u.queued ∷ [];
}

abbrev space_left : Uring → ℕ
space_left u = u.free

abbrev write : ℕ → ℕ → ℕ → Uring → Uring
write flags work e u = record u { queued = u.queued ++ (e, flags, work) ∷ [] }

abbrev take : ℕ → Uring → Uring
take a u = record u { free = u.free - 1 }

abbrev res_of : Cqe → ℤ
res_of c = c.res

abbrev reads : ℕ → Operation Uring ℕ
reads a = record {
  prep_func = λ r. (some a, record r { ring = take a r.ring });
  address = 64;
  stop_requested = false;
  stop_possible = true;
}

abbrev idle_handle : Handle ℤ
idle_handle = record {
  kind = op;
  stop_callback = false;
  received = [];
  called = [];
  freed = [];
  deleted = false;
}

-- With a batch of two.
abbrev fresh_launch : Launch Uring ℤ
fresh_launch = record {
  ring = record {
    ring = record { free = 8; queued = []; submitted = [] };
    submit_batch = 2;
    maybe_submit_count = 0;
  };
  loop = record { pending_works = 0; handles = λ _. idle_handle; invoked = []; cancelled = [] };
}

start_op-Settles_example :
    (s' : Launch Uring ℤ) × (start_op io_uring_submit space_left write res_of true 4
        (reads 3)
        fresh_launch
      ≡ ok s')
    × Settles io_uring_submit space_left write res_of 4
        (reads 3)
        fresh_launch
        (error_of true (reads 3) fresh_launch.ring)
        s'
start_op-Settles_example =
    start_op-Settles io_uring_submit space_left write res_of true 4 (reads 3) fresh_launch refl refl

abbrev done_cqe : Cqe
done_cqe = record { user_data = 64; res = pos 5; flag_more = false; flag_notif = false }

start_op-Receives_example :
    (s' : Launch Uring ℤ) × (l' : Loop ℤ) × (start_op io_uring_submit space_left write res_of true 4
        (reads 3)
        fresh_launch
      ≡ ok s')
    × (post res_of (error_of true (reads 3) fresh_launch.ring) (done_cqe ∷ []) s'.loop ≡ ok l')
    × Receives
        (res_of (final_cqe (error_of true (reads 3) fresh_launch.ring) op done_cqe []))
        64
        fresh_launch.loop
        l'
start_op-Receives_example =
    start_op-Receives io_uring_submit space_left write res_of (reads 3) refl (omega arith) true 4
      single fresh_launch (refl, tt) refl refl (omega arith)

abbrev reads_ready : IsReady io_uring_submit space_left write reads (λ a. a) take
reads_ready = record {
  aligned = λ a. refl;
  going = λ a. refl;
  gives = λ a r h. refl;
  takes = λ a u h. omega arith;
  keeps = λ f w e u. refl;
  frees = λ u. omega arith;
}

perform-whole_example :
    (r : Ring Uring) × (s' : Launch Uring ℤ) × ((r ≡ fresh_launch.ring)
      ⊎ (r ≡ submit io_uring_submit fresh_launch.ring))
    × (perform io_uring_submit space_left write res_of true reads
          (start 0 (chain 4 (6 ∷ [])))
          fresh_launch
        ≡ ok s')
    × (s'.ring ≡ record r {
      ring = written write reads (λ a. a) take (linked 4 0 (6 ∷ [])) r.ring;
      maybe_submit_count = r.maybe_submit_count + 1;
    })
perform-whole_example =
    perform-whole io_uring_submit space_left write res_of reads (λ a. a) take reads_ready 4 0
      (6 ∷ []) fresh_launch (omega arith) (omega arith) (omega arith)

-- The third of three linked operations is prepared after the first two are submitted.
perform-cut_example :
    (s' : Launch Uring ℤ) × (perform io_uring_submit space_left write res_of true reads
        (start 0 (chain 4 (6 ∷ 7 ∷ 8 ∷ [])))
        fresh_launch
      ≡ ok s')
    × (s'.ring ≡ record fresh_launch.ring {
      ring =
          written write reads
            (λ a. a)
            take
            (linked 4 0 (8 ∷ []))
            (io_uring_submit
              (written write reads (λ a. a) take (marked 4 0 (6 ∷ 7 ∷ [])) fresh_launch.ring.ring));
      maybe_submit_count = 1;
    })
perform-cut_example =
    perform-cut io_uring_submit space_left write res_of reads (λ a. a) take reads_ready 4 0
      (6 ∷ 7 ∷ []) 8 [] fresh_launch (omega arith) (omega arith) refl (omega arith) (omega arith)
