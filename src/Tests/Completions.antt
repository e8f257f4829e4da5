-- ===== src/Tests/Completions.antt =====
-- Parallel operations, a zero-copy send, and a futex with two who wait.
use condy.Prelude.{ℕ, ◌≡◌, refl, true, false, List, [], ◌∷◌, ok, arith}
use condy.Prelude.Int.{ℤ, pos}
use condy.Parallel.{Parallel, when_any, when_all, connect, any_result}
use condy.Parallel.Complete.{receive_each}
use condy.Parallel.Deliver.{Delivers, receive_each-connect, any_result-first}
use condy.Finish.{Cqe, zero_copy, Loop}
use condy.Finish.Streams.{released}
use condy.Finish.Dispatch.{Ends, process_each-Ends}
use condy.Futex.{
  Futex, Op, finishes, destroys, run as run_futex, starts, stores, notifies_all, invokes, cancels,
}
use condy.Futex.Wakes.{Moves, IsClear, started, run-places}

-- Parallel operations: three, of which the last to start completes first.
receive_example :
    Delivers {A = ℕ} 0 3
      ((2, 30) ∷ (0, 10) ∷ (1, 20) ∷ [])
      (receive_each true when_all ((2, 30) ∷ (0, 10) ∷ (1, 20) ∷ []) (connect 0 when_all true 3))
receive_example =
    receive_each-connect 0 true when_all true (2, 30) ((0, 10) ∷ (1, 20) ∷ [])
      (omega arith, refl, (omega arith, refl, (omega arith, refl, tt)))

any_example :
    (p : Parallel ℕ) × (out : List ℕ × List ℕ) × (receive_each false when_any
        ((1, 20) ∷ (0, 10) ∷ [])
        (connect 0 when_any true 2)
      ≡ ok p)
    × (p.delivered ≡ out ∷ [])
    × (any_result 0 out ≡ (1, 20))
any_example =
    any_result-first 0 false when_any true 1 20 ((0, 10) ∷ [])
      (omega arith, refl, (omega arith, refl, tt))

-- Completions of a zero-copy send at address 64.
abbrev sent : Cqe
sent = record { user_data = 64; res = pos 100; flag_more = true; flag_notif = false }

abbrev notified : Cqe
notified = record { user_data = 64; res = pos 0; flag_more = false; flag_notif = true }

abbrev sending : Loop ℤ
sending = record {
  pending_works = 1;
  handles = λ _. record {
    kind = zero_copy;
    stop_callback = true;
    received = [];
    called = [];
    freed = [];
    deleted = false;
  };
  invoked = [];
  cancelled = [];
}

process_example : Ends (λ c. c.res) zero_copy 64 sent (notified ∷ []) sending
process_example =
    process_each-Ends (λ c. c.res) 64 refl (omega arith) (released refl refl refl) sending
      (refl, (refl, tt)) refl refl

-- Futexes.
abbrev idle_futex : Futex
idle_futex = record {
  value = 0;
  wait_awaiters = 8 ∷ 9 ∷ [];
  taken = [];
  scheduled = [];
  received = [];
  pending_works = 2;
}

-- While `notify_all` has taken three handles and scheduled one, another begins to wait and is cancelled,
-- and the destructor takes one more.
abbrev futex_calls : List Op
futex_calls =
    starts 7 0
    ∷ notifies_all
    ∷ finishes 0
    ∷ starts 3 0
    ∷ cancels 3
    ∷ stores 1
    ∷ invokes
    ∷ starts 4 0
    ∷ finishes 0
    ∷ destroys
    ∷ finishes 1
    ∷ finishes 0
    ∷ finishes 0
    ∷ []

run_places_example :
    Moves (λ h. started h futex_calls) idle_futex (run_futex futex_calls idle_futex)
unfolding IsClear
run_places_example =
    run-places futex_calls idle_futex
      (tt, (tt, (tt, (tt, (refl, (tt, (tt, (tt, (tt, (tt, (tt, (tt, (tt, tt)))))))))))))
