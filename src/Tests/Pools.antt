-- ===== src/Tests/Pools.antt =====
-- A concrete refill ring, and a task that is joined.
use condy.Prelude.{ℕ, zero, suc, ◌+◌, ◌*◌, ◌^◌, ◌≡◌, refl, false, none, some, [], ◌∷◌, ok, arith}
use condy.Prelude.Int.{pos}
use condy.Prelude.Slots.{Holds}
use condy.Promise.{of_owner, of_coroutine, mark_running}
use condy.Tasks.{returned, Await, await_suspend_task, await_resume_task, wait}
use condy.Tasks.Ends.{of_value, to_the_end, Settled, await-Settled}
use condy.Zcrx.{Rqe, ZcrxPool, no_buffer, zcrx_handle_finish, reset_buffer}
use condy.Zcrx.Refill.{Queue, reset_buffer-zcrx_handle_finish}

-- A task whose coroutine returns 9, awaited by 7.
abbrev awaited_task : Await ℕ
awaited_task = record {
  system = mark_running false 0;
  frame = some (record { value = some 9; exception_ptr = none });
  pending_works = 3;
  continued = [];
}

await-Settled_example :
    ((a1 : Await ℕ) × (a2 : Await ℕ) × (await_suspend_task 5 7
          (to_the_end (of_owner false ∷ of_coroutine false ∷ []))
          awaited_task
        ≡ ok a1)
      × (await_resume_task a1 ≡ ok (returned 9, a2))
      × Settled 7 awaited_task a2)
    × ((a3 : Await ℕ) × (wait false
            (some 64)
            5
            7
            (to_the_end (of_owner false ∷ of_coroutine false ∷ []))
            awaited_task
          ≡ (none, ok (returned 9, a3)))
        × Settled 7 awaited_task a3)
await-Settled_example =
    await-Settled false 5 0 64 7 (of_owner false ∷ of_coroutine false ∷ []) awaited_task refl refl
      of_value (omega arith)

abbrev blank : Rqe
blank = record { off = 0; len = 0 }

-- Four entries, of which one is queued, in an area whose token is 3.
abbrev refill : ZcrxPool
refill = record {
  area_ptr = 4096;
  area_token = 3 * 2 ^ 48;
  no_device = false;
  ring_entries = 4;
  rqes = blank ∷ blank ∷ record { off = 64; len = 8 } ∷ blank ∷ [];
  rq_tail = 7;
  khead = 6;
  ktail = 7;
  flushes = 0;
}

refill_holds : Holds refill.rqes 4 6 blank (record { off = 64; len = 8 } ∷ [])
refill_holds zero below = refl
refill_holds (suc i) below = absurd (omega arith)

refill_queue : Queue refill blank (record { off = 64; len = 8 } ∷ [])
refill_queue = record {
  log = 2;
  cofactor = 2 ^ 30;
  is_pow = refl;
  splits = refl;
  bounded = omega arith;
  room = refl;
  head_in = omega arith;
  tail_at = refl;
  fits = omega arith;
  holds = refill_holds;
}

reset_buffer-zcrx_handle_finish_example :
    (p' : ZcrxPool) × (reset_buffer
        (zcrx_handle_finish 48 (pos 100) (512 + 3 * 2 ^ 48) refill)
        refill
      ≡ ok (no_buffer, p'))
    × Queue p' blank
        (record { off = 64; len = 8 } ∷ record { off = 512 + 3 * 2 ^ 48; len = 100 } ∷ [])
reset_buffer-zcrx_handle_finish_example =
    reset_buffer-zcrx_handle_finish 48 3 512 100 refill_queue (omega arith) refl (omega arith)
      (omega arith) (omega arith) (omega arith)
