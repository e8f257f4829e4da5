-- ===== src/Tests.antt =====
-- Concrete runs to which the theorems apply.
mod Channels
mod Promises
mod Completions
mod Launch
mod Rounds
mod Turns
mod Pools
mod Entries
mod Lists
mod Requests
mod Buffers
mod Sessions
mod Lines
mod Calls
mod Areas
use condy.Prelude.{
  ℕ, ◌+◌, ◌≡◌, ◌≤◌, ◌<◌, ◌⊎◌, inl, refl, true, false, none, some, List, [], ◌∷◌, if◌then◌else◌,
  exception, out_of_fuel, ok, abort, arith,
}
use condy.Work.{schedule, tag, encode_work_ptr, decode_work}
use condy.Work.Tags.{decode_work-encode_work_ptr}
use condy.Options.{sqpoll, defer_taskrun, iopoll, hybrid_iopoll, apply, default_options, configure}
use condy.Options.Compatible.{compatible, written, written_all, apply_lem}
use condy.Setup.Flags.{Created, create_ring-configure}
use condy.Schedule.{Runtime, this_runtime, other_runtime, no_runtime}
use condy.Schedule.Delivery.{
  Act, schedules, schedules_early, exits, enables, acts, held, scheduled, IsFlushed, acts-held,
}
use condy.Buffers.{Pool, handle_finish}
use condy.Buffers.Bundles.{Taken, handle_finish-Taken}
use condy.Ring.{Ring, submit, maybe_submit, reserve_space}
use condy.Ring.Batch.{maybe_submit_lem, submits, IsLeast, reserve_space_lem}

-- Tags.
encode_example :
    (w : ℕ) × (encode_work_ptr 4096 schedule ≡ ok w) × (decode_work w ≡ (4096, tag schedule))
encode_example = decode_work-encode_work_ptr 4096 schedule refl (omega arith)

-- Options.
apply_example : apply defer_taskrun (written (sqpoll 50 none) default_options) ≡ (
    if compatible (written defer_taskrun (written (sqpoll 50 none) default_options))
    then ok (written defer_taskrun (written (sqpoll 50 none) default_options))
    else abort exception)
apply_example = apply_lem defer_taskrun (written (sqpoll 50 none) default_options) refl

create_ring_example :
    (configure (iopoll ∷ hybrid_iopoll ∷ sqpoll 50 (some 3) ∷ []) default_options ≡ abort exception)
    ⊎ (configure (iopoll ∷ hybrid_iopoll ∷ sqpoll 50 (some 3) ∷ []) default_options
        ≡ ok (written_all (iopoll ∷ hybrid_iopoll ∷ sqpoll 50 (some 3) ∷ []) default_options))
      × Created
          (written_all (iopoll ∷ hybrid_iopoll ∷ sqpoll 50 (some 3) ∷ []) default_options)
          (λ t. t)
create_ring_example =
    create_ring-configure (λ t. t) (iopoll ∷ hybrid_iopoll ∷ sqpoll 50 (some 3) ∷ [])

-- Rings: the state of the submission queue is the number of free entries, of 8.
abbrev counted : Ring ℕ
counted = record { ring = 1; submit_batch = 2; maybe_submit_count = 1 }

maybe_submit_example :
    (counted.maybe_submit_count + 1 ≡ counted.submit_batch)
      × (maybe_submit (λ _. 8) counted ≡ record counted { maybe_submit_count = 0; ring = 8 })
    ⊎ (counted.maybe_submit_count + 1 < counted.submit_batch)
      × (maybe_submit (λ _. 8) counted
          ≡ record counted { maybe_submit_count = counted.maybe_submit_count + 1 })
maybe_submit_example = maybe_submit_lem (λ _. 8) counted (omega arith) (omega arith)

reserve_example :
    ((k : ℕ) × (k < 2)
      × IsLeast (λ _. 8) (λ free. free) 3 k counted
      × (reserve_space (λ _. 8) (λ free. free) 2 3 counted ≡ ok (submits (λ _. 8) k counted)))
    ⊎ ((j : ℕ) → j < 2 → (submits (λ _. 8) j counted).ring < 3)
      × (reserve_space (λ _. 8) (λ free. free) 2 3 counted ≡ abort out_of_fuel)
reserve_example = reserve_space_lem (λ _. 8) (λ free. free) 3 2 counted

-- Schedules around the enabling of the ring, one of them with an early load.
abbrev quiet_runtime : Runtime
quiet_runtime = record {
  local_queue = [];
  global_queue = 3 ∷ [];
  msg_ring = [];
  ring_enabled = false;
  exit_allowed = false;
  pended = 0;
  submitted = 0;
  prepared = [];
}

abbrev around_enabling : List Act
around_enabling =
    schedules no_runtime 4
    ∷ enables
    ∷ schedules_early other_runtime 5
    ∷ schedules this_runtime 4
    ∷ exits no_runtime
    ∷ []

acts_held_example :
    (held 4 (acts around_enabling quiet_runtime)
      ≡ held 4 quiet_runtime + scheduled 4 around_enabling)
    × IsFlushed (acts around_enabling quiet_runtime)
acts_held_example = acts-held 4 around_enabling quiet_runtime (inl refl)

-- A pool of two buffers of 16 bytes, of the first of which 6 are left.
abbrev used_pool : Pool
used_pool = record {
  bufs = 0 ∷ 1 ∷ [];
  tail = 2;
  br_head = 0;
  mask = 1;
  num_buffers = 2;
  buffers_base = 4096;
  buffer_size = 16;
  curr_buf_len = 6;
  incremental = true;
}

handle_finish_example : Taken 10 used_pool (handle_finish true 10 used_pool)
handle_finish_example =
    handle_finish-Taken 10 used_pool (omega arith)
      (record { some_left = omega arith; fits = omega arith })
