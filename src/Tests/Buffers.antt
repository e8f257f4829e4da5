-- ===== src/Tests/Buffers.antt =====
-- A pool of two buffers of eight bytes, and a kernel that registers groups and maps memory.
use condy.Prelude.{
  ℕ, ◌-◌, ◌≡◌, ◌≤◌, refl, ap, inl, inr, true, false, none, some, List, [], ◌∷◌, leb, if◌then◌else◌,
  Bool-cases, ok, arith,
}
use condy.Ids.{fresh_pool}
use condy.Ids.Run
use condy.Ids.Run.{Call, allocates, recycles, Serves, run-Served}
use condy.Buffers.{Pool, handle_finish, add_buffer_back, take_pieces, take_piece}
use condy.Prelude.Words.{bit_ceil}
use condy.Buffers.Custody.{Session, Event, completes, resets, run, step, reset_at}
use condy.Buffers.Custody.Keeps.{Custody, run-Custody}
use condy.Buffers.Create.{Host, Owner, fill_pool, create_pool}
use condy.Buffers.Create.Fill.{fill_pool-Custody}
use condy.Buffers.Create.Books.{IsHost, Books}
use condy.Buffers.Create.Settle.{Settles, create_pool-Settles}

abbrev two_buffers : Pool
two_buffers = record {
  bufs = 0 ∷ 0 ∷ [];
  tail = 0;
  br_head = 0;
  mask = 1;
  num_buffers = 2;
  buffers_base = 4096;
  buffer_size = 8;
  curr_buf_len = 8;
  incremental = false;
}

abbrev started : Session
started = record { pool = fill_pool two_buffers; held = [] }

abbrev some_events : List Event
some_events = completes true 12 ∷ resets 1 ∷ completes true 3 ∷ resets 0 ∷ completes false 0 ∷ []

run-Custody_example :
    (s1 : Session) × (run some_events started ≡ ok s1)
    × Custody (record { base = 4096; size = 8; number = 2 }) s1
unfolding fill_pool run handle_finish add_buffer_back step reset_at take_pieces take_piece bit_ceil
run-Custody_example =
    run-Custody (record { base = 4096; size = 8; number = 2 }) some_events started
      (fill_pool-Custody two_buffers 2 8 refl refl refl refl refl refl refl (omega arith)
        (omega arith) (omega arith))
      (omega arith)

-- The groups that are registered, and the mappings.
abbrev Kernel : Type 0
Kernel = List ℕ × List (ℕ × ℕ)

abbrev rest_of {ℓ} : {A : Type ℓ} → List A → List A
rest_of [] = []
rest_of (x ∷ xs) = xs

abbrev host : Host Kernel
host = record {
  io_uring_setup_buf_ring =
      λ n bgid flags r. if leb n 32768 then (none, (bgid ∷ r.0, r.1)) else (some 22, r);
  io_uring_free_buf_ring = λ n bgid r. (0, (rest_of r.0, r.1));
  io_uring_buf_ring_mask = λ n. n - 1;
  mmap = λ size r. (inr 4096, (r.0, (4096, size) ∷ r.1));
  munmap = λ base size r. (0, (r.0, rest_of r.1));
}

abbrev groups : Kernel → List ℕ
groups r = r.0

abbrev maps : Kernel → List (ℕ × ℕ)
maps r = r.1

host-IsHost : IsHost host groups maps
host-IsHost = record {
  mask = λ n. refl;
  set_up = λ n bgid flags r. elim (Bool-cases (leb n 32768)) [
    | inl few ↦ simp few (refl, inl (refl, refl, few_of n few))
    | inr many ↦ simp many (refl, inr (22, refl, refl))
  ];
  freed = λ n bgid r gs e. (refl, ap rest_of e, refl);
  mapped = λ size r. (refl, inl (4096, refl, refl));
  unmapped = λ base size r ms e. (refl, refl, ap rest_of e);
}
  where
    few_of : (n : ℕ) → leb n 32768 ≡ true → n ≤ 32768
    few_of n h = ground arith

-- Group 0 is registered.
abbrev runtime : Owner Kernel
runtime = record { kernel = (0 ∷ [], []); bgid_pool = record { next_id = 1; recycled_ids = [] } }

abbrev runtime-Books : Books host groups maps host-IsHost (0 ∷ []) [] (0 ∷ []) runtime
runtime-Books = record {
  groups_are = refl;
  maps_are = refl;
  ids = record {
    apart = (refl, tt);
    ranged = (omega arith, omega arith, tt);
    low = omega arith;
    high = omega arith;
  };
}

create_pool-Settles_example :
    Settles host groups maps host-IsHost
      (0 ∷ [])
      []
      (0 ∷ [])
      (create_pool host 3 64 0 false runtime)
create_pool-Settles_example =
    create_pool-Settles host groups maps host-IsHost 3 64 0 false (0 ∷ []) [] (0 ∷ []) runtime
      (omega arith) (omega arith) (omega arith) runtime-Books

-- Two ids in all.
abbrev some_calls : List Call
some_calls =
    allocates ∷ allocates ∷ allocates ∷ recycles 1 ∷ recycles 5 ∷ allocates ∷ allocates ∷ []

run-Served_example : Serves 3 5 some_calls [] (Run.run 3 5 some_calls (fresh_pool 3 5) [])
run-Served_example = run-Served 3 5 some_calls (omega arith)
