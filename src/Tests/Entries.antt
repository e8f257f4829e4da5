-- ===== src/Tests/Entries.antt =====
-- A submission entry on a concrete queue, which maps each place to its entry.
use condy.Prelude.{ℕ, ◌≡◌, refl, true, false, List, [], ◌==◌, ==_iff, if◌then◌else◌}
use condy.Prelude.Int.{ℤ}
use condy.Ring.{Ring}
use condy.Finish.{Cqe, op as op_kind}
use condy.Senders.{op, start}
use condy.Launch.{Launch}
use condy.Async.{Sqe, fixed}
use condy.Async.Entry.{connect_made, Enters, perform_one}
use condy.Requests.{Prep, AsyncOp, BufferGroup, perform_call, make, flag_file}
use condy.Requests.Sockets.{async_recv_multishot_bundle}
use condy.Requests.Entry.{start-Enters}

abbrev Places : Type 0
Places = ℕ → Sqe ℕ

abbrev zeroed : Sqe ℕ
zeroed = record {
  flags = 0;
  ioprio = 0;
  buf_group = 0;
  buf_index = 0;
  rw_flags = 0;
  zcrx_ifq_idx = 0;
  user_data = 0;
  rest = 0;
}

abbrev io_uring_submit : Places → Places
io_uring_submit r = r

abbrev space_left : Places → ℕ
space_left r = 8

abbrev entry : ℕ → Places → Sqe ℕ
entry s r = r s

abbrev change : ℕ → (Sqe ℕ → Sqe ℕ) → Places → Places
change s f r = λ t. if t == s then f (r t) else r t

seen : (s : ℕ) (f : Sqe ℕ → Sqe ℕ) (r : Places) → entry s (change s f r) ≡ f (entry s r)
seen s f r = simp ((==_iff s s).1 refl)

abbrev get_sqe : Ring Places → ℕ × Ring Places
get_sqe r = (2, r)

-- `io_uring_prep_recv_multishot`, with its number.
abbrev recv : Sqe ℕ → Sqe ℕ
recv e = record zeroed { ioprio = 2; rest = 27 }

abbrev res_of : Cqe → ℤ
res_of c = c.res

abbrev launch : Launch Places ℤ
launch = record {
  ring = record { ring = λ _. zeroed; submit_batch = 8; maybe_submit_count = 0 };
  loop = record {
    pending_works = 0;
    handles = λ _. record {
      kind = op_kind;
      stop_callback = true;
      received = [];
      called = [];
      freed = [];
      deleted = false;
    };
    invoked = [];
    cancelled = [];
  };
}

abbrev bundles : BufferGroup
bundles = record { address = 4096; bgid = 5 }

-- A receive of many bundles on the fixed descriptor 3.
abbrev receive : AsyncOp
receive = async_recv_multishot_bundle (fixed 3) bundles 0

abbrev prep : Prep → List ℕ → Sqe ℕ → Sqe ℕ
prep p args e = recv e

abbrev set_addr : ℕ → ℕ → Sqe ℕ → Sqe ℕ
set_addr addr addrlen e = record e { rest = addr }

-- It is linked to a next operation.
start-Enters_example :
    Enters io_uring_submit space_left entry change seen res_of get_sqe
      (perform_one io_uring_submit space_left entry change seen res_of get_sqe
        (connect_made
          (make change get_sqe 32 16 receive.making (perform_call prep set_addr 4 receive.call))
          64
          true)
        (start 4 (flag_file 1 (op 7) receive.file))
        launch)
      2
      launch.ring
      (record (recv zeroed) { flags = 37; buf_group = 5; ioprio = 18; user_data = 64 })
unfolding perform_call async_recv_multishot_bundle
start-Enters_example =
    start-Enters io_uring_submit space_left entry change seen res_of get_sqe 32 16 prep set_addr 4 1
      4 7 receive 64 true launch refl
