-- ===== src/Tests/Requests.antt =====
-- The requests on descriptors, with concrete arguments.
use condy.Prelude.{ℕ, ◌+◌, ◌==◌, some, if◌then◌else◌}
use condy.Async.{fixed, Sqe}
use condy.Requests.Marks.{
  Args, file_operations, AllMarks, Driver, driver_commands, AllMarkCommands,
  file_operations-AllMarks,
}

abbrev some_args : Args
some_args = record {
  word = λ n. n + 100;
  buffer = record { address = 4096; size = 512 };
  fixed_buffer = record { value = record { address = 8192; size = 64 }; buf_index = 1 };
  fixed_vector = record { value = 12288; buf_index = 2 };
  group = record { address = 16384; bgid = 7 };
  other = fixed 3;
}

-- A queue of places with their entries; a command stands in an entry with its number and descriptor.
abbrev driver : Driver (ℕ → Sqe ℕ) ℕ ℕ
driver = record {
  change = λ s f r. λ t. if t == s then f (r t) else r t;
  get_sqe = λ r. (2, r);
  get_sqe128 = λ r. (some 4, r);
  io_uring_prep_uring_cmd = λ cmd_op fd e. record e { rw_flags = cmd_op; rest = fd };
  io_uring_prep_uring_cmd128 = λ cmd_op fd e. record e { rw_flags = cmd_op + 128; rest = fd };
  cmd_op = 9;
  cmd_func = λ e. record e { ioprio = 1 };
}

file_operations-AllMarks_example :
    AllMarks 1 16 5 (file_operations some_args) × AllMarkCommands 1 16 5 (driver_commands driver)
file_operations-AllMarks_example = file_operations-AllMarks 1 16 5 some_args driver
