-- ===== src/Zcrx.antt =====
-- include/condy/zcrx.hpp and `ManagedBuffer` of include/condy/detail/buffers.hpp: buffers of a zero-copy
-- receive pool, from the completion that hands one out to the refill ring that gives it back. The
-- width of an offset in an area is a parameter, as the kernel's header fixes it. `unsigned` is a number
-- below `2 ^ 32`, and addresses and offsets are numbers below `2 ^ 64`.
pub mod Refill
pub mod Align
pub mod Create
use condy.Prelude.{
  ℕ, ◌+◌, ◌-◌, ◌%◌, ◌^◌, Bool, true, false, List, ltb, leb, if◌then◌else◌, length, set, bit_and,
  bit_or, bad_access, Outcome, ok, abort, check, ◌>>=◌, ◌>>◌,
}
use condy.Prelude.Int.{ℤ, is_neg, pos_part}
use condy.Prelude.Words.{add_size, sub_size}

abbrev pub add_unsigned : ℕ → ℕ → ℕ
add_unsigned a b = (a + b) % 2 ^ 32

abbrev pub sub_unsigned : ℕ → ℕ → ℕ
sub_unsigned a b = (a + 2 ^ 32 - b) % 2 ^ 32

-- `io_uring_zcrx_rqe`
pub record Rqe : Type 0 where
  pub off : ℕ
  pub len : ℕ

-- The pool with its refill ring: `khead` is the kernel's, `ktail` is published to it, and `flushes`
-- counts the requests of `flush_rq_`. `no_device` is the flag `ZCRX_REG_NODEV`.
pub record ZcrxPool : Type 0 where
  pub area_ptr : ℕ
  pub area_token : ℕ
  pub no_device : Bool
  pub ring_entries : ℕ
  pub rqes : List Rqe
  pub rq_tail : ℕ
  pub khead : ℕ
  pub ktail : ℕ
  pub flushes : ℕ

-- `ManagedBuffer`; `owned` says whether its pool is not null.
pub record ManagedBuffer : Type 0 where
  pub data_ : ℕ
  pub size : ℕ
  pub owned : Bool

abbrev pub no_buffer : ManagedBuffer
no_buffer = record { data_ = 0; size = 0; owned = false }

unfoldable pub rq_nr_queued : ZcrxPool → ℕ
rq_nr_queued p = sub_unsigned p.rq_tail p.khead

unfoldable pub flush_rq : ZcrxPool → ZcrxPool
flush_rq p = record p { flushes = p.flushes + 1 }

unfoldable pub maybe_flush_rq : ZcrxPool → ZcrxPool
unfolding flush_rq rq_nr_queued
maybe_flush_rq p =
    if (if leb p.ring_entries (rq_nr_queued p) then true else p.no_device) then flush_rq p else p

unfoldable pub rq_enqueue : ℕ → ℕ → ZcrxPool → Outcome ZcrxPool
unfolding rq_nr_queued
rq_enqueue ptr size p = do
  check (ltb (rq_nr_queued p) p.ring_entries)
  let rq_mask = sub_unsigned p.ring_entries 1
  let i = bit_and p.rq_tail rq_mask
  if ltb i (length p.rqes) then ok tt else abort bad_access
  let rqe : Rqe = record {
    off = bit_or (sub_size ptr p.area_ptr) p.area_token;
    len = size % 2 ^ 32;
  }
  ok (record p {
    rqes = set p.rqes i rqe;
    rq_tail = add_unsigned p.rq_tail 1;
    ktail = add_unsigned p.rq_tail 1;
  })

unfoldable pub add_buffer_back : ℕ → ℕ → ZcrxPool → Outcome ZcrxPool
unfolding rq_enqueue maybe_flush_rq
add_buffer_back ptr size p = do p1 ← rq_enqueue ptr size p; ok (maybe_flush_rq p1)

-- `handle_finish`: offsets have `area_shift` bits, the complement of `IORING_ZCRX_AREA_MASK`.
unfoldable pub zcrx_handle_finish : ℕ → ℤ → ℕ → ZcrxPool → ManagedBuffer
zcrx_handle_finish area_shift res off p = if is_neg res then no_buffer else record {
  data_ = add_size p.area_ptr (bit_and off (2 ^ area_shift - 1));
  size = pos_part res;
  owned = true;
}

-- `reset`, and the pool that the buffer came from.
unfoldable pub reset_buffer : ManagedBuffer → ZcrxPool → Outcome (ManagedBuffer × ZcrxPool)
unfolding add_buffer_back
reset_buffer b p =
    if b.owned
    then (do p1 ← add_buffer_back b.data_ b.size p; ok (no_buffer, p1))
    else ok (no_buffer, p)

-- `operator=(ManagedBuffer &&)` from another buffer: the target, the source and the pool after it.
unfoldable pub move_buffer :
    ManagedBuffer → ManagedBuffer → ZcrxPool → Outcome (ManagedBuffer × ManagedBuffer × ZcrxPool)
unfolding reset_buffer
move_buffer target source p = do (gone, p1) ← reset_buffer target p; ok (source, no_buffer, p1)
