-- ===== src/Buffers/Custody.antt =====
-- include/condy/provided_buffers.hpp: `BundledProvidedBufferPool` while completions take buffers and the
-- `ProvidedBuffer`s that own them are reset. A buffer is with the kernel or with one of those.
pub mod Keeps
use condy.Prelude.{
  ℕ, zero, suc, ◌+◌, ◌-◌, ◌*◌, ◌%◌, ◌^◌, Bool, true, false, Option, none, some, List, [], ◌∷◌, ◌++◌,
  ◌==◌, if◌then◌else◌, get_elem?, Outcome, ok, ◌>>=◌,
}
use condy.Buffers.{Pool, Piece, handle_finish, add_buffer_back}
use condy.Buffers.Taking.{kept}

-- The pool, with the provided buffers that own a buffer of it.
pub record Session : Type 0 where
  pub pool : Pool
  pub held : List Piece

pub data Event : Type 0 where
  completes : Bool → ℕ → Event
  resets : ℕ → Event

abbrev pub remove_at : List Piece → ℕ → List Piece
remove_at [] i = []
remove_at (x ∷ xs) zero = xs
remove_at (x ∷ xs) (suc i) = x ∷ remove_at xs i

-- `ManagedBuffer::reset` of a buffer with a pool.
unfoldable pub reset_at : Option Piece → ℕ → Session → Outcome Session
reset_at none i s = ok s
reset_at (some x) i s = do
  p ← add_buffer_back x.data_ x.size s.pool
  ok (record { pool = p; held = remove_at s.held i })

unfoldable pub step : Event → Session → Outcome Session
unfolding reset_at
step (completes with_buffer res) s = do
  (xs, p) ← handle_finish with_buffer res s.pool
  ok (record { pool = p; held = s.held ++ kept xs })
step (resets i) s = reset_at (get_elem? s.held i) i s

unfoldable pub run : List Event → Session → Outcome Session
unfolding step
run [] s = ok s
run (e ∷ es) s = do s1 ← step e s; run es s1

-- How many buffers the kernel has, and how many bytes it can write to them.
abbrev pub queued_at : Pool → ℕ
queued_at p = (p.tail + 2 ^ 16 - p.br_head) % 2 ^ 16

abbrev pub bytes_at : Pool → ℕ
bytes_at p = if queued_at p == 0 then 0 else p.curr_buf_len + (queued_at p - 1) * p.buffer_size
