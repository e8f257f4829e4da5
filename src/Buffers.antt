-- ===== src/Buffers.antt =====
-- include/condy/provided_buffers.hpp: which buffers a completion takes from the group, in
-- `BundledProvidedBufferQueue` and `BundledProvidedBufferPool`. An address is a number; `bufs` is the
-- array of the shared ring, read at `br_head_ & mask_`, and the calls of liburing that add a buffer
-- write it at its tail. A count of bytes is stopped at 0, where the loop that counts it down ends.
pub mod Bundles
pub mod Ring
pub mod Taking
pub mod Custody
pub mod Create
pub mod Line
use condy.Prelude.{
  ℕ, zero, suc, ◌+◌, ◌-◌, ◌*◌, ◌/◌, ◌%◌, ◌^◌, min, Bool, true, false, List, [], ◌∷◌, ◌++◌, ◌==◌,
  leb, ltb, if◌then◌else◌, length, get_or, set, bit_and, exception, out_of_fuel, Outcome, ok, abort,
  check, ◌>>=◌, ◌>>◌,
}

pub record Pool : Type 0 where
  pub bufs : List ℕ
  pub tail : ℕ
  pub br_head : ℕ
  pub mask : ℕ
  pub num_buffers : ℕ
  pub buffers_base : ℕ
  pub buffer_size : ℕ
  pub curr_buf_len : ℕ
  pub incremental : Bool

-- A `ProvidedBuffer`; `owned` says whether it returns its buffer to the pool.
pub record Piece : Type 0 where
  pub data_ : ℕ
  pub size : ℕ
  pub owned : Bool

abbrev pub get_buffer : ℕ → Pool → ℕ
get_buffer bid p = p.buffers_base + bid * p.buffer_size

abbrev pub curr_bid : Pool → ℕ
curr_bid p = get_or p.bufs (bit_and p.br_head p.mask) 0

abbrev pub advance : Pool → Pool
advance p = record p { br_head = (p.br_head + 1) % 2 ^ 16 }

-- The bytes that the current buffer gives of those that are left.
abbrev pub share : ℕ → Pool → ℕ
share bytes p = if p.incremental then min bytes p.curr_buf_len else p.curr_buf_len

-- One round of the loop: the piece, and the pool.
unfoldable pub take_piece : ℕ → Pool → Piece × Pool
take_piece bytes p =
    let at = get_buffer (curr_bid p) p + (p.buffer_size - p.curr_buf_len) in
    let rest = p.curr_buf_len - share bytes p in
    if rest == 0
    then (
      record { data_ = at; size = share bytes p; owned = true },
      record p { br_head = (p.br_head + 1) % 2 ^ 16; curr_buf_len = p.buffer_size },
    )
    else (
      record { data_ = at; size = share bytes p; owned = false },
      record p { curr_buf_len = rest },
    )

-- The loop, with fuel for each byte.
unfoldable pub take_pieces : ℕ → ℕ → Pool → Outcome (List Piece × Pool)
unfolding take_piece
take_pieces zero bytes p = if bytes == 0 then ok ([], p) else abort out_of_fuel
take_pieces (suc k) bytes p =
    let rest = take_pieces k (bytes - (take_piece bytes p).0.size) (take_piece bytes p).1 in
    if bytes == 0
    then ok ([], p)
    else do (pieces, p1) ← rest; ok ((take_piece bytes p).0 ∷ pieces, p1)

-- `handle_finish` of the pool, for a completion with or without `IORING_CQE_F_BUFFER`, of `res` bytes.
unfoldable pub handle_finish : Bool → ℕ → Pool → Outcome (List Piece × Pool)
unfolding take_pieces
handle_finish with_buffer res p =
    if with_buffer then (do check (ltb 0 res); take_pieces res res p) else ok ([], p)

unfoldable pub add_buffer_back : ℕ → ℕ → Pool → Outcome Pool
add_buffer_back ptr size p = do
  check (leb size p.buffer_size)
  check (leb p.buffers_base ptr)
  let bid = (ptr - p.buffers_base) / p.buffer_size
  check (ltb bid p.num_buffers)
  ok (record p { bufs = set p.bufs (bit_and p.tail p.mask) bid; tail = (p.tail + 1) % 2 ^ 16 })

pub record Queue : Type 0 where
  pub tail : ℕ
  pub size : ℕ
  pub capacity : ℕ
  pub mask : ℕ
  pub buf_lens : List ℕ
  pub incremental : Bool

-- `push` of a buffer of a length; the address goes to the kernel.
unfoldable pub push : ℕ → Queue → Outcome (ℕ × Queue)
push len q =
    if leb q.capacity q.size
    then abort exception
    else let bid = bit_and q.tail q.mask in
      ok (
        bid,
        record q {
          buf_lens = set q.buf_lens bid (len % 2 ^ 32);
          tail = (q.tail + 1) % 2 ^ 16;
          size = q.size + 1;
        },
      )

-- The loop over the buffers of a bundle: how many of them are used up.
unfoldable pub count_loop : ℕ → ℕ → ℕ → ℕ → Queue → Outcome (ℕ × Queue)
count_loop zero idx bytes n q = if bytes == 0 then ok (n, q) else abort out_of_fuel
count_loop (suc k) idx bytes n q =
    let bid = bit_and idx q.mask in
    let len = get_or q.buf_lens bid 0 in
    let buf_len = if q.incremental then min bytes len else len in
    let left = len - buf_len in
    let rest =
      count_loop k ((idx + 1) % 2 ^ 16) (bytes - buf_len)
        (if left == 0 then (n + 1) % 2 ^ 16 else n)
        (record q { buf_lens = set q.buf_lens bid left }) in
    if bytes == 0 then ok (n, q) else rest

-- `handle_finish` of the queue, for a buffer id and a count of bytes, with fuel.
unfoldable pub finish_queue : ℕ → Bool → ℕ → ℕ → Queue → Outcome ((ℕ × ℕ) × Queue)
unfolding count_loop
finish_queue fuel with_buffer bid res q =
    if with_buffer
    then (do
      check (ltb 0 res)
      (n, q1) ← count_loop fuel bid res 0 q
      check (leb n q1.size)
      ok ((bid, n), record q1 { size = q1.size - n }))
    else ok ((0, 0), q)
