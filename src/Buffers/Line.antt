-- ===== src/Buffers/Line.antt =====
-- include/condy/provided_buffers.hpp: a buffer queue as the line in which its buffers wait for the kernel.
pub mod Used
pub mod Keeps
use condy.Prelude.{
  ℕ, zero, suc, ◌+◌, ◌-◌, ◌%◌, ◌^◌, ◌≤◌, ◌<◌, ◌≡◌, min, Bool, true, false, List, [], ◌∷◌, ◌++◌,
  ◌==◌, leb, if◌then◌else◌, length, replicate, exception, Outcome, ok, abort, ◌>>=◌,
}
use condy.Prelude.Words.{bit_ceil}
use condy.Buffers.{Queue, push, finish_queue}

pub data Call : Type 0 where
  pushes : ℕ → Call
  completes : ℕ → ℕ → Call

pub data Reply : Type 0 where
  bid : ℕ → Reply
  full : Reply
  info : ℕ → ℕ → Reply

-- The bytes left of each buffer, the first to be used first, and how many were used up before.
pub record Line : Type 0 where
  pub head : ℕ
  pub lens : List ℕ

-- What `push` returns or throws.
abbrev pub answer : Queue → Outcome (ℕ × Queue) → Outcome (Reply × Queue)
answer q (ok (b, q1)) = ok (bid b, q1)
answer q (abort exception) = ok (full, q)
answer q (abort f) = abort f

-- A round of the loop for each buffer there can be is fuel enough.
unfoldable pub queue_step : Call → Queue → Outcome (Reply × Queue)
unfolding push finish_queue
queue_step (pushes len) q = answer q (push len q)
queue_step (completes b bytes) q = do
  ((b1, n), q1) ← finish_queue q.capacity true b bytes q
  ok (info b1 n, q1)

unfoldable pub queue_run : List Call → Queue → Outcome (List Reply × Queue)
unfolding queue_step
queue_run [] q = ok ([], q)
queue_run (c ∷ cs) q = do (r, q1) ← queue_step c q; (rs, q2) ← queue_run cs q1; ok (r ∷ rs, q2)

-- The buffers that are used up by so many bytes, and those that are left. A buffer is used in part only
-- where buffers are consumed incrementally.
abbrev pub consume : Bool → ℕ → List ℕ → ℕ × List ℕ
consume incremental bytes [] = (0, [])
consume incremental bytes (l ∷ ls) =
    let u = if incremental then min bytes l else l in
    let (n, rest) = consume incremental (bytes - u) ls in
    if bytes == 0 then (0, l ∷ ls) else if l - u == 0 then (1 + n, rest) else (0, (l - u) ∷ ls)

abbrev pub line_step : Bool → ℕ → Call → Line → Reply × Line
line_step incremental capacity (pushes len) t =
    if leb capacity (length t.lens) then (full, t) else (
      bid ((t.head + length t.lens) % capacity),
      record t { lens = t.lens ++ (len % 2 ^ 32) ∷ [] },
    )
line_step incremental capacity (completes b bytes) t =
    let (n, rest) = consume incremental bytes t.lens in
    (info b n, record { head = t.head + n; lens = rest })

abbrev pub line_run : Bool → ℕ → List Call → Line → List Reply
line_run incremental capacity [] t = []
line_run incremental capacity (c ∷ cs) t =
    let (r, t1) = line_step incremental capacity c t in r ∷ line_run incremental capacity cs t1

abbrev pub total : List ℕ → ℕ
total [] = 0
total (l ∷ ls) = l + total ls

-- A completion is for some bytes, from the first buffer on, and for no more than the buffers hold.
abbrev pub Fits : ℕ → Call → Line → Type 0
Fits capacity (pushes len) t = Unit
Fits capacity (completes b bytes) t = (b ≡ t.head % capacity) × (0 < bytes) × (bytes ≤ total t.lens)

abbrev pub AllFit : Bool → ℕ → List Call → Line → Type 0
AllFit incremental capacity [] t = Unit
AllFit incremental capacity (c ∷ cs) t =
    Fits capacity c t × AllFit incremental capacity cs (line_step incremental capacity c t).1

abbrev pub empty_queue : ℕ → Bool → Queue
empty_queue n incremental = record {
  tail = 0;
  size = 0;
  capacity = bit_ceil n;
  mask = bit_ceil n - 1;
  buf_lens = replicate (bit_ceil n) 0;
  incremental = incremental;
}

abbrev pub no_line : Line
no_line = record { head = 0; lens = [] }
