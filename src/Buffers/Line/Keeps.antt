-- ===== src/Buffers/Line/Keeps.antt =====
-- include/condy/provided_buffers.hpp: every history of a buffer queue goes as its line goes.
use condy.Prelude.{
  ℕ, ◌+◌, ◌-◌, ◌%◌, ◌^◌, ◌≤◌, ◌<◌, ◌≡◌, refl, sym, ap, ◌∙◌, inl, inr, min, Bool, true, false, List,
  [], ◌∷◌, ◌++◌, ◌==◌, leb, lt→ltb, Bool-cases, if◌then◌else◌, length, length-set, length-append,
  length-replicate, set, bit_and, ok, arith,
}
use mathlib.Core.Path.{subst}
use native.Mathlib.Nat.{mod-mod}
use condy.Prelude.Slots.{Holds, Holds-append}
use condy.Prelude.Words.{bit_ceil, bit_ceil-le, bit_ceil-IsPow2}
use condy.Buffers.{Queue, push, count_loop, finish_queue}
use condy.Buffers.Line.{
  Call, pushes, completes, Line, queue_step, queue_run, consume, line_step, line_run, Fits, AllFit,
  empty_queue, no_line,
}
use condy.Buffers.Line.Used.{IsMasked, masked, wrapped, count_loop-Uses}

-- A queue whose buffers are those of the line.
record IsLine (q : Queue) (t : Line) : Type 0 where
  is_masked : IsMasked q
  size_is : q.size ≡ length t.lens
  fits : length t.lens ≤ q.capacity
  tail_is : q.tail % q.capacity ≡ (t.head + length t.lens) % q.capacity
  holds : Holds q.buf_lens q.capacity t.head 0 t.lens

abbrev Steps : Call → Queue → Line → Type 0
Steps c q t =
    let (r, t1) = line_step q.incremental q.capacity c t in
    (q1 : Queue) × (queue_step c q ≡ ok (r, q1))
    × (q1.capacity ≡ q.capacity)
    × (q1.incremental ≡ q.incremental)
    × IsLine q1 t1

push-Steps : (len : ℕ) (q : Queue) (t : Line) → IsLine q t → Steps (pushes len) q t
unfolding queue_step push
push-Steps len q t k = elim (Bool-cases (leb q.capacity (length t.lens))) [
  | inl none_free ↦
      let none_free_too : leb q.capacity q.size ≡ true =
        ap (leb q.capacity) k.size_is ∙ none_free in
      rw none_free (q, simp none_free_too, refl, refl, k)
  | inr room ↦
      let room_too : leb q.capacity q.size ≡ false = ap (leb q.capacity) k.size_is ∙ room in
      let at : bit_and q.tail q.mask ≡ (t.head + length t.lens) % q.capacity =
        masked q q.tail (t.head + length t.lens) k.is_masked k.tail_is in
      let free : length t.lens < q.capacity = ground arith in
      let longer : length (t.lens ++ (len % 2 ^ 32) ∷ []) ≡ length t.lens + 1 =
        length-append t.lens ((len % 2 ^ 32) ∷ []) in
      let slot : ℕ = (t.head + length t.lens) % q.capacity in
      let q1 : Queue = record q {
        buf_lens = set q.buf_lens slot (len % 2 ^ 32);
        tail = (q.tail + 1) % 2 ^ 16;
        size = q.size + 1;
      } in
      rw room (
        q1,
        simp (room_too, at),
        refl,
        refl,
        record {
          is_masked = record {
            log = k.is_masked.log;
            capacity_is = k.is_masked.capacity_is;
            mask_is = k.is_masked.mask_is;
            short = k.is_masked.short;
            long = length-set q.buf_lens slot (len % 2 ^ 32) ∙ k.is_masked.long;
          };
          size_is = omega (arith, k.size_is, longer);
          fits = omega (arith, longer, free);
          tail_is =
              wrapped q q.tail (t.head + length t.lens) k.is_masked k.tail_is
              ∙ ap (λ (n : ℕ). n % q.capacity) (omega (arith, longer));
          holds =
              Holds-append q.buf_lens q.capacity t.head 0 (len % 2 ^ 32) t.lens k.is_masked.long
                free k.holds;
        },
      )
]

-- Each buffer is used up or left.
consume-parts :
    (inc : Bool) (bytes : ℕ) (ls : List ℕ)
    → (consume inc bytes ls).0 + length (consume inc bytes ls).1 ≡ length ls
consume-parts inc bytes [] = refl
consume-parts inc bytes (l ∷ ls) =
    let u : ℕ = if inc then min bytes l else l in
    elim (Bool-cases (bytes == 0)) [
      | inl z ↦ simp z (omega arith)
      | inr more ↦ elim (Bool-cases (l - u == 0)) [
        | inl gone ↦ simp (more, gone) (omega (arith, consume-parts inc (bytes - u) ls))
        | inr left ↦ simp (more, left) (omega arith)
      ]
    ]

complete-Steps :
    (b bytes : ℕ) (q : Queue) (t : Line)
    → IsLine q t
    → Fits q.capacity (completes b bytes) t
    → Steps (completes b bytes) q t
unfolding queue_step finish_queue
complete-Steps b bytes q t k (first, some_bytes, enough) =
    let n : ℕ = (consume q.incremental bytes t.lens).0 in
    let rest : List ℕ = (consume q.incremental bytes t.lens).1 in
    let parts : n + length rest ≡ length t.lens = consume-parts q.incremental bytes t.lens in
    let (buf, eq, long, holds) =
      count_loop-Uses t.lens q.capacity b bytes 0 t.head q k.is_masked k.fits k.fits
        (omega (arith, k.fits, k.is_masked.short))
        (ap (λ (x : ℕ). x % q.capacity) first ∙ mod-mod t.head q.capacity) k.holds enough in
    let q1 : Queue = record q { buf_lens = buf; size = q.size - n } in
    let counted : count_loop q.capacity b bytes 0 q ≡ ok (n, record q { buf_lens = buf }) =
      eq ∙ ap (λ (x : ℕ). ok (x, record q { buf_lens = buf })) (omega arith) in
    let there : leb n q.size ≡ true =
      let few : n ≤ q.size = omega (arith, parts, k.size_is) in ground arith in
    (
      q1,
      simp (lt→ltb 0 bytes some_bytes, counted, there),
      refl,
      refl,
      record {
        is_masked = record {
          log = k.is_masked.log;
          capacity_is = k.is_masked.capacity_is;
          mask_is = k.is_masked.mask_is;
          short = k.is_masked.short;
          long = long;
        };
        size_is = omega (arith, parts, k.size_is);
        fits = omega (arith, parts, k.fits);
        tail_is = k.tail_is ∙ ap (λ (x : ℕ). x % q.capacity) (omega (arith, parts));
        holds = holds;
      },
    )

queue_step-Steps :
    (c : Call) (q : Queue) (t : Line) → IsLine q t → Fits q.capacity c t → Steps c q t
queue_step-Steps (pushes len) q t k f = push-Steps len q t k
queue_step-Steps (completes b bytes) q t k f = complete-Steps b bytes q t k f

queue_run-line :
    (cs : List Call) (q : Queue) (t : Line)
    → IsLine q t
    → AllFit q.incremental q.capacity cs t
    → (q1 : Queue) × (queue_run cs q ≡ ok (line_run q.incremental q.capacity cs t, q1))
unfolding queue_run
queue_run-line [] q t k f = (q, refl)
queue_run-line (c ∷ cs) q t k (f, fs) =
    let (q1, eq, sized, same, k1) = queue_step-Steps c q t k f in
    let t1 : Line = (line_step q.incremental q.capacity c t).1 in
    let (q2, eq2) = queue_run-line cs q1 t1 k1 (
      subst (λ (n : ℕ). AllFit q1.incremental n cs t1) (sym sized)
        (subst (λ (b : Bool). AllFit b q.capacity cs t1) (sym same) fs)) in
    (q2, simp (eq, eq2, sized, same))

-- On a new queue for up to `2 ^ 14` buffers, take any history of pushes and completions in which each completion has
-- some bytes, starts at the first buffer in the line and has no more bytes than the buffers hold. No assertion
-- fails, the loop over a bundle ends within a round for each buffer of the queue, and the replies are those of the line: a
-- push is refused exactly when the line is as long as the capacity, gets the next id in turn otherwise,
-- and a completion gives its first id and the number of buffers that are used up.
pub queue_run_lem :
    (n : ℕ) (incremental : Bool) (cs : List Call)
    → n ≤ 2 ^ 14
    → AllFit incremental (bit_ceil n) cs no_line
    → (q : Queue) × (queue_run cs (empty_queue n incremental)
        ≡ ok (line_run incremental (bit_ceil n) cs no_line, q))
queue_run_lem n incremental cs few fs =
    let (pow, _) = bit_ceil-IsPow2 n (omega arith) in
    queue_run-line cs (empty_queue n incremental) no_line
      (record {
        is_masked = record {
          log = pow.log;
          capacity_is = pow.is_pow;
          mask_is = refl;
          short = bit_ceil-le n (2 ^ 15) (omega arith) (omega arith);
          long = length-replicate (bit_ceil n) 0;
        };
        size_is = refl;
        fits = omega arith;
        tail_is = refl;
        holds = λ i less. absurd (omega arith);
      })
      fs
