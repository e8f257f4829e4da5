-- ===== src/Tests/Lines.antt =====
-- A buffer queue of two slots, consumed incrementally.
use condy.Prelude.{◌≡◌, refl, true, List, [], ◌∷◌, ok, arith}
use condy.Prelude.Words.{bit_ceil}
use condy.Buffers.{Queue}
use condy.Buffers.Line.{AllFit, Call, pushes, completes, queue_run, line_run, empty_queue, no_line}
use condy.Buffers.Line.Keeps.{queue_run_lem}

-- The third push is refused; a bundle uses up the first buffer and a part of the second.
abbrev traffic : List Call
traffic =
    pushes 10
    ∷ pushes 20
    ∷ pushes 30
    ∷ completes 0 4
    ∷ completes 0 11
    ∷ pushes 30
    ∷ completes 1 15
    ∷ completes 0 30
    ∷ []

traffic-AllFit : AllFit true (bit_ceil 2) traffic no_line
unfolding bit_ceil
traffic-AllFit = (
  tt,
  (
    tt,
    (
      tt,
      (
        (refl, omega arith, omega arith),
        (
          (refl, omega arith, omega arith),
          (tt, ((refl, omega arith, omega arith), ((refl, omega arith, omega arith), tt))),
        ),
      ),
    ),
  ),
)

queue_run_example :
    (q : Queue) × (queue_run traffic (empty_queue 2 true)
      ≡ ok (line_run true (bit_ceil 2) traffic no_line, q))
queue_run_example = queue_run_lem 2 true traffic (omega arith) traffic-AllFit
