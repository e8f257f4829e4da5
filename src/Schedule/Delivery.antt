-- ===== src/Schedule/Delivery.antt =====
-- include/condy/runtime.hpp: a scheduled work is not lost while the ring is being enabled.
use condy.Prelude.{
  ℕ, ◌+◌, ◌≡◌, refl, ◌⊎◌, inl, inr, Bool, true, false, List, [], ◌∷◌, ◌++◌, ◌==◌, if◌then◌else◌,
  arith,
}
use condy.Work.{WorkType, common, ignore, schedule, cancel}
use condy.Schedule.{
  Caller, this_runtime, other_runtime, no_runtime, Runtime, schedule_msg_ring, schedule_locked,
  schedule_internal, submit_caller, send_if_enabled, cancel_internal, wakeup, allow_exit, enable,
}

abbrev pub count : ℕ → List ℕ → ℕ
count w [] = 0
count w (x ∷ xs) = (if w == x then 1 else 0) + count w xs

abbrev pub is_schedule : WorkType → ℕ → ℕ
is_schedule schedule n = n
is_schedule common n = 0
is_schedule ignore n = 0
is_schedule cancel n = 0

-- The messages that carry the work `w`.
abbrev pub sent : ℕ → List (ℕ × WorkType) → ℕ
sent w [] = 0
sent w ((x, t) ∷ ms) = is_schedule t (if w == x then 1 else 0) + sent w ms

-- How often a work is in a queue or a message.
abbrev pub held : ℕ → Runtime → ℕ
held w r = count w r.local_queue + count w r.global_queue + sent w r.msg_ring

-- What the threads do. A load of `ring_enabled_` that reads `true` comes after `run` has stored it, so
-- `early` loads read `false` and may meet a ring that was enabled since.
pub data Act : Type 0 where
  schedules : Caller → ℕ → Act
  schedules_early : Caller → ℕ → Act
  cancels : Caller → ℕ → Act
  exits : Caller → Act
  enables : Act

unfoldable pub act : Act → Runtime → Runtime
unfolding schedule_internal cancel_internal allow_exit enable
act (schedules c w) r = schedule_internal r.ring_enabled c w r
act (schedules_early c w) r = schedule_internal false c w r
act (cancels c d) r = cancel_internal c d r
act (exits c) r = allow_exit c r
act enables r = enable r

unfoldable pub acts : List Act → Runtime → Runtime
unfolding act
acts [] r = r
acts (a ∷ later) r = acts later (act a r)

abbrev pub scheduled_by : ℕ → Act → ℕ
scheduled_by w (schedules c x) = if w == x then 1 else 0
scheduled_by w (schedules_early c x) = if w == x then 1 else 0
scheduled_by w (cancels c d) = 0
scheduled_by w (exits c) = 0
scheduled_by w enables = 0

abbrev pub scheduled : ℕ → List Act → ℕ
scheduled w [] = 0
scheduled w (a ∷ later) = scheduled_by w a + scheduled w later

-- The global queue is in use only before the ring is enabled.
abbrev pub IsFlushed : Runtime → Type 0
IsFlushed r = (r.ring_enabled ≡ false) ⊎ (r.global_queue ≡ [])

count-append : (w : ℕ) (xs ys : List ℕ) → count w (xs ++ ys) ≡ count w xs + count w ys
count-append w [] ys = omega arith
count-append w (x ∷ xs) ys = omega (arith, count-append w xs ys)

sent-append : (w : ℕ) (xs ys : List (ℕ × WorkType)) → sent w (xs ++ ys) ≡ sent w xs + sent w ys
sent-append w [] ys = omega arith
sent-append w ((x, t) ∷ xs) ys = omega (arith, sent-append w xs ys)

abbrev Keeps : ℕ → Runtime → Runtime → ℕ → Type 0
Keeps w r r1 n = (held w r1 ≡ held w r + n) × (IsFlushed r → IsFlushed r1)

msg-Keeps :
    (w : ℕ) (c : Caller) (m : ℕ × WorkType) (r : Runtime)
    → Keeps w r (schedule_msg_ring c m r) (sent w (m ∷ []))
unfolding schedule_msg_ring
msg-Keeps w this_runtime m r = (omega (arith, sent-append w r.msg_ring (m ∷ [])), λ f. f)
msg-Keeps w other_runtime m r = (omega (arith, sent-append w r.msg_ring (m ∷ [])), λ f. f)
msg-Keeps w no_runtime m r = (omega (arith, sent-append w r.msg_ring (m ∷ [])), λ f. f)

Keeps-if :
    (b : Bool) (w : ℕ) (r x y : Runtime) (n : ℕ)
    → Keeps w r x n
    → (b ≡ false → Keeps w r y n)
    → Keeps w r (if b then x else y) n
Keeps-if true w r x y n k l = k
Keeps-if false w r x y n k l = l refl

locked-Keeps :
    (w : ℕ) (c : Caller) (x : ℕ) (r : Runtime)
    → Keeps w r (schedule_locked c x r) (if w == x then 1 else 0)
unfolding schedule_locked
locked-Keeps w c x r =
    let k = msg-Keeps w c (x, schedule) r in
    Keeps-if r.ring_enabled w r _ _ _ (omega (arith, k.0), k.1)
      (λ e. (omega (arith, count-append w r.global_queue (x ∷ [])), λ f. inl e))

internal-Keeps :
    (w : ℕ) (seen : Bool) (c : Caller) (x : ℕ) (r : Runtime)
    → Keeps w r (schedule_internal seen c x r) (if w == x then 1 else 0)
unfolding schedule_internal
internal-Keeps w seen this_runtime x r =
    (omega (arith, count-append w r.local_queue (x ∷ [])), λ f. f)
internal-Keeps w true other_runtime x r =
    let k = msg-Keeps w other_runtime (x, schedule) r in (omega (arith, k.0), k.1)
internal-Keeps w true no_runtime x r =
    let k = msg-Keeps w no_runtime (x, schedule) r in (omega (arith, k.0), k.1)
internal-Keeps w false other_runtime x r = locked-Keeps w other_runtime x r
internal-Keeps w false no_runtime x r = locked-Keeps w no_runtime x r

submitted-Keeps :
    (w : ℕ) (c : Caller) (r r1 : Runtime) → Keeps w r r1 0 → Keeps w r (submit_caller c r1) 0
submitted-Keeps w this_runtime r r1 k = k
submitted-Keeps w other_runtime r r1 k = k
submitted-Keeps w no_runtime r r1 k = k

if_enabled-Keeps :
    (w : ℕ) (c : Caller) (m : ℕ × WorkType) (r : Runtime)
    → sent w (m ∷ []) ≡ 0
    → Keeps w r (send_if_enabled c m r) 0
if_enabled-Keeps w c m r none_sent =
    let k = msg-Keeps w c m r in
    Keeps-if r.ring_enabled w r _ _ 0
      (submitted-Keeps w c r (schedule_msg_ring c m r) (omega (arith, k.0, none_sent), k.1))
      (λ e. (omega arith, λ f. f))

act-Keeps : (w : ℕ) (a : Act) (r : Runtime) → Keeps w r (act a r) (scheduled_by w a)
unfolding act cancel_internal allow_exit wakeup enable
act-Keeps w (schedules c x) r = internal-Keeps w r.ring_enabled c x r
act-Keeps w (schedules_early c x) r = internal-Keeps w false c x r
act-Keeps w (cancels this_runtime d) r = (omega arith, λ f. f)
act-Keeps w (cancels other_runtime d) r = if_enabled-Keeps w other_runtime (d, cancel) r refl
act-Keeps w (cancels no_runtime d) r = if_enabled-Keeps w no_runtime (d, cancel) r refl
act-Keeps w (exits this_runtime) r = (omega arith, λ f. f)
act-Keeps w (exits other_runtime) r =
    if_enabled-Keeps w other_runtime (0, ignore) (record r { exit_allowed = true }) refl
act-Keeps w (exits no_runtime) r =
    if_enabled-Keeps w no_runtime (0, ignore) (record r { exit_allowed = true }) refl
act-Keeps w enables r = (omega (arith, count-append w r.local_queue r.global_queue), λ f. inr refl)

-- From a runtime whose global queue is empty if its ring is enabled, in any interleaving of schedules
-- from every thread (with a first load of the flag that is up to date or early), cancellations, exits
-- and the enabling of the ring: each work is in a queue or a message as often as it was at first and
-- was scheduled since, and no work is in the global queue once the ring is enabled.
pub acts-held :
    (w : ℕ) (given : List Act) (r : Runtime)
    → IsFlushed r
    → (held w (acts given r) ≡ held w r + scheduled w given) × IsFlushed (acts given r)
unfolding acts
acts-held w [] r f = (omega arith, f)
acts-held w (a ∷ later) r f =
    let (kept, flushed) = act-Keeps w a r in
    let (held_then, flushed_then) = acts-held w later (act a r) (flushed f) in
    (omega (arith, kept, held_then), flushed_then)
