-- ===== src/Schedule.antt =====
-- include/condy/runtime.hpp: how works and messages get to a runtime from its own thread, from the
-- thread of another runtime and from a thread without one, while `run` enables the ring. A message
-- stands by its address and its tag, which Work.antt encodes in one word. Each access to the atomic
-- and each section under the mutex is a step of its own.
pub mod Delivery
use condy.Prelude.{ℕ, ◌+◌, Bool, true, false, List, [], ◌∷◌, ◌++◌, if◌then◌else◌}
use condy.Work.{WorkType, ignore, schedule, cancel}

-- Where a call comes from: `detail::Context::current().runtime()`.
pub data Caller : Type 0 where
  this_runtime other_runtime no_runtime : Caller

-- `msg_ring` lists the messages to this ring. `submitted` counts the submissions of the caller's ring
-- and `pended` the works that the caller's runtime pends for its messages; `prepared` lists the
-- operations whose cancellation is prepared on this ring.
pub record Runtime : Type 0 where
  pub local_queue : List ℕ
  pub global_queue : List ℕ
  pub msg_ring : List (ℕ × WorkType)
  pub ring_enabled : Bool
  pub exit_allowed : Bool
  pub pended : ℕ
  pub submitted : ℕ
  pub prepared : List ℕ

-- `schedule_msg_ring_`, where `sync_msg_ring` succeeds.
unfoldable pub schedule_msg_ring : Caller → ℕ × WorkType → Runtime → Runtime
schedule_msg_ring other_runtime m r = record r {
  msg_ring = r.msg_ring ++ m ∷ [];
  pended = r.pended + 1;
}
schedule_msg_ring this_runtime m r = record r {
  msg_ring = r.msg_ring ++ m ∷ [];
  pended = r.pended + 1;
}
schedule_msg_ring no_runtime m r = record r { msg_ring = r.msg_ring ++ m ∷ [] }

-- The section of `schedule_internal` under the mutex, with the message sent after its unlocking.
unfoldable pub schedule_locked : Caller → ℕ → Runtime → Runtime
unfolding schedule_msg_ring
schedule_locked c w r =
    if r.ring_enabled
    then schedule_msg_ring c (w, schedule) r
    else record r { global_queue = r.global_queue ++ w ∷ [] }

-- `schedule_internal`, where `seen` is what the first load of `ring_enabled_` read.
unfoldable pub schedule_internal : Bool → Caller → ℕ → Runtime → Runtime
unfolding schedule_locked
schedule_internal seen this_runtime w r = record r { local_queue = r.local_queue ++ w ∷ [] }
schedule_internal true other_runtime w r = schedule_msg_ring other_runtime (w, schedule) r
schedule_internal true no_runtime w r = schedule_msg_ring no_runtime (w, schedule) r
schedule_internal false other_runtime w r = schedule_locked other_runtime w r
schedule_internal false no_runtime w r = schedule_locked no_runtime w r

abbrev pub submit_caller : Caller → Runtime → Runtime
submit_caller other_runtime r = record r { submitted = r.submitted + 1 }
submit_caller this_runtime r = r
submit_caller no_runtime r = r

abbrev pub send_if_enabled : Caller → ℕ × WorkType → Runtime → Runtime
send_if_enabled c m r = if r.ring_enabled then submit_caller c (schedule_msg_ring c m r) else r

unfoldable pub cancel_internal : Caller → ℕ → Runtime → Runtime
unfolding schedule_msg_ring
cancel_internal this_runtime data_ r = record r { prepared = r.prepared ++ data_ ∷ [] }
cancel_internal other_runtime data_ r = send_if_enabled other_runtime (data_, cancel) r
cancel_internal no_runtime data_ r = send_if_enabled no_runtime (data_, cancel) r

unfoldable pub wakeup : Caller → Runtime → Runtime
unfolding schedule_msg_ring
wakeup this_runtime r = r
wakeup other_runtime r = send_if_enabled other_runtime (0, ignore) r
wakeup no_runtime r = send_if_enabled no_runtime (0, ignore) r

unfoldable pub allow_exit : Caller → Runtime → Runtime
unfolding wakeup
allow_exit c r = wakeup c (record r { exit_allowed = true })

-- The section under the mutex in the first call of `run`, with `flush_global_queue_`.
unfoldable pub enable : Runtime → Runtime
enable r = record r {
  local_queue = r.local_queue ++ r.global_queue;
  global_queue = [];
  ring_enabled = true;
}
