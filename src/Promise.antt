-- ===== src/Promise.antt =====
-- include/condy/detail/coro.hpp: `PromiseBase`, the lifecycle of a spawned coroutine, and
-- `SenderAwaiter`, the hand-over between a coroutine that suspends and the result it waits for.
-- A coroutine's end (`FinalAwaiter::await_suspend`) runs against the request of the task's owner
-- (`request_detach` or `request_join`). Each is a loop around a compare-exchange; a turn of either is
-- its first load, or one round of its loop with what follows a successful exchange, and a schedule
-- picks who takes the next turn and whether the weak exchange fails spuriously. `callback_` is
-- written in the round in which it is stored: nobody reads it before the exchange succeeds.
pub mod Await
pub mod Lifecycle
use condy.Prelude.{
  ℕ, ◌+◌, Bool, true, false, Option, none, some, List, [], ◌∷◌, ◌++◌, ◌==◌, if◌then◌else◌, panic,
  bad_access, Outcome, ok, abort, check, ◌>>=◌, ◌>>◌,
}

pub data State : Type 0 where
  idle running_joinable running_detached running_joining zombie finished : State

-- `static_cast<int>(state)`
abbrev pub rank : State → ℕ
rank idle = 0
rank running_joinable = 1
rank running_detached = 2
rank running_joining = 3
rank zombie = 4
rank finished = 5

-- What the owner of a task asks for.
pub data Request : Type 0 where
  detach : Request
  join : ℕ → Request

-- A participant before its load, in its loop with the `expected` it has read, or done.
pub data Phase : Type 0 where
  before : Phase
  expecting : State → Phase
  done : Phase

-- The union of `caller_handle_` and `callback_`.
pub data Slot : Type 0 where
  caller_handle callback : ℕ → Slot

-- The shared promise, and how far the two participants are. `destroyed` counts the calls of
-- `handle.destroy()` that came back, `called` lists the callbacks run, `resumed` the callers resumed,
-- and `waits` is what `request_join` returned. `exception` says whether the coroutine ends with an
-- exception that nobody caught; it is read at the end of the coroutine and later only.
pub record System : Type 0 where
  pub state : State
  pub slot : Slot
  pub ending : Phase
  pub asking : Phase
  pub destroyed : ℕ
  pub called : List ℕ
  pub resumed : List ℕ
  pub waits : Option Bool
  pub exception : Bool

-- `mark_running`, after which the coroutine and its owner are on their own.
abbrev pub mark_running : Bool → ℕ → System
mark_running exception caller = record {
  state = running_joinable;
  slot = caller_handle caller;
  ending = before;
  asking = before;
  destroyed = 0;
  called = [];
  resumed = [];
  waits = none;
  exception = exception;
}

-- `compare_exchange_weak`
abbrev pub exchanges : Bool → State → System → Bool
exchanges spurious expected s = if spurious then false else rank s.state == rank expected

-- `handle.destroy()`, with `~PromiseBase`, which panics on an exception that nobody took.
unfoldable pub destroy_handle : System → Outcome System
destroy_handle s =
    if s.exception then abort panic else ok (record s { destroyed = s.destroyed + 1 })

-- What `await_suspend` does once the state it left is known.
unfoldable pub final_after : State → System → Outcome System
unfolding destroy_handle
final_after running_detached s = do s1 ← destroy_handle s; ok (record s1 { ending = done })
final_after running_joining s = elim s.slot [
  | caller_handle h ↦ abort bad_access
  | callback k ↦ ok (record s { called = s.called ++ k ∷ []; ending = done })
]
final_after running_joinable s = ok (record s { ending = done })
final_after idle s = do check false; ok s
final_after zombie s = do check false; ok s
final_after finished s = do check false; ok s

unfoldable pub final_exchange : Bool → State → State → System → Outcome System
unfolding final_after
final_exchange spurious expected desired s =
    if exchanges spurious expected s
    then final_after expected (record s { state = desired })
    else ok (record s { ending = expecting s.state })

-- A round of the loop in `FinalAwaiter::await_suspend`.
unfoldable pub final_round : Bool → State → System → Outcome System
unfolding final_exchange
final_round b idle s = elim s.slot [
  | caller_handle h ↦ ok (record s { resumed = s.resumed ++ h ∷ []; ending = done })
  | callback k ↦ abort bad_access
]
final_round b running_joinable s = final_exchange b running_joinable zombie s
final_round b running_detached s = final_exchange b running_detached finished s
final_round b running_joining s = final_exchange b running_joining finished s
final_round b zombie s = abort panic
final_round b finished s = abort panic

unfoldable pub final_suspend : Bool → Phase → System → Outcome System
unfolding final_round
final_suspend b before s = ok (record s { ending = expecting s.state })
final_suspend b (expecting e) s = final_round b e s
final_suspend b done s = ok s

-- A round of the loop in `request_detach`.
unfoldable pub detach_round : Bool → State → System → Outcome System
unfolding destroy_handle
detach_round b running_joinable s = ok (
    if exchanges b running_joinable s
    then record s { state = running_detached; asking = done }
    else record s { asking = expecting s.state })
detach_round b zombie s =
    if exchanges b zombie s
    then (do s1 ← destroy_handle (record s { state = finished }); ok (record s1 { asking = done }))
    else ok (record s { asking = expecting s.state })
detach_round b idle s = abort panic
detach_round b running_detached s = abort panic
detach_round b running_joining s = abort panic
detach_round b finished s = abort panic

-- A round of the loop in `request_join`.
unfoldable pub join_round : ℕ → Bool → State → System → Outcome System
join_round k b running_joinable s =
    let s1 = record s { slot = callback k } in
    ok (
      if exchanges b running_joinable s
      then record s1 { state = running_joining; waits = some true; asking = done }
      else record s1 { asking = expecting s.state })
join_round k b zombie s = ok (
    if exchanges b zombie s
    then record s { state = finished; waits = some false; asking = done }
    else record s { asking = expecting s.state })
join_round k b idle s = abort panic
join_round k b running_detached s = abort panic
join_round k b running_joining s = abort panic
join_round k b finished s = abort panic

unfoldable pub request_round : Request → Bool → State → System → Outcome System
unfolding detach_round join_round
request_round detach b e s = detach_round b e s
request_round (join k) b e s = join_round k b e s

-- `request_detach` and `request_join`
unfoldable pub request : Request → Bool → Phase → System → Outcome System
unfolding request_round
request r b before s = ok (record s { asking = expecting s.state })
request r b (expecting e) s = request_round r b e s
request r b done s = ok s

-- Who takes a turn, with whether an exchange in it fails spuriously.
pub data Turn : Type 0 where
  of_coroutine of_owner : Bool → Turn

unfoldable pub turn : Request → Turn → System → Outcome System
unfolding final_suspend request
turn r (of_coroutine b) s = final_suspend b s.ending s
turn r (of_owner b) s = request r b s.asking s

unfoldable pub interleave : Request → List Turn → System → Outcome System
unfolding turn
interleave r [] s = ok s
interleave r (t ∷ ts) s = do s1 ← turn r t s; interleave r ts s1
