-- ===== src/Channel/Handles.antt =====
-- include/condy/channel.hpp: `PushFinishHandle` and `PopFinishHandle`, from `start` to the receiver.
-- A session is a channel, the works that the runtime of its handles pends, the handles whose `runtime_` is
-- set, the handles with a stop callback, and what the receivers got. The `result_` of a handle is
-- -ENOTRECOVERABLE until its event is scheduled. The assertion on `runtime_` in the `schedule` of a
-- waiting pop, by which the channel tells it, is left out.
use condy.Prelude.{
  ℕ, ◌+◌, ◌==◌, ltb, check, ◌>>◌, Bool, true, false, List, [], ◌∷◌, ◌++◌, erase, if◌then◌else◌,
  Outcome, ok, ◌>>=◌,
}
use condy.Prelude.Words.{add_size, sub_size}
use condy.Channel.Weights.{weigh, weigh_told}
use condy.Codes.{Code, success, epipe, eagain, ecanceled, enotrecoverable, eidrm}
use condy.Channel.{
  Channel, Event, push_done, pop_done, push_freed, request_push, request_pop, cancel_push,
  cancel_pop,
}

pub record Session (A : Type 0) : Type 0 where
  pub channel : Channel A
  pub pending_works : ℕ
  pub runtimes : List ℕ
  pub stop_callbacks : List ℕ
  pub received : List (Event A)

abbrev pub is_eagain : Code → Bool
is_eagain success = false
is_eagain epipe = false
is_eagain eagain = true
is_eagain ecanceled = false
is_eagain enotrecoverable = false
is_eagain eidrm = false

abbrev pub is : ℕ → ℕ → ℕ
is id x = if id == x then 1 else 0

module _ {A : Type 0} where
  -- `runtime_ != nullptr` of a handle.
  abbrev pub runtime_set : ℕ → Session A → Bool
  runtime_set id s = ltb 0 (weigh (is id) s.runtimes)

  -- `result_ == -ENOTRECOVERABLE` of a handle: none of its events is scheduled or was received.
  abbrev pub result_unset : ℕ → Session A → Bool
  result_unset id s = weigh_told (is id) s.channel.scheduled + weigh_told (is id) s.received == 0

  -- The end of `start`, by whether the result is -EAGAIN: the receiver gets the result, unless the handle has to wait; `possible` is
  -- whether the receiver's stop token can stop.
  abbrev pub started : Bool → Bool → ℕ → Event A → Session A → Session A
  started true possible id e s = record s {
    pending_works = add_size s.pending_works 1;
    stop_callbacks = if possible then id ∷ s.stop_callbacks else s.stop_callbacks;
  }
  started false possible id e s = record s { received = s.received ++ e ∷ [] }

  unfoldable pub start_push : Bool → ℕ → A → Session A → Outcome (Session A)
  start_push possible id x s = do
    (r, c) ← request_push id x s.channel
    ok (
        started (is_eagain r) possible id (push_done id r)
          (record s { channel = c; runtimes = id ∷ s.runtimes }))

  unfoldable pub start_pop : A → Bool → ℕ → Session A → Outcome (Session A)
  start_pop d possible id s = do
    ((r, x), c) ← request_pop d id s.channel
    ok (
        started (is_eagain r) possible id (pop_done id r x)
          (record s { channel = c; runtimes = id ∷ s.runtimes }))

  -- `invoke` of the handle of an event; a fake handle was deleted and is not invoked.
  unfoldable pub invoke : Event A → Session A → Outcome (Session A)
  invoke (push_done id r) s = do
    check (runtime_set id s)
    ok (record s {
      stop_callbacks = erase id s.stop_callbacks;
      pending_works = sub_size s.pending_works 1;
      received = s.received ++ push_done id r ∷ [];
    })
  invoke (pop_done id r x) s = do
    check (runtime_set id s)
    ok (record s {
      stop_callbacks = erase id s.stop_callbacks;
      pending_works = sub_size s.pending_works 1;
      received = s.received ++ pop_done id r x ∷ [];
    })
  invoke (push_freed id) s = ok s

  abbrev pub schedule_event : Event A → Channel A → Channel A
  schedule_event e c = record c { scheduled = c.scheduled ++ e ∷ [] }

  -- `cancel_` of each handle after the call of the channel, by what that returned.
  unfoldable pub cancelled : Bool → ℕ → Event A → Session A → Outcome (Session A)
  cancelled false id e s = ok s
  cancelled true id e s = do
    check (result_unset id s)
    check (runtime_set id s)
    ok (record s { channel = schedule_event e s.channel })

  -- `cancel_` of each handle.
  unfoldable pub cancel_push_handle : ℕ → Session A → Outcome (Session A)
  unfolding cancelled
  cancel_push_handle id s =
      let (found, c) = cancel_push id s.channel in
      cancelled found id (push_done id ecanceled) (record s { channel = c })

  unfoldable pub cancel_pop_handle : A → ℕ → Session A → Outcome (Session A)
  unfolding cancelled
  cancel_pop_handle d id s =
      let (found, c) = cancel_pop id s.channel in
      cancelled found id (pop_done id ecanceled d) (record s { channel = c })
