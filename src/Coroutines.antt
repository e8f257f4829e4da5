-- ===== src/Coroutines.antt =====
-- include/condy/coro.hpp, and `CoroAwaiter` of include/condy/detail/coro.hpp: coroutines that await
-- each other by symmetric transfer. The frames are a store, in which a frame that was destroyed is
-- `none` and a handle is a number; an access to a destroyed frame is a fault. What the body of a coroutine does is
-- data: it ends with a value or an exception, awaits another coroutine and goes on with what that
-- gives it, or lets go of one that it never awaits. A coroutine that is awaited stays `Idle`, so that
-- `final_suspend` hands control to its caller.
pub mod Frames
pub mod Calls
use condy.Prelude.{
  ℕ, zero, suc, ◌+◌, Option, none, some, ◌==◌, if◌then◌else◌, bad_access, out_of_fuel, Outcome, ok,
  abort, ◌>>=◌, ◌>>◌,
}
use condy.Tasks.{Frame, Result, returned, thrown, destroy_frame, take_exception, value_of}

pub data Body (A : Type 0) : Type 0 where
  ends : Result A → Body A
  awaits : Body A → (Result A → Body A) → Body A
  drops : Body A → Body A → Body A

-- Where a coroutine is: at its body, or suspended until a coroutine it awaits is done.
pub data Point (A : Type 0) : Type 0 where
  running : Body A → Point A
  suspended : ℕ → (Result A → Body A) → Point A

-- A frame with its promise; a `caller_handle` of `none` is the no-op coroutine.
pub record CoroFrame (A : Type 0) : Type 0 where
  pub caller_handle : Option ℕ
  pub promise : Frame A
  pub point : Point A

pub record Store (A : Type 0) : Type 0 where
  pub next : ℕ
  pub frames : ℕ → Option (CoroFrame A)

module _ {A : Type 0} where
  abbrev pub put : ℕ → Option (CoroFrame A) → Store A → Store A
  put h c s = record s { frames = λ x. if x == h then c else s.frames x }

  -- A coroutine at its initial suspension.
  abbrev pub fresh : Body A → CoroFrame A
  fresh b = record {
    caller_handle = none;
    promise = record { value = none; exception_ptr = none };
    point = running b;
  }

  -- A call of the coroutine: `get_return_object` and `initial_suspend`.
  unfoldable pub create_coro : Body A → Store A → ℕ × Store A
  create_coro b s = (s.next, record (put s.next (some (fresh b)) s) { next = s.next + 1 })

  abbrev pub at_frame {ℓ} :
      {B : Type ℓ} → Option (CoroFrame A) → (CoroFrame A → Outcome B) → Outcome B
  at_frame none f = abort bad_access
  at_frame (some c) f = f c

  -- `handle.destroy()`
  unfoldable pub destroy_coro : ℕ → Store A → Outcome (Store A)
  unfolding destroy_frame
  destroy_coro h s = at_frame (s.frames h) (λ c. do destroy_frame c.promise; ok (put h none s))

  -- `CoroAwaiterBase::await_suspend`, with the handle that it transfers to.
  unfoldable pub await_suspend_coro : ℕ → ℕ → Store A → Outcome (ℕ × Store A)
  await_suspend_coro child caller s =
      at_frame (s.frames child)
        (λ c. ok (child, put child (some (record c { caller_handle = some caller })) s))

  -- `CoroAwaiter::await_resume`
  unfoldable pub await_resume_coro : ℕ → Store A → Outcome (Result A × Store A)
  unfolding take_exception value_of destroy_coro
  await_resume_coro child s = at_frame (s.frames child) (λ c.
      let (e, p) = take_exception c.promise in
      let s1 = put child (some (record c { promise = p })) s in
      elim e [
        | some x ↦ do s2 ← destroy_coro child s1; ok (thrown x, s2)
        | none ↦ do a ← value_of p; s2 ← destroy_coro child s1; ok (returned a, s2)
      ])

  -- `return_value` and `unhandled_exception`
  unfoldable pub settle : Result A → Frame A → Frame A
  settle (returned a) p = record p { value = some a }
  settle (thrown e) p = record p { exception_ptr = some e }

  -- What the coroutine `h` does up to the next transfer of control, with the handle that goes on.
  unfoldable pub resume_point : ℕ → CoroFrame A → Point A → Store A → Outcome (Option ℕ × Store A)
  unfolding settle create_coro destroy_coro await_suspend_coro await_resume_coro
  resume_point h c (running (ends r)) s =
      ok (c.caller_handle, put h (some (record c { promise = settle r c.promise })) s)
  resume_point h c (running (awaits b k)) s = do
    let (child, s1) = create_coro b s
    (target, s2) ←
        await_suspend_coro child h (put h (some (record c { point = suspended child k })) s1)
    ok (some target, s2)
  resume_point h c (running (drops b rest)) s = do
    let (child, s1) = create_coro b s
    s2 ← destroy_coro child s1
    ok (some h, put h (some (record c { point = running rest })) s2)
  resume_point h c (suspended child k) s = do
    (r, s1) ← await_resume_coro child s
    ok (some h, put h (some (record c { point = running (k r) })) s1)

  unfoldable pub resume_coro : ℕ → Store A → Outcome (Option ℕ × Store A)
  unfolding resume_point
  resume_coro h s = at_frame (s.frames h) (λ c. resume_point h c c.point s)

  -- Until the no-op coroutine is resumed.
  unfoldable pub run_coro : ℕ → Option ℕ → Store A → Outcome (Store A)
  unfolding resume_coro
  run_coro n none s = ok s
  run_coro zero (some h) s = abort out_of_fuel
  run_coro (suc n) (some h) s = do (next, s1) ← resume_coro h s; run_coro n next s1

  -- The reference: awaiting is a call.
  unfoldable pub evaluate : Body A → Result A
  evaluate (ends r) = r
  evaluate (awaits b k) = evaluate (k (evaluate b))
  evaluate (drops b rest) = evaluate rest
