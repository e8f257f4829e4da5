-- ===== src/Tasks.antt =====
-- include/condy/task.hpp and include/condy/detail/task.hpp: the owner of a spawned coroutine, with the
-- frame that include/condy/detail/coro.hpp keeps the result in. A frame stands by its address in the
-- task; the race between the end of the coroutine and the request for it is that of Promise.antt.
pub mod Ends
use condy.Prelude.{
  bad_access, ℕ, ◌+◌, Bool, true, false, Option, none, some, List, [], ◌∷◌, map, panic, exception,
  Outcome, ok, abort, ◌>>=◌, ◌>>◌,
}
use condy.Prelude.Words.{add_size, sub_size}
use condy.Promise.{System, Turn, join, interleave}

-- The result of a coroutine in its promise: `value_` and `exception_`.
pub record Frame (A : Type 0) : Type 0 where
  pub value : Option A
  pub exception_ptr : Option ℕ

-- What an awaiting or a waiting caller gets.
pub data Result (A : Type 0) : Type 0 where
  returned : A → Result A
  thrown : ℕ → Result A

-- `TaskBase::TaskBase(TaskBase &&)` and `operator co_await`: the handle and what is left in its place.
unfoldable pub take_handle : Option ℕ → Option ℕ × Option ℕ
take_handle handle = (handle, none)

unfoldable pub joinable : Option ℕ → Bool
joinable none = false
joinable (some h) = true

-- `~TaskBase`
unfoldable pub destroy_task : Option ℕ → Outcome (Unit {0})
destroy_task none = ok tt
destroy_task (some h) = abort panic

-- `operator=(TaskBase &&)` between two tasks: the handles of the target and of the source after it.
unfoldable pub move_assign : Option ℕ → Option ℕ → Outcome (Option ℕ × Option ℕ)
unfolding destroy_task take_handle
move_assign target source = do destroy_task target; ok (take_handle source)

-- `TaskAwaiterBase::await_ready`
unfoldable pub await_ready : Option ℕ → Outcome Bool
await_ready none = abort exception
await_ready (some h) = ok false

-- The checks of `wait_inner_`.
unfoldable pub wait_inner : Bool → Option ℕ → Outcome ℕ
wait_inner true handle = abort exception
wait_inner false none = abort exception
wait_inner false (some h) = ok h

module _ {A : Type 0} where
  -- `handle.destroy()`, with `~PromiseBase`.
  unfoldable pub destroy_frame : Frame A → Outcome (Unit {0})
  destroy_frame f = elim f.exception_ptr [ none ↦ ok tt | some e ↦ abort panic ]

  -- `exception()`, which moves the pointer out.
  unfoldable pub take_exception : Frame A → Option ℕ × Frame A
  take_exception f = (f.exception_ptr, record f { exception_ptr = none })

  -- `value()`
  unfoldable pub value_of : Frame A → Outcome A
  value_of f = elim f.value [ none ↦ abort exception | some a ↦ ok a ]

-- A task, its coroutine, and the runtime of the caller. `frame` is `none` when it has been destroyed;
-- `continued` lists the callers that go on.
pub record Await (A : Type 0) : Type 0 where
  pub system : System
  pub frame : Option (Frame A)
  pub pending_works : ℕ
  pub continued : List ℕ

-- Which callers go on after the race: the caller itself when `request_join` says not to wait, else the
-- caller for each call of the callback, which schedules it or sets the promise that it waits for.
abbrev pub goes_on : ℕ → Option Bool → List ℕ → List ℕ
goes_on caller none called = []
goes_on caller (some true) called = map (λ _. caller) called
goes_on caller (some false) called = caller ∷ []

module _ {A : Type 0} where
  -- `handle_.destroy()` of the task's coroutine.
  unfoldable pub release : Await A → Outcome (Await A)
  unfolding destroy_frame
  release a = elim a.frame [
    | none ↦ abort bad_access
    | some f ↦ do destroy_frame f; ok (record a { frame = none })
  ]

  -- The result in a frame, with `handle_.destroy()` before the exception is thrown again or the value
  -- is returned.
  unfoldable pub result_of : Frame A → Await A → Outcome (Result A × Await A)
  unfolding take_exception value_of release
  result_of f a =
      let (e, f1) = take_exception f in
      let a1 = record a { frame = some f1 } in
      elim e [
        | some x ↦ do a2 ← release a1; ok (thrown x, a2)
        | none ↦ do v ← value_of f1; a2 ← release a1; ok (returned v, a2)
      ]

  -- The end of `wait` and of `TaskAwaiter::await_resume`, with the frame that the handle leads to.
  unfoldable pub take_result : Option (Frame A) → Await A → Outcome (Result A × Await A)
  unfolding result_of
  take_result none a = abort bad_access
  take_result (some f) a = result_of f a

  -- `TaskAwaiterBase::await_suspend`, where `turns` is how `request_join` and the end of the coroutine
  -- take turns; the callback is the awaiter `k`.
  unfoldable pub await_suspend_task : ℕ → ℕ → List Turn → Await A → Outcome (Await A)
  await_suspend_task k caller turns a = do
    s ← interleave (join k) turns a.system
    ok (record a {
      system = s;
      pending_works = add_size a.pending_works 1;
      continued = goes_on caller s.waits s.called;
    })

  -- `TaskAwaiter::await_resume`
  unfoldable pub await_resume_task : Await A → Outcome (Result A × Await A)
  unfolding take_result
  await_resume_task a =
      take_result a.frame (record a { pending_works = sub_size a.pending_works 1 })

  -- `wait`, with the handle that it leaves in the task.
  unfoldable pub wait :
      Bool → Option ℕ → ℕ → ℕ → List Turn → Await A → Option ℕ × Outcome (Result A × Await A)
  unfolding take_handle wait_inner take_result
  wait in_runtime task k caller turns a =
      let (handle, left) = take_handle task in
      (
        left,
        do
          h ← wait_inner in_runtime handle
          s ← interleave (join k) turns a.system
          take_result a.frame
              (record a { system = s; continued = goes_on caller s.waits s.called }),
      )
