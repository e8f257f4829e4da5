-- ===== src/Promise/Await.antt =====
-- include/condy/detail/coro.hpp: `SenderAwaiter`, where a result may come while the operation is being
-- started, before the coroutine has suspended, or after that.
use condy.Prelude.{
  ℕ, ◌≡◌, refl, Bool, true, false, Option, none, some, List, [], ◌∷◌, ◌++◌, bad_access, Outcome, ok,
  abort, ◌>>=◌,
}

-- `std::coroutine_handle<>`: the no-op coroutine, no coroutine, or one.
pub data Coroutine : Type 0 where
  noop_coroutine null_coroutine : Coroutine
  coroutine : ℕ → Coroutine

pub record SenderAwaiter (A : Type 0) : Type 0 where
  pub handle : Coroutine
  pub result : Option A
  pub resumed : List ℕ

abbrev pub is_noop : Coroutine → Bool
is_noop noop_coroutine = true
is_noop null_coroutine = false
is_noop (coroutine h) = false

module _ {A : Type 0} where
  unfoldable pub new_awaiter : SenderAwaiter A
  new_awaiter = record { handle = noop_coroutine; result = none; resumed = [] }

  -- `h.resume()`
  unfoldable pub resume : Coroutine → SenderAwaiter A → Outcome (SenderAwaiter A)
  resume noop_coroutine a = ok a
  resume null_coroutine a = abort bad_access
  resume (coroutine h) a = ok (record a { resumed = a.resumed ++ h ∷ [] })

  unfoldable pub handle_result : A → SenderAwaiter A → Outcome (SenderAwaiter A)
  unfolding resume
  handle_result r a = resume a.handle (record a { result = some r; handle = null_coroutine })

  -- `operation_state_.start(0)`, which may call the receiver before it returns.
  unfoldable pub start_operation : Option A → SenderAwaiter A → Outcome (SenderAwaiter A)
  unfolding handle_result
  start_operation none a = ok a
  start_operation (some r) a = handle_result r a

  -- Whether the coroutine stays suspended, and the awaiter.
  unfoldable pub await_suspend : Option A → ℕ → SenderAwaiter A → Outcome (Bool × SenderAwaiter A)
  unfolding start_operation
  await_suspend early h a = do
    a1 ← start_operation early a
    ok (is_noop a1.handle, record a1 { handle = coroutine h })

  -- Whether the result comes early or late, the coroutine goes on exactly once with that result: an
  -- early one does not let it suspend and resumes nobody, and a late one finds it suspended and resumes
  -- it.
  pub await_suspend_lem :
      (h : ℕ) (r : A)
      → ((a : SenderAwaiter A) × (await_suspend (some r) h new_awaiter ≡ ok (false, a))
          × (a.resumed ≡ [])
          × (a.result ≡ some r))
        × ((a a1 : SenderAwaiter A) × (await_suspend none h new_awaiter ≡ ok (true, a))
            × (a.resumed ≡ [])
            × (handle_result r a ≡ ok a1)
            × (a1.resumed ≡ h ∷ [])
            × (a1.result ≡ some r))
  unfolding await_suspend start_operation handle_result resume new_awaiter
  await_suspend_lem h r = ((_, refl, refl, refl), (_, _, refl, refl, refl, refl, refl))
