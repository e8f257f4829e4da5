-- ===== src/Tests/Promises.antt =====
-- The end of a coroutine between the load and the exchange of its owner, and an await.
use condy.Prelude.{ℕ, ◌≡◌, true, false, none, some, List, [], ◌∷◌, ◌++◌, ok}
use condy.Promise.{detach, Turn, of_coroutine, of_owner, mark_running, interleave}
use condy.Promise.Lifecycle.Ends.{
  Runs, Ends, coroutine_turns, owner_turns, interleave_lem, interleave-Ends,
}
use condy.Promise.Await.{
  SenderAwaiter, new_awaiter, handle_result, await_suspend, await_suspend_lem,
}

-- Coroutines: the end comes between the owner's load and its exchange.
abbrev late_owner : List Turn
late_owner =
    of_owner false
    ∷ of_coroutine false
    ∷ of_coroutine true
    ∷ of_coroutine false
    ∷ of_owner false
    ∷ []

interleave_example : Runs true detach (interleave detach late_owner (mark_running true 0))
interleave_example = interleave_lem true detach 0 late_owner

-- The coroutine threw, and nobody can take its exception any more.
interleave-Ends_example :
    Ends true detach
      (interleave detach (late_owner ++ (coroutine_turns ++ owner_turns)) (mark_running true 0))
interleave-Ends_example = interleave-Ends true detach 0 late_owner

await_suspend_example :
    ((a : SenderAwaiter ℕ) × (await_suspend (some 6) 1 new_awaiter ≡ ok (false, a))
      × (a.resumed ≡ [])
      × (a.result ≡ some 6))
    × ((a a1 : SenderAwaiter ℕ) × (await_suspend none 1 new_awaiter ≡ ok (true, a))
        × (a.resumed ≡ [])
        × (handle_result 6 a ≡ ok a1)
        × (a1.resumed ≡ 1 ∷ [])
        × (a1.result ≡ some 6))
await_suspend_example = await_suspend_lem 1 6
