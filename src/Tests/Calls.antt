-- ===== src/Tests/Calls.antt =====
-- A coroutine that catches what another throws, and one that lets go of a third.
use condy.Prelude.{ℕ, ◌+◌, none, refl}
use condy.Tasks.{Result, returned, thrown}
use condy.Coroutines.{Body, ends, awaits, drops, Store}
use condy.Coroutines.Calls.{Ends, run_coro-Ends}

abbrev no_frames : Store ℕ
no_frames = record { next = 3; frames = λ h. none }

abbrev plus : ℕ → Result ℕ → Body ℕ
plus n (returned a) = ends (returned (a + n))
plus n (thrown e) = ends (thrown e)

abbrev rescued : Result ℕ → Body ℕ
rescued (returned a) = ends (returned a)
rescued (thrown e) = awaits (awaits (ends (returned e)) (plus 10)) (plus 100)

abbrev failing : Body ℕ
failing = drops (ends (returned 5)) (awaits (ends (thrown 7)) (plus 1))

run_coro-Ends_example : Ends (awaits failing rescued) no_frames
run_coro-Ends_example = run_coro-Ends (awaits failing rescued) no_frames (λ x less. refl)
