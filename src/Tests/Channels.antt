-- ===== src/Tests/Channels.antt =====
-- A channel of two slots, and channels with few or none.
use condy.Prelude.{ℕ, ◌≡◌, ◌<◌, none, List, [], ◌∷◌, ◌==◌, if◌then◌else◌, length, get_or, ok, arith}
use condy.Prelude.Words.{bit_ceil}
use condy.Channel.{Channel, create, request_pop, destroy}
use condy.Channel.Bounded
use condy.Channel.Bounded.{Bounded}
use condy.Channel.Refine.{Rep, Does}
use condy.Channel.New.{fresh, create-Rep}
use condy.Channel.Pop.{request_pop-Does}
use condy.Channel.Destroy.{destroy-Rep}
use condy.Channel.Run.{Op, pushes, push_waits, pops, pop_waits, closes, run, spec_run, run_lem}
use condy.Channel.Order.{Flows, flow_lem}

-- Channels.
abbrev calls : List (Op ℕ)
calls =
    push_waits 1 10
    ∷ pop_waits 2
    ∷ pop_waits 3
    ∷ pushes 11
    ∷ pushes 12
    ∷ pushes 13
    ∷ closes
    ∷ pops
    ∷ []

run_lem_example :
    Does (run 0 calls (create 2)) (spec_run 0 calls (fresh (if 2 == 0 then 0 else bit_ceil 2)))
run_lem_example = run_lem 0 2 calls (omega arith)

abbrev transfers : List (Op ℕ)
transfers = pop_waits 1 ∷ pushes 10 ∷ push_waits 2 11 ∷ push_waits 3 12 ∷ pops ∷ []

flow_lem_example : Flows 0 transfers (create 1) []
flow_lem_example = flow_lem 0 1 transfers (omega arith) (tt, (tt, (tt, (tt, (tt, tt)))))

-- A channel without slots, on which a pop waits.
abbrev bare : Rep {A = ℕ} (create 0) (fresh 0)
bare = (create-Rep 0 (omega arith)).0

-- The queue that it stands for.
abbrev lonely : Bounded ℕ
lonely = (Bounded.pop_wait 9 7 (fresh 0)).1

abbrev empty_handed : ℕ
empty_handed = 9

abbrev awaited : Does {A = ℕ} (request_pop 9 7 (create 0)) (Bounded.pop_wait 9 7 (fresh 0))
awaited = request_pop-Does bare 9 7

destroy_example :
    (c : Channel ℕ) × (destroy 9 awaited.0 ≡ ok c)
    × (c.scheduled ≡ (Bounded.close empty_handed lonely).told)
    × (c.push_awaiters ≡ (Bounded.close empty_handed lonely).pushes)
    × (c.pop_awaiters ≡ (Bounded.close empty_handed lonely).pops)
    × (length c.buffer ≡ c.capacity)
    × ((i : ℕ) → i < c.capacity → get_or c.buffer i none ≡ none)
destroy_example = destroy-Rep 9 awaited.2
