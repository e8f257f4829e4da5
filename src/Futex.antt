-- ===== src/Futex.antt =====
-- include/condy/futex.hpp: `Futex<T>` and the handles that wait on it. The list of awaiters is a
-- sequence of identities (Intrusive/Double.antt shows that the linked list behaves so), the atomic that
-- the futex refers to is a field, and `set_result` followed by `schedule` appends to `scheduled`. A call of
-- `notify_all_` moves the awaiters to a list of its own under the mutex and empties that list outside
-- of it, so that other calls come in between; `taken` has the lists of the calls under way.
pub mod Wakes
use condy.Prelude.{
  ℕ, zero, suc, ◌+◌, Bool, true, false, List, [], ◌∷◌, ◌++◌, ◌==◌, if◌then◌else◌, assertion,
  Outcome, ok, abort, ◌>>=◌,
}
use condy.Prelude.Words.{add_size, sub_size}
use condy.Codes.{Code, epipe, enotrecoverable, success, eagain, ecanceled, eidrm}
use condy.Channel.{remove_pop}

pub record Futex : Type 0 where
  pub value : ℕ
  pub wait_awaiters : List ℕ
  pub taken : List (Code × List ℕ)
  pub scheduled : List (ℕ × Code)
  pub received : List (ℕ × Code)
  pub pending_works : ℕ

-- `set_result(r)` and `schedule()` of one handle after another.
unfoldable pub finish_all : Code → List ℕ → Futex → Futex
finish_all r [] f = f
finish_all r (h ∷ hs) f = finish_all r hs (record f { scheduled = f.scheduled ++ (h, r) ∷ [] })

abbrev pub notify_first : List ℕ → Futex → Futex
notify_first [] f = f
notify_first (h ∷ hs) f = record f {
  wait_awaiters = hs;
  scheduled = f.scheduled ++ (h, success) ∷ [];
}

unfoldable pub notify_one : Futex → Futex
notify_one f = notify_first f.wait_awaiters f

-- `notify_all_(result)` when nothing comes between its steps.
unfoldable pub notify_all_with : Code → Futex → Futex
unfolding finish_all
notify_all_with r f = finish_all r f.wait_awaiters (record f { wait_awaiters = [] })

-- `notify_all_(result)` up to its loop.
unfoldable pub take_all : Code → Futex → Futex
take_all r f = record f { wait_awaiters = []; taken = f.taken ++ (r, f.wait_awaiters) ∷ [] }

-- One round of the loop in the call of `notify_all_` with the given number; the last one ends the call.
unfoldable pub pop_taken : ℕ → List (Code × List ℕ) → List (Code × List ℕ) × List (ℕ × Code)
pop_taken n [] = ([], [])
pop_taken zero ((r, []) ∷ ts) = (ts, [])
pop_taken zero ((r, h ∷ hs) ∷ ts) = ((r, hs) ∷ ts, (h, r) ∷ [])
pop_taken (suc n) (t ∷ ts) = let (us, es) = pop_taken n ts in (t ∷ us, es)

unfoldable pub finish_next : ℕ → Futex → Futex
unfolding pop_taken
finish_next n f =
    let (ts, es) = pop_taken n f.taken in record f { taken = ts; scheduled = f.scheduled ++ es }

-- `notify_all()` up to the loop.
unfoldable pub notify_all : Futex → Futex
unfolding take_all
notify_all f = take_all success f

-- `~Futex()` up to the loop.
unfoldable pub destroy : Futex → Futex
unfolding take_all
destroy f = take_all eidrm f

unfoldable pub request_wait : ℕ → ℕ → Futex → Code × Futex
request_wait handle old f =
    if f.value == old
    then (eagain, record f { wait_awaiters = f.wait_awaiters ++ handle ∷ [] })
    else (success, f)

-- How often a handle stands in a list, and in the lists that calls of `notify_all_` have taken.
abbrev pub count : ℕ → List ℕ → ℕ
count h [] = 0
count h (x ∷ xs) = (if h == x then 1 else 0) + count h xs

abbrev pub in_taken : ℕ → List (Code × List ℕ) → ℕ
in_taken h [] = 0
in_taken h ((r, hs) ∷ ts) = count h hs + in_taken h ts

-- `DoubleLinkListImpl::remove` on `wait_awaiters_` for an entry of another list: one that is alone there
-- looks like one of no list; the first and the last fail the assertions on the head and the tail of
-- `wait_awaiters_`; any other is taken out by its links.
unfoldable pub unlink_rest : ℕ → List ℕ → Outcome (List ℕ)
unlink_rest h [] = ok []
unlink_rest h (x ∷ []) = if h == x then abort assertion else ok (x ∷ [])
unlink_rest h (x ∷ y ∷ ys) =
    let rest = unlink_rest h (y ∷ ys) in if h == x then ok (y ∷ ys) else (do zs ← rest; ok (x ∷ zs))

unfoldable pub unlink : ℕ → List ℕ → Outcome (Bool × List ℕ)
unfolding unlink_rest
unlink h [] = ok (false, [])
unlink h (x ∷ []) = ok (false, x ∷ [])
unlink h (x ∷ y ∷ ys) =
    if h == x then abort assertion else (do zs ← unlink_rest h (y ∷ ys); ok (true, x ∷ zs))

unfoldable pub unlink_taken : ℕ → List (Code × List ℕ) → Outcome (Bool × List (Code × List ℕ))
unfolding unlink
unlink_taken h [] = ok (false, [])
unlink_taken h ((r, hs) ∷ ts) =
    let rest = unlink_taken h ts in
    if count h hs == 0
    then (do (found, us) ← rest; ok (found, (r, hs) ∷ us))
    else (do (found, xs) ← unlink h hs; ok (found, (r, xs) ∷ ts))

unfoldable pub cancel_wait : ℕ → Futex → Outcome (Bool × Futex)
unfolding unlink_taken remove_pop
cancel_wait handle f =
    let (rest, found) = remove_pop handle f.wait_awaiters in
    if found
    then ok (true, record f { wait_awaiters = rest })
    else (do (unlinked, ts) ← unlink_taken handle f.taken; ok (unlinked, record f { taken = ts }))

-- `WaitFinishHandle::start`: a handle that need not wait receives its result at once.
abbrev pub start_with : ℕ → Code × Futex → Futex
start_with handle (eagain, f) = record f { pending_works = add_size f.pending_works 1 }
start_with handle (success, f) = record f { received = f.received ++ (handle, success) ∷ [] }
start_with handle (epipe, f) = record f { received = f.received ++ (handle, epipe) ∷ [] }
start_with handle (ecanceled, f) = record f { received = f.received ++ (handle, ecanceled) ∷ [] }
start_with handle (enotrecoverable, f) = record f {
  received = f.received ++ (handle, enotrecoverable) ∷ [];
}
start_with handle (eidrm, f) = record f { received = f.received ++ (handle, eidrm) ∷ [] }

unfoldable pub start : ℕ → ℕ → Futex → Futex
unfolding request_wait
start handle old f = start_with handle (request_wait handle old f)

-- `WaitFinishHandle::cancel_`
unfoldable pub cancel : ℕ → Futex → Outcome Futex
unfolding cancel_wait
cancel handle f = do
  (found, f1) ← cancel_wait handle f
  ok (if found then record f1 { scheduled = f1.scheduled ++ (handle, ecanceled) ∷ [] } else f1)

-- The runtime takes the first of what was scheduled and runs its `WaitFinishHandle::invoke`.
abbrev pub invoke_first : List (ℕ × Code) → Futex → Futex
invoke_first [] f = f
invoke_first (e ∷ es) f = record f {
  scheduled = es;
  received = f.received ++ e ∷ [];
  pending_works = sub_size f.pending_works 1;
}

unfoldable pub invoke : Futex → Futex
invoke f = invoke_first f.scheduled f

-- Another thread writes the atomic.
unfoldable pub store : ℕ → Futex → Futex
store v f = record f { value = v }

pub data Op : Type 0 where
  starts : ℕ → ℕ → Op
  stores : ℕ → Op
  notifies notifies_all invokes destroys : Op
  finishes : ℕ → Op
  cancels : ℕ → Op

unfoldable pub step : Op → Futex → Outcome Futex
unfolding start store notify_one notify_all finish_next invoke destroy cancel
step (starts handle old) f = ok (start handle old f)
step (stores v) f = ok (store v f)
step notifies f = ok (notify_one f)
step notifies_all f = ok (notify_all f)
step (finishes n) f = ok (finish_next n f)
step invokes f = ok (invoke f)
step destroys f = ok (destroy f)
step (cancels handle) f = cancel handle f

unfoldable pub run : List Op → Futex → Outcome Futex
unfolding step
run [] f = ok f
run (o ∷ os) f = do f1 ← step o f; run os f1
