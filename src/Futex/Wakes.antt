-- ===== src/Futex/Wakes.antt =====
-- include/condy/futex.hpp: every handle that was started is in exactly one place, and is told once.
use condy.Prelude.{
  ℕ, zero, suc, ◌+◌, ◌≡◌, refl, ap, Bool, false, List, [], ◌∷◌, ◌++◌, ◌==◌, if◌then◌else◌, arith,
  Bool-cases, inl, inr, Outcome, ok, abort,
}
use mathlib.Core.Path.{subst}
use condy.Codes.{Code, success, ecanceled, eidrm}
use condy.Channel.{remove_pop}
use condy.Futex.{
  Futex, notify_first, invoke_first, notify_one, notify_all, destroy, request_wait, cancel_wait,
  start, cancel, invoke, store, Op, starts, stores, notifies, notifies_all, invokes, destroys,
  finishes, cancels, step, run, count, in_taken, take_all, pop_taken, finish_next, unlink_taken,
}

-- How often a handle stands in a list of results.
abbrev pub told : ℕ → List (ℕ × Code) → ℕ
told h [] = 0
told h ((x, r) ∷ es) = (if h == x then 1 else 0) + told h es

-- Where a handle is: it waits, a call of `notify_all_` has taken it, its result is scheduled, or it has
-- received it.
abbrev pub places : ℕ → Futex → ℕ
places h f = count h f.wait_awaiters + in_taken h f.taken + told h f.scheduled + told h f.received

-- How often a run starts a handle.
abbrev pub started : ℕ → List Op → ℕ
started h [] = 0
started h (starts x old ∷ os) = (if h == x then 1 else 0) + started h os
started h (stores v ∷ os) = started h os
started h (notifies ∷ os) = started h os
started h (notifies_all ∷ os) = started h os
started h (finishes n ∷ os) = started h os
started h (invokes ∷ os) = started h os
started h (destroys ∷ os) = started h os
started h (cancels x ∷ os) = started h os

count-append : (h : ℕ) (xs ys : List ℕ) → count h (xs ++ ys) ≡ count h xs + count h ys
count-append h [] ys = omega arith
count-append h (x ∷ xs) ys = omega (arith, count-append h xs ys)

told-append : (h : ℕ) (xs ys : List (ℕ × Code)) → told h (xs ++ ys) ≡ told h xs + told h ys
told-append h [] ys = omega arith
told-append h ((x, r) ∷ xs) ys = omega (arith, told-append h xs ys)

removed :
    (h x : ℕ) (xs : List ℕ)
    → count h (remove_pop x xs).0 + (if (remove_pop x xs).1 then (if h == x then 1 else 0) else 0)
      ≡ count h xs
unfolding remove_pop
removed h x [] = refl
removed h x (y ∷ ys) = ground (arith, removed h x ys)

places-notify_first :
    (h : ℕ) (hs : List ℕ) (f : Futex)
    → places h (notify_first hs (record f { wait_awaiters = hs }))
      ≡ places h (record f { wait_awaiters = hs })
places-notify_first h [] f = refl
places-notify_first h (x ∷ hs) f = omega (arith, told-append h f.scheduled ((x, success) ∷ []))

places-invoke_first :
    (h : ℕ) (es : List (ℕ × Code)) (f : Futex)
    → places h (invoke_first es (record f { scheduled = es }))
      ≡ places h (record f { scheduled = es })
places-invoke_first h [] f = refl
places-invoke_first h ((x, r) ∷ es) f = omega (arith, told-append h f.received ((x, r) ∷ []))

places-start :
    (h x old : ℕ) (f : Futex) → places h (start x old f) ≡ places h f + (if h == x then 1 else 0)
unfolding start request_wait
places-start h x old f = elim (Bool-cases (f.value == old)) [
  | inl e ↦ simp e (omega (arith, count-append h f.wait_awaiters (x ∷ [])))
  | inr e ↦ simp e (omega (arith, told-append h f.received ((x, success) ∷ [])))
]

in_taken-append :
    (h : ℕ) (ts us : List (Code × List ℕ)) → in_taken h (ts ++ us) ≡ in_taken h ts + in_taken h us
in_taken-append h [] us = omega arith
in_taken-append h ((r, hs) ∷ ts) us = omega (arith, in_taken-append h ts us)

places-take_all : (h : ℕ) (r : Code) (f : Futex) → places h (take_all r f) ≡ places h f
unfolding take_all
places-take_all h r f = omega (arith, in_taken-append h f.taken ((r, f.wait_awaiters) ∷ []))

-- A round takes a handle out of a list that was taken, and schedules it.
popped :
    (h n : ℕ) (ts : List (Code × List ℕ))
    → in_taken h (pop_taken n ts).0 + told h (pop_taken n ts).1 ≡ in_taken h ts
unfolding pop_taken
popped h zero [] = refl
popped h (suc n) [] = refl
popped h zero ((r, []) ∷ ts) = omega arith
popped h zero ((r, x ∷ hs) ∷ ts) = omega arith
popped h (suc n) ((r, hs) ∷ ts) = omega (arith, popped h n ts)

places-finish_next : (h n : ℕ) (f : Futex) → places h (finish_next n f) ≡ places h f
unfolding finish_next
places-finish_next h n f =
    omega (arith, popped h n f.taken, told-append h f.scheduled (pop_taken n f.taken).1)

unlink_taken-clear :
    (h : ℕ) (ts : List (Code × List ℕ)) → in_taken h ts ≡ 0 → unlink_taken h ts ≡ ok (false, ts)
unfolding unlink_taken
unlink_taken-clear h [] clear = refl
unlink_taken-clear h ((r, hs) ∷ ts) clear =
    let here : count h hs ≡ 0 = omega arith in simp (here, unlink_taken-clear h ts (omega arith))

-- What a step does to the places of every handle.
abbrev pub Moves : (ℕ → ℕ) → Futex → Outcome Futex → Type 0
Moves more f m = (f1 : Futex) × (m ≡ ok f1) × ((h : ℕ) → places h f1 ≡ places h f + more h)

cancel-Moves : (x : ℕ) (f : Futex) → in_taken x f.taken ≡ 0 → Moves (λ h. 0) f (cancel x f)
unfolding cancel cancel_wait
cancel-Moves x f clear = elim (Bool-cases (remove_pop x f.wait_awaiters).1) [
  | inl e ↦ (
    record f {
      wait_awaiters = (remove_pop x f.wait_awaiters).0;
      scheduled = f.scheduled ++ (x, ecanceled) ∷ [];
    },
    simp e,
    λ h. omega (
      arith,
      removed h x f.wait_awaiters,
      ap (gone h) e,
      told-append h f.scheduled ((x, ecanceled) ∷ []),
    ),
  )
  | inr e ↦ (f, simp (e, unlink_taken-clear x f.taken clear), λ h. omega arith)
]
  where
    gone : ℕ → Bool → ℕ
    gone h b = if b then (if h == x then 1 else 0) else 0

-- A step is clear when it does not cancel a handle in a list that a call of `notify_all_` has taken.
abbrev pub IsClearStep : Op → Futex → Type 0
IsClearStep (starts handle old) f = Unit
IsClearStep (stores v) f = Unit
IsClearStep notifies f = Unit
IsClearStep notifies_all f = Unit
IsClearStep (finishes n) f = Unit
IsClearStep invokes f = Unit
IsClearStep destroys f = Unit
IsClearStep (cancels handle) f = in_taken handle f.taken ≡ 0

abbrev pub Afterwards : (Futex → Type 0) → Outcome Futex → Type 0
Afterwards P (ok f) = P f
Afterwards P (abort e) = Unit

-- Each step of a run is clear in the state that it is reached in.
unfoldable pub IsClear : List Op → Futex → Type 0
unfolding step
IsClear [] f = Unit
IsClear (o ∷ os) f = IsClearStep o f × Afterwards (IsClear os) (step o f)

-- One step moves a handle on, and only a start brings one in.
step-Moves : (o : Op) (f : Futex) → IsClearStep o f → Moves (λ h. started h (o ∷ [])) f (step o f)
unfolding step notify_one notify_all destroy invoke store
step-Moves (starts x old) f _ = (start x old f, refl, λ h. omega (arith, places-start h x old f))
step-Moves (stores v) f _ = (store v f, refl, λ h. omega arith)
step-Moves notifies f _ =
    (notify_one f, refl, λ h. omega (arith, places-notify_first h f.wait_awaiters f))
step-Moves notifies_all f _ = (notify_all f, refl, λ h. omega (arith, places-take_all h success f))
step-Moves (finishes n) f _ = (finish_next n f, refl, λ h. omega (arith, places-finish_next h n f))
step-Moves invokes f _ = (invoke f, refl, λ h. omega (arith, places-invoke_first h f.scheduled f))
step-Moves destroys f _ = (destroy f, refl, λ h. omega (arith, places-take_all h eidrm f))
step-Moves (cancels x) f clear = cancel-Moves x f clear

started-step :
    (h : ℕ) (o : Op) (os : List Op) → started h (o ∷ os) ≡ started h (o ∷ []) + started h os
started-step h (starts x old) os = omega arith
started-step h (stores v) os = omega arith
started-step h notifies os = omega arith
started-step h notifies_all os = omega arith
started-step h (finishes n) os = omega arith
started-step h invokes os = omega arith
started-step h destroys os = omega arith
started-step h (cancels x) os = omega arith

-- After any sequence of starts, writes, cancellations, runs of the scheduled work, calls of
-- `notify_one`, and calls of `notify_all` and the destructor, whose loops go on a round at a time with
-- any other steps in between: if no cancellation meets a handle in a list that such a loop has still to
-- empty, then no assertion fails, and each handle stands among the waiters, the taken, the
-- scheduled and the received exactly as often in all as at first and as it was started since. So no
-- wake-up is lost and none is doubled.
pub run-places : (os : List Op) (f : Futex) → IsClear os f → Moves (λ h. started h os) f (run os f)
unfolding run IsClear
run-places [] f clear = (f, refl, λ h. omega arith)
run-places (o ∷ os) f (clear, later) =
    let (f1, eq, moved) = step-Moves o f clear in
    let (f2, eq2, moved2) = run-places os f1 (subst (Afterwards (IsClear os)) eq later) in
    (f2, simp (eq, eq2), λ h. omega (arith, moved h, moved2 h, started-step h o os))

abbrev pub results : Code → List ℕ → List (ℕ × Code)
results r [] = []
results r (h ∷ hs) = (h, r) ∷ results r hs
