-- ===== src/Promise/Lifecycle.antt =====
-- include/condy/detail/coro.hpp: whoever of the coroutine and its owner comes last releases the
-- frame or is told, in every interleaving.
pub mod Ends
use condy.Prelude.{
  ℕ, ◌≡◌, refl, ◌⊎◌, inl, inr, Bool, true, false, Option, none, some, List, [], ◌∷◌, panic, ok,
  abort, ◌>>=◌,
}
use condy.Promise.{
  State, idle, running_joinable, running_detached, running_joining, zombie, finished, Slot,
  callback, Request, detach, join, Phase, before, expecting, done, System, mark_running,
  destroy_handle, final_after, final_exchange, final_round, final_suspend, detach_round, join_round,
  request_round, request, Turn, of_coroutine, of_owner, turn, interleave,
}

-- A participant that has not passed its exchange has read nothing, or one of two states.
pub data Pending : State → State → Phase → Type 0 where
  unread : {a b : State} → Pending a b before
  first : {a b : State} → Pending a b (expecting a)
  second : {a b : State} → Pending a b (expecting b)

-- The system with everything but what the request fixes.
abbrev pub at : Bool → State → Slot → Phase → Phase → ℕ → List ℕ → Option Bool → System
at exception state slot ending asking destroyed called waits = record {
  state = state;
  slot = slot;
  ending = ending;
  asking = asking;
  destroyed = destroyed;
  called = called;
  resumed = [];
  waits = waits;
  exception = exception;
}

-- The states that a spawned coroutine and a request can reach, with or without an exception.
pub data Reachable : Bool → Request → System → Type 0 where
  racing :
      {x : Bool} {r : Request} {c : Slot} {e a : Phase}
      → Pending running_joinable running_joinable e
      → Pending running_joinable running_joinable a
      → Reachable x r (at x running_joinable c e a 0 [] none)
  ended :
      {x : Bool} {r : Request} {c : Slot} {a : Phase}
      → Pending running_joinable zombie a
      → Reachable x r (at x zombie c done a 0 [] none)
  detached :
      {x : Bool} {c : Slot} {e : Phase}
      → Pending running_joinable running_detached e
      → Reachable x detach (at x running_detached c e done 0 [] none)
  joined :
      {x : Bool} {k : ℕ} {e : Phase}
      → Pending running_joinable running_joining e
      → Reachable x (join k) (at x running_joining (callback k) e done 0 [] (some true))
  released : {c : Slot} → Reachable false detach (at false finished c done done 1 [] none)
  told :
      {x : Bool} {k : ℕ}
      → Reachable x (join k) (at x finished (callback k) done done 0 (k ∷ []) (some true))
  ready :
      {x : Bool} {k : ℕ} {c : Slot}
      → Reachable x (join k) (at x finished c done done 0 [] (some false))

-- A detached coroutine that ended with an exception.
abbrev pub IsFatal : Bool → Request → Type 0
IsFatal x r = (x ≡ true) × (r ≡ detach)

abbrev Steps : Bool → Request → Turn → System → Type 0
Steps x r t s =
    ((s1 : System) × (turn r t s ≡ ok s1) × Reachable x r s1)
    ⊎ IsFatal x r × (turn r t s ≡ abort panic)

final-Steps :
    (x : Bool) (r : Request) (b : Bool) {s : System}
    → Reachable x r s
    → Steps x r (of_coroutine b) s
unfolding destroy_handle turn final_suspend final_round final_exchange final_after
final-Steps x r b (racing unread a) = inl (_, refl, racing first a)
final-Steps x r true (racing first a) = inl (_, refl, racing first a)
final-Steps x r true (racing second a) = inl (_, refl, racing first a)
final-Steps x r false (racing first unread) = inl (_, refl, ended unread)
final-Steps x r false (racing first first) = inl (_, refl, ended first)
final-Steps x r false (racing first second) = inl (_, refl, ended first)
final-Steps x r false (racing second unread) = inl (_, refl, ended unread)
final-Steps x r false (racing second first) = inl (_, refl, ended first)
final-Steps x r false (racing second second) = inl (_, refl, ended first)
final-Steps x r b (ended a) = inl (_, refl, ended a)
final-Steps x _ b (detached unread) = inl (_, refl, detached second)
final-Steps x _ true (detached first) = inl (_, refl, detached second)
final-Steps x _ false (detached first) = inl (_, refl, detached second)
final-Steps x _ true (detached second) = inl (_, refl, detached second)
final-Steps false _ false (detached second) = inl (_, refl, released)
final-Steps true _ false (detached second) = inr ((refl, refl), refl)
final-Steps x _ b (joined unread) = inl (_, refl, joined second)
final-Steps x _ true (joined first) = inl (_, refl, joined second)
final-Steps x _ false (joined first) = inl (_, refl, joined second)
final-Steps x _ true (joined second) = inl (_, refl, joined second)
final-Steps x _ false (joined second) = inl (_, refl, told)
final-Steps _ _ b released = inl (_, refl, released)
final-Steps x _ b told = inl (_, refl, told)
final-Steps x _ b ready = inl (_, refl, ready)

start-Steps :
    (x : Bool) (r : Request) (b : Bool) {s : System} → Reachable x r s → Steps x r (of_owner b) s
unfolding destroy_handle turn request request_round detach_round join_round
start-Steps x r b (racing e unread) = inl (_, refl, racing e first)
start-Steps x r b (ended unread) = inl (_, refl, ended second)
start-Steps x detach true (racing e first) = inl (_, refl, racing e first)
start-Steps x detach true (racing e second) = inl (_, refl, racing e first)
start-Steps x detach false (racing unread first) = inl (_, refl, detached unread)
start-Steps x detach false (racing first first) = inl (_, refl, detached first)
start-Steps x detach false (racing second first) = inl (_, refl, detached first)
start-Steps x detach false (racing unread second) = inl (_, refl, detached unread)
start-Steps x detach false (racing first second) = inl (_, refl, detached first)
start-Steps x detach false (racing second second) = inl (_, refl, detached first)
start-Steps x detach true (ended first) = inl (_, refl, ended second)
start-Steps x detach false (ended first) = inl (_, refl, ended second)
start-Steps x detach true (ended second) = inl (_, refl, ended second)
start-Steps false detach false (ended second) = inl (_, refl, released)
start-Steps true detach false (ended second) = inr ((refl, refl), refl)
start-Steps x (join k) true (racing e first) = inl (_, refl, racing e first)
start-Steps x (join k) true (racing e second) = inl (_, refl, racing e first)
start-Steps x (join k) false (racing unread first) = inl (_, refl, joined unread)
start-Steps x (join k) false (racing first first) = inl (_, refl, joined first)
start-Steps x (join k) false (racing second first) = inl (_, refl, joined first)
start-Steps x (join k) false (racing unread second) = inl (_, refl, joined unread)
start-Steps x (join k) false (racing first second) = inl (_, refl, joined first)
start-Steps x (join k) false (racing second second) = inl (_, refl, joined first)
start-Steps x (join k) true (ended first) = inl (_, refl, ended second)
start-Steps x (join k) false (ended first) = inl (_, refl, ended second)
start-Steps x (join k) true (ended second) = inl (_, refl, ended second)
start-Steps x (join k) false (ended second) = inl (_, refl, ready)
start-Steps x _ b (detached e) = inl (_, refl, detached e)
start-Steps x _ b (joined e) = inl (_, refl, joined e)
start-Steps _ _ b released = inl (_, refl, released)
start-Steps x _ b told = inl (_, refl, told)
start-Steps x _ b ready = inl (_, refl, ready)
