-- ===== src/Channel.antt =====
-- include/condy/channel.hpp: the state of a `Channel<T, N>` and the operations that run under its
-- mutex, each as one step from a state to an outcome. Awaiting handles stand by their identity, and
-- the two awaiter lists are sequences with the operations of `IntrusiveDoubleList`
-- (Intrusive/Double.antt shows that the linked list behaves so). A `RawStorage` slot is `none` while
-- no item lives in it. `set_result` followed by `schedule` appends to `scheduled`.
pub mod Bounded
pub mod Buffer
pub mod Close
pub mod Destroy
pub mod Fifo
pub mod Handles
pub mod New
pub mod Order
pub mod Pop
pub mod Push
pub mod Refine
pub mod Run
pub mod Weights
pub mod Sessions
use condy.Prelude.{
  ℕ, zero, suc, ◌+◌, Bool, true, false, Option, none, some, List, [], ◌∷◌, ◌++◌, bit_and, ◌==◌,
  if◌then◌else◌, get_or, set, replicate, is_empty, panic, out_of_fuel, bad_access, Outcome, ok,
  abort, check, ◌>>=◌, ◌>>◌,
}
use condy.Prelude.Words.{add_size, sub_size, bit_ceil}
use condy.Codes.{Code, success, epipe, eagain}

-- `PushFinishHandleBase`: `fake` marks a `FakePushFinishHandle`, which no runtime waits for.
pub record PushHandle (A : Type 0) : Type 0 where
  pub id : ℕ
  pub item : A
  pub fake : Bool

-- What a handle was told before it was scheduled. A fake push handle is deleted instead.
pub data Event (A : Type 0) : Type 0 where
  push_done : ℕ → Code → Event A
  pop_done : ℕ → Code → A → Event A
  push_freed : ℕ → Event A

pub record Channel (A : Type 0) : Type 0 where
  pub push_awaiters : List (PushHandle A)
  pub pop_awaiters : List ℕ
  pub head : ℕ
  pub tail : ℕ
  pub capacity : ℕ
  pub buffer : List (Option A)
  pub closed : Bool
  pub scheduled : List (Event A)

-- `IntrusiveDoubleList::remove`, which reports whether the handle was in the list.
unfoldable pub remove_pop : ℕ → List ℕ → List ℕ × Bool
remove_pop id [] = ([], false)
remove_pop id (h ∷ hs) =
    let (rest, found) = remove_pop id hs in if h == id then (hs, true) else (h ∷ rest, found)

module _ {A : Type 0} where
  -- The same on the handles of pushes.
  unfoldable pub remove_push : ℕ → List (PushHandle A) → List (PushHandle A) × Bool
  remove_push id [] = ([], false)
  remove_push id (h ∷ hs) =
      let (rest, found) = remove_push id hs in if h.id == id then (hs, true) else (h ∷ rest, found)

  -- `Channel(size_t capacity)`
  unfoldable pub create : ℕ → Channel A
  create n =
      let cap = if n == 0 then 0 else bit_ceil n in
      record {
        push_awaiters = [];
        pop_awaiters = [];
        head = 0;
        tail = 0;
        capacity = cap;
        buffer = replicate cap none;
        closed = false;
        scheduled = [];
      }

  abbrev pub size_inner : Channel A → ℕ
  size_inner c = sub_size c.tail c.head

  abbrev pub empty_inner : Channel A → Bool
  empty_inner c = size_inner c == 0

  abbrev pub full_inner : Channel A → Bool
  full_inner c = size_inner c == c.capacity

  -- `PushFinishHandleBase::set_result` and `schedule`
  abbrev pub finish_push : PushHandle A → Code → Channel A → Channel A
  finish_push h r c = record c {
    scheduled = c.scheduled ++ (if h.fake then push_freed h.id else push_done h.id r) ∷ [];
  }

  -- `PopFinishHandleBase::set_result` and `schedule`
  abbrev pub finish_pop : ℕ → Code → A → Channel A → Channel A
  finish_pop id r x c = record c { scheduled = c.scheduled ++ pop_done id r x ∷ [] }

  unfoldable pub push_inner : A → Channel A → Outcome (Channel A)
  push_inner x c = do
    check (if full_inner c then false else true)
    let mask = sub_size c.capacity 1
    ok (record c { buffer = set c.buffer (bit_and c.tail mask) (some x); tail = add_size c.tail 1 })

  unfoldable pub pop_inner : Channel A → Outcome (A × Channel A)
  pop_inner c = do
    check (if empty_inner c then false else true)
    let mask = sub_size c.capacity 1
    elim (get_or c.buffer (bit_and c.head mask) none) [
      | none ↦ abort bad_access
      | some x ↦ ok (
        x,
        record c { buffer = set c.buffer (bit_and c.head mask) none; head = add_size c.head 1 },
      )
    ]

  unfoldable pub pop_and_push : A → Channel A → Outcome (A × Channel A)
  pop_and_push x c =
      if c.capacity == 0
      then ok (x, c)
      else do (result, c1) ← pop_inner c; c2 ← push_inner x c1; ok (result, c2)

  -- The first awaiter, if there is one, takes the item.
  unfoldable pub push_with : List ℕ → A → Channel A → Outcome (Bool × Channel A)
  push_with (h ∷ hs) x c = do
    check (empty_inner c)
    ok (true, finish_pop h success x (record c { pop_awaiters = hs }))
  push_with [] x c = if full_inner c then ok (false, c) else do c1 ← push_inner x c; ok (true, c1)

  unfoldable pub try_push_inner : A → Channel A → Outcome (Bool × Channel A)
  unfolding push_with
  try_push_inner x c = push_with c.pop_awaiters x c

  -- The first awaiting push, if there is one, moves its item in behind the one that leaves.
  unfoldable pub pop_with : List (PushHandle A) → Channel A → Outcome (Option A × Channel A)
  pop_with (h ∷ hs) c = do
    check (full_inner c)
    (x, c1) ← pop_and_push h.item (finish_push h success (record c { push_awaiters = hs }))
    ok (some x, c1)
  pop_with [] c = if empty_inner c then ok (none, c) else do (x, c1) ← pop_inner c; ok (some x, c1)

  unfoldable pub try_pop_inner : Channel A → Outcome (Option A × Channel A)
  unfolding pop_with
  try_pop_inner c = pop_with c.push_awaiters c

  unfoldable pub try_push : A → Channel A → Outcome (Code × Channel A)
  try_push x c =
      if c.closed
      then ok (epipe, c)
      else do (done, c1) ← try_push_inner x c; ok ((if done then success else eagain), c1)

  -- `alloc` is what `new (std::nothrow)` returns for the fake handle.
  unfoldable pub force_push : Option ℕ → A → Channel A → Outcome (Channel A)
  force_push alloc x c = if c.closed then abort panic else do
    (done, c1) ← try_push_inner x c
    if done then ok c1 else elim alloc [
      | none ↦ abort panic
      | some id ↦ do
        check (is_empty c1.pop_awaiters)
        ok (record c1 {
          push_awaiters = c1.push_awaiters ++ (record { id = id; item = x; fake = true }) ∷ [];
        })
    ]

  unfoldable pub request_push : ℕ → A → Channel A → Outcome (Code × Channel A)
  request_push id x c = if c.closed then ok (epipe, c) else do
    (done, c1) ← try_push_inner x c
    if done then ok (success, c1) else do
      check (is_empty c1.pop_awaiters)
      ok (
        eagain,
        record c1 {
          push_awaiters = c1.push_awaiters ++ (record { id = id; item = x; fake = false }) ∷ [];
        },
      )

  unfoldable pub cancel_push : ℕ → Channel A → Bool × Channel A
  cancel_push id c =
      let (rest, found) = remove_push id c.push_awaiters in
      (found, record c { push_awaiters = rest })

  unfoldable pub cancel_pop : ℕ → Channel A → Bool × Channel A
  cancel_pop id c =
      let (rest, found) = remove_pop id c.pop_awaiters in (found, record c { pop_awaiters = rest })

  -- Pending pops are told that the channel is closed, oldest first.
  unfoldable pub close_pops : A → List ℕ → Channel A → Outcome (Channel A)
  close_pops d [] c = ok (record c { pop_awaiters = [] })
  close_pops d (h ∷ hs) c = do
    check (empty_inner c)
    close_pops d hs (finish_pop h epipe d (record c { pop_awaiters = hs }))

  unfoldable pub close_pushes : List (PushHandle A) → Channel A → Outcome (Channel A)
  close_pushes [] c = ok (record c { push_awaiters = [] })
  close_pushes (h ∷ hs) c = do
    check (full_inner c)
    close_pushes hs (finish_push h epipe (record c { push_awaiters = hs }))

  -- `T()` is `d`.
  unfoldable pub push_close : A → Channel A → Outcome (Channel A)
  push_close d c = if c.closed then ok c else do
    let c0 = record c { closed = true }
    c1 ← close_pops d c0.pop_awaiters c0
    close_pushes c1.push_awaiters c1

  -- One round for each item that is left, and one for the test that ends the loop.
  unfoldable pub destruct_loop : ℕ → Channel A → Outcome (Channel A)
  destruct_loop zero c = abort out_of_fuel
  destruct_loop (suc k) c =
      let rest = (do (x, c1) ← pop_inner c; destruct_loop k c1) in
      if empty_inner c then ok c else rest

  unfoldable pub destruct_all : Channel A → Outcome (Channel A)
  unfolding destruct_loop
  destruct_all c = do c1 ← destruct_loop (size_inner c + 1) c; check (c1.head == c1.tail); ok c1

  -- `~Channel()`
  unfoldable pub destroy : A → Channel A → Outcome (Channel A)
  destroy d c = do c1 ← push_close d c; destruct_all c1

  module _ (d : A) where
    unfoldable pub try_pop : Channel A → Outcome ((Code × A) × Channel A)
    try_pop c = do
      (item, c1) ← try_pop_inner c
      ok (elim item [
        | some x ↦ ((success, x), c1)
        | none ↦ if c1.closed then ((epipe, d), c1) else ((eagain, d), c1)
      ])

    unfoldable pub request_pop : ℕ → Channel A → Outcome ((Code × A) × Channel A)
    request_pop id c = do
      (item, c1) ← try_pop_inner c
      elim item [
        | some x ↦ ok ((success, x), c1)
        | none ↦ do
          check (is_empty c1.push_awaiters)
          ok (
              if c1.closed
              then ((epipe, d), c1)
              else ((eagain, d), record c1 { pop_awaiters = c1.pop_awaiters ++ id ∷ [] }))
      ]
