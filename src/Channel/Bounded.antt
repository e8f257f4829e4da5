-- ===== src/Channel/Bounded.antt =====
-- What a channel promises: a bounded first-in first-out queue with pushes that wait for room and
-- pops that wait for an item. No slots, no counters and no way to fail an assertion.
use condy.Prelude.{
  ℕ, ◌≤◌, ◌≡◌, ◌⊎◌, Bool, true, false, Option, none, some, List, [], ◌∷◌, ◌++◌, ◌==◌, if◌then◌else◌,
  length,
}
use condy.Codes.{Code, success, epipe, eagain}
use condy.Channel.{PushHandle, Event, push_done, pop_done, push_freed, remove_push, remove_pop}

pub record Bounded (A : Type 0) : Type 0 where
  pub items : List A
  pub pushes : List (PushHandle A)
  pub pops : List ℕ
  pub bound : ℕ
  pub shut : Bool
  pub told : List (Event A)

-- A push waits only at a full queue, a pop only at an empty one where no push waits, and nobody
-- waits once the channel is closed.
pub record IsValid {A : Type 0} (q : Bounded A) : Type 0 where
  pub within : length q.items ≤ q.bound
  pub full_if_push : (q.pushes ≡ []) ⊎ (length q.items ≡ q.bound)
  pub empty_if_pop : (q.pops ≡ []) ⊎ (q.items ≡ []) × (q.pushes ≡ [])
  pub none_if_shut : (q.shut ≡ false) ⊎ (q.pops ≡ []) × (q.pushes ≡ [])

module _ {A : Type 0} where
  abbrev pub tell : Event A → Bounded A → Bounded A
  tell e q = record q { told = q.told ++ e ∷ [] }

  abbrev pub push_event : PushHandle A → Code → Event A
  push_event h r = if h.fake then push_freed h.id else push_done h.id r

  -- An item is taken by the first pop that waits, or joins the queue, or finds it full.
  abbrev pub offer_with : List ℕ → A → Bounded A → Bool × Bounded A
  offer_with (p ∷ ps) x q = (true, tell (pop_done p success x) (record q { pops = ps }))
  offer_with [] x q =
      if length q.items == q.bound
      then (false, q)
      else (true, record q { items = q.items ++ x ∷ [] })

  abbrev pub offer : A → Bounded A → Bool × Bounded A
  offer x q = offer_with q.pops x q

  abbrev pub uncons : List A → Bounded A → Option A × Bounded A
  uncons [] q = (none, q)
  uncons (x ∷ xs) q = (some x, record q { items = xs })

  -- The first push that waits joins the queue behind its items, and the oldest item leaves.
  abbrev pub take_with : List (PushHandle A) → Bounded A → Option A × Bounded A
  take_with (h ∷ hs) q =
      uncons (q.items ++ h.item ∷ []) (tell (push_event h success) (record q { pushes = hs }))
  take_with [] q = uncons q.items q

  abbrev pub take : Bounded A → Option A × Bounded A
  take q = take_with q.pushes q

  abbrev pub wait_push : PushHandle A → Bounded A → Bounded A
  wait_push h q = record q { pushes = q.pushes ++ h ∷ [] }

  abbrev pub wait_pop : ℕ → Bounded A → Bounded A
  wait_pop p q = record q { pops = q.pops ++ p ∷ [] }

  -- Each operation by what it finds: whether the queue is closed, and whether the item was taken or
  -- one was there.
  abbrev pub push_as : Bool → A → Bounded A → Code × Bounded A
  push_as true x q = (epipe, q)
  push_as false x q = let (taken, q1) = offer x q in ((if taken then success else eagain), q1)

  unfoldable pub push : A → Bounded A → Code × Bounded A
  push x q = push_as q.shut x q

  -- Whoever finds the queue full waits behind the others.
  abbrev pub wait_as : Bool → PushHandle A → Bounded A → Code × Bounded A
  wait_as true h q = (success, q)
  wait_as false h q = (eagain, wait_push h q)

  abbrev pub push_wait_as : Bool → PushHandle A → Bounded A → Code × Bounded A
  push_wait_as true h q = (epipe, q)
  push_wait_as false h q = let (taken, q1) = offer h.item q in wait_as taken h q1

  unfoldable pub push_wait : PushHandle A → Bounded A → Code × Bounded A
  push_wait h q = push_wait_as q.shut h q

  abbrev pub pop_as : Bool → A → Option A → Bounded A → (Code × A) × Bounded A
  pop_as b d (some x) q = ((success, x), q)
  pop_as true d none q = ((epipe, d), q)
  pop_as false d none q = ((eagain, d), q)

  unfoldable pub pop : A → Bounded A → (Code × A) × Bounded A
  pop d q = let (got, q1) = take q in pop_as q.shut d got q1

  abbrev pub pop_wait_as : Bool → A → ℕ → Option A → Bounded A → (Code × A) × Bounded A
  pop_wait_as b d id (some x) q = ((success, x), q)
  pop_wait_as true d id none q = ((epipe, d), q)
  pop_wait_as false d id none q = ((eagain, d), wait_pop id q)

  unfoldable pub pop_wait : A → ℕ → Bounded A → (Code × A) × Bounded A
  pop_wait d id q = let (got, q1) = take q in pop_wait_as q.shut d id got q1

  -- What everybody who waits is told when the channel closes: the pops first.
  abbrev pub pops_told : A → List ℕ → List (Event A)
  pops_told d [] = []
  pops_told d (p ∷ ps) = pop_done p epipe d ∷ pops_told d ps

  abbrev pub pushes_told : List (PushHandle A) → List (Event A)
  pushes_told [] = []
  pushes_told (h ∷ hs) = push_event h epipe ∷ pushes_told hs

  abbrev pub close_as : Bool → A → Bounded A → Bounded A
  close_as true d q = q
  close_as false d q = record q {
    pushes = [];
    pops = [];
    shut = true;
    told = (q.told ++ pops_told d q.pops) ++ pushes_told q.pushes;
  }

  unfoldable pub close : A → Bounded A → Bounded A
  close d q = close_as q.shut d q

  unfoldable pub unpush : ℕ → Bounded A → Bool × Bounded A
  unpush id q = let (rest, found) = remove_push id q.pushes in (found, record q { pushes = rest })

  unfoldable pub unpop : ℕ → Bounded A → Bool × Bounded A
  unpop id q = let (rest, found) = remove_pop id q.pops in (found, record q { pops = rest })
