-- ===== src/Parallel.antt =====
-- include/condy/detail/op_states.hpp: `ParallelOperationState` and `RangedParallelOperationState`,
-- which start several operations and hand their results on when the last one completes, and the
-- `when_all`, `when_any` and link states built on them. `A` is the type of a result (for a tuple of
-- senders, the sum of their return types). Child operations stand by their index. What a stop source
-- and a receiver are told is recorded; the tokens themselves belong to the standard library.
pub mod Complete
pub mod Deliver
use condy.Prelude.{
  ℕ, zero, suc, ◌+◌, ◌-◌, Bool, true, false, List, [], ◌∷◌, ◌++◌, ◌==◌, ltb, if◌then◌else◌, length,
  get_or, set, replicate, bit_or, bad_access, Outcome, ok, abort, ◌>>=◌, ◌>>◌,
}

-- `WhenAnyCanceller` or `WhenAllCanceller`
pub data Canceller : Type 0 where
  when_any when_all : Canceller

-- `size` is the number of child operations; `stop_requested` and `stop_callback` are the any
-- canceller's; `delivered` lists what the receiver was called with.
pub record Parallel (A : Type 0) : Type 0 where
  pub size : ℕ
  pub order : List ℕ
  pub results : List A
  pub completed_count : ℕ
  pub stop_requested : Bool
  pub stop_callback : Bool
  pub delivered : List (List ℕ × List A)

-- All operations start with the same flags, in order.
unfoldable pub start_flags : ℕ → ℕ → List ℕ
start_flags flags n = replicate n flags

-- The flags of the operations of `LinkOperationState` and `RangedLinkOperationState`: all but the
-- last are linked to the next.
unfoldable pub link_flags : ℕ → ℕ → ℕ → List ℕ
link_flags link flags zero = []
link_flags link flags (suc n) =
    (if n == 0 then flags else bit_or flags link) ∷ link_flags link flags n

module _ {A : Type 0} where
  -- The constructor, with `chain_token` of the canceller; `d` is a default result, and `possible`
  -- whether the receiver's token can ever stop.
  unfoldable pub connect : A → Canceller → Bool → ℕ → Parallel A
  connect d c possible n = record {
    size = n;
    order = replicate n 0;
    results = replicate n d;
    completed_count = 0;
    stop_requested = false;
    stop_callback = elim c [ when_any ↦ possible | when_all ↦ false ];
    delivered = [];
  }

  -- `canceller_(result)`
  unfoldable pub cancel_others : Canceller → Parallel A → Parallel A
  cancel_others when_any p = record p { stop_requested = true }
  cancel_others when_all p = p

  -- `canceller_.reset()`
  unfoldable pub reset : Canceller → Parallel A → Parallel A
  reset when_any p = record p { stop_callback = false }
  reset when_all p = p

  abbrev pub deliver : Parallel A → Parallel A
  deliver p = record p { delivered = p.delivered ++ (p.order, p.results) ∷ [] }

  -- The writes of both `receive_` functions: `order_[no] = I` and `results_[I] = result`.
  unfoldable pub note_result : ℕ → A → Parallel A → Outcome (Parallel A)
  note_result i r p = do
    let no = p.completed_count
    if ltb no (length p.order) then ok tt else abort bad_access
    if ltb i (length p.results) then ok tt else abort bad_access
    ok (record p {
      completed_count = no + 1;
      order = set p.order no i;
      results = set p.results i r;
    })

  -- Both `receive_` functions; `resets` says whether the canceller is reset before the receiver is
  -- called.
  unfoldable pub receive_with : Bool → Canceller → ℕ → A → Parallel A → Outcome (Parallel A)
  unfolding note_result cancel_others reset
  receive_with resets c i r p = do
    p1 ← note_result i r (cancel_others c p)
    ok (if p1.completed_count == p1.size then deliver (if resets then reset c p1 else p1) else p1)

  -- `ParallelOperationState::receive_`
  unfoldable pub receive : Canceller → ℕ → A → Parallel A → Outcome (Parallel A)
  unfolding receive_with
  receive c i r p = receive_with true c i r p

  -- `RangedParallelOperationState::receive_`, which leaves the canceller's callback in place.
  unfoldable pub ranged_receive : Canceller → ℕ → A → Parallel A → Outcome (Parallel A)
  unfolding receive_with
  ranged_receive c i r p = receive_with false c i r p

  -- `start`: with no operation the receiver is called at once.
  unfoldable pub start : ℕ → Parallel A → List ℕ × Parallel A
  start flags p = if p.size == 0 then ([], deliver p) else (start_flags flags p.size, p)

  -- `ReceiverAllWrapper` and `ReceiverRangedAllWrapper`
  unfoldable pub all_result : List ℕ × List A → List A
  all_result (order, results) = results

  -- `ReceiverRangedAnyWrapper`; with `tuple_at`, which tags the result by its index, also
  -- `ReceiverAnyWrapper`.
  unfoldable pub any_result : A → List ℕ × List A → ℕ × A
  any_result d (order, results) = let index = get_or order 0 0 in (index, get_or results index d)
