-- ===== src/Launch/Linked.antt =====
-- include/condy/detail/op_states.hpp: which operations `LinkOperationState` prepares, with which flags,
-- and what the entries of liburing promise.
use condy.Prelude.{
  ℕ, suc, ◌+◌, ◌%◌, ◌≤◌, ◌<◌, ◌≡◌, refl, ap, ◌∙◌, false, some, List, [], ◌∷◌, ◌++◌, length, bit_or,
  arith,
}
use condy.Ring.{Ring}
use condy.Senders.{
  link, Sender, op, combined, Senders, nil, cons, count, Act, reserve, prepare, begin, child_flags,
  start, start_each,
}
use condy.Launch.{Operation}

singles : List ℕ → Senders
singles [] = nil
singles (a ∷ ids) = cons (op a) (singles ids)

-- The sender that links the operations `ids` by the flags `l`.
unfoldable pub chain : ℕ → List ℕ → Sender
unfolding singles
chain l ids = combined (link l) (singles ids)

-- The operations with their flags: all but the last are linked.
abbrev pub linked : ℕ → ℕ → List ℕ → List (ℕ × ℕ)
linked l flags [] = []
linked l flags (a ∷ []) = (a, flags) ∷ []
linked l flags (a ∷ b ∷ ids) = (a, bit_or flags l) ∷ linked l flags (b ∷ ids)

unfoldable pub prepares : List (ℕ × ℕ) → List Act
prepares [] = []
prepares ((a, f) ∷ ps) = prepare a f ∷ prepares ps

count-singles : (ids : List ℕ) → count (singles ids) ≡ length ids
unfolding count singles
count-singles [] = refl
count-singles (a ∷ ids) = omega (arith, count-singles ids)

each-linked :
    (l flags : ℕ) (ids : List ℕ)
    → start_each (link l) flags (singles ids) ≡ prepares (linked l flags ids)
unfolding start singles prepares child_flags
each-linked l flags [] = refl
each-linked l flags (a ∷ []) = refl
each-linked l flags (a ∷ b ∷ ids) =
    ap (prepare a (bit_or flags l) ∷◌) (each-linked l flags (b ∷ ids))

-- A chain reserves room for its operations, and prepares them.
pub start-chain :
    (l flags : ℕ) (ids : List ℕ)
    → start flags (chain l ids) ≡ reserve (length ids) ∷ prepares (linked l flags ids)
unfolding start chain begin
start-chain l flags ids =
    ap (λ (n : ℕ). reserve n ∷ start_each (link l) flags (singles ids)) (count-singles ids)
    ∙ ap (reserve (length ids) ∷◌) (each-linked l flags ids)

pub length-linked : (l flags : ℕ) (ids : List ℕ) → length (linked l flags ids) ≡ length ids
length-linked l flags [] = refl
length-linked l flags (a ∷ []) = refl
length-linked l flags (a ∷ b ∷ ids) = ap suc (length-linked l flags (b ∷ ids))

-- The operations, all linked to a next one.
abbrev pub marked : ℕ → ℕ → List ℕ → List (ℕ × ℕ)
marked l flags [] = []
marked l flags (a ∷ ids) = (a, bit_or flags l) ∷ marked l flags ids

pub length-marked : (l flags : ℕ) (ids : List ℕ) → length (marked l flags ids) ≡ length ids
length-marked l flags [] = refl
length-marked l flags (a ∷ ids) = ap suc (length-marked l flags ids)

pub linked-append :
    (l flags : ℕ) (front : List ℕ) (b : ℕ) (back : List ℕ)
    → linked l flags (front ++ b ∷ back) ≡ marked l flags front ++ linked l flags (b ∷ back)
linked-append l flags [] b back = refl
linked-append l flags (a ∷ []) b back = refl
linked-append l flags (a ∷ c ∷ ids) b back =
    ap ((a, bit_or flags l) ∷◌) (linked-append l flags (c ∷ ids) b back)

-- What liburing documents of the entries: `io_uring_get_sqe`, on which the prep functions stand, gives
-- one while there is room, and takes up one place; to write to an entry leaves the room as it is, and
-- a submission does not take up room.
pub record IsReady {R S : Type 0} (io_uring_submit : R → R) (space_left : R → ℕ)
    (write : ℕ → ℕ → S → R → R) (ops : ℕ → Operation R S) (sqe : ℕ → S) (take : ℕ → R → R)
    : Type 0 where
  pub aligned : (a : ℕ) → (ops a).address % 8 ≡ 0
  pub going : (a : ℕ) → (ops a).stop_requested ≡ false
  pub gives :
      (a : ℕ) (r : Ring R)
      → 0 < space_left r.ring
      → (ops a).prep_func r ≡ (some (sqe a), record r { ring = take a r.ring })
  pub takes : (a : ℕ) (r : R) → 0 < space_left r → space_left (take a r) + 1 ≡ space_left r
  pub keeps : (f w : ℕ) (e : S) (r : R) → space_left (write f w e r) ≡ space_left r
  pub frees : (r : R) → space_left r ≤ space_left (io_uring_submit r)

module _ {R S : Type 0} (write : ℕ → ℕ → S → R → R) (ops : ℕ → Operation R S) (sqe : ℕ → S)
    (take : ℕ → R → R) where
  -- The entries of the operations are written one after the other.
  abbrev pub written : List (ℕ × ℕ) → R → R
  written [] r = r
  written ((a, f) ∷ ps) r = written ps (write f (ops a).address (sqe a) (take a r))
