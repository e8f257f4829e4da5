-- ===== src/Senders.antt =====
-- include/condy/detail/senders.hpp, include/condy/sender_operations.hpp and the `start` functions of
-- include/condy/detail/op_states.hpp: how operations are composed, and in which order and with which
-- flags a composed sender starts them. An operation stands by its identity; the flags of io_uring are
-- numbers, and `io_link` is `IOSQE_IO_LINK`.
pub mod Order
pub mod Brackets
use condy.Prelude.{ℕ, ◌+◌, List, [], ◌∷◌, ◌++◌, bit_or, exception, Outcome, ok, abort}
use native.Mathlib.Decide.{ℕ_discrete}

-- The operation states that a `ParallelSenderBase` or a `RangedParallelSenderBase` connects to; `link`
-- carries the flags of `LinkSenderBase`.
pub data Combinator : Type 0 where
  parallel_all parallel_any when_all when_any : Combinator
  link : ℕ → Combinator

mutual
  -- `OpSenderBase`, `FlaggedOpSender`, `ParallelSenderBase` and `RangedParallelSenderBase`
  pub data Sender : Type 0 where
    op : ℕ → Sender
    flagged : ℕ → Sender → Sender
    combined : Combinator → Senders → Sender
    ranged : Combinator → Senders → Sender

  pub data Senders : Type 0 where
    nil : Senders
    cons : Sender → Senders → Senders

unfoldable pub count : Senders → ℕ
count nil = 0
count (cons s ss) = count ss + 1

unfoldable pub snoc : Senders → Sender → Senders
snoc nil t = cons t nil
snoc (cons s ss) t = cons s (snoc ss t)

-- `flag`
unfoldable pub flag : ℕ → Sender → Sender
flag flags s = flagged flags s

-- `when_any` of a range, which must not be empty.
unfoldable pub when_any_range : Senders → Outcome Sender
when_any_range nil = abort exception
when_any_range (cons s ss) = ok (ranged when_any (cons s ss))

-- `parallel` of a range, for the other ranged senders.
unfoldable pub parallel_range : Combinator → Senders → Sender
parallel_range c ss = ranged c ss

-- Whether two sender templates are the same one.
abbrev pub Combinator-discrete : Discrete Combinator
Combinator-discrete = hlevel ℕ_discrete

-- The two overloads of an operator: a left operand that is already a sender of the operator's own
-- template takes the right operand as its last.
unfoldable pub compose : Combinator → Sender → Sender → Sender
unfolding snoc
compose c (combined d ss) t = elim (Combinator-discrete d c) [
  | yes _ ↦ combined c (snoc ss t)
  | no _ ↦ combined c (cons (combined d ss) (cons t nil))
]
compose c (op a) t = combined c (cons (op a) (cons t nil))
compose c (flagged f s) t = combined c (cons (flagged f s) (cons t nil))
compose c (ranged d ss) t = combined c (cons (ranged d ss) (cons t nil))

-- `operator&&`
unfoldable pub both : Sender → Sender → Sender
unfolding compose
both s t = compose when_all s t

-- `operator||`
unfoldable pub either : Sender → Sender → Sender
unfolding compose
either s t = compose when_any s t

-- `operator>>`
unfoldable pub in_sequence : ℕ → Sender → Sender → Sender
unfolding compose
in_sequence io_link s t = compose (link io_link) s t

-- What the start of a sender does, in order: room for linked operations is reserved, an operation is
-- prepared with flags, or the receiver of an empty sender is called.
pub data Act : Type 0 where
  reserve : ℕ → Act
  prepare : ℕ → ℕ → Act
  receive : Act

-- What surrounds the starts of the operations: the start of `LinkOperationState` does not look for an
-- empty pack.
unfoldable pub begin : Combinator → Senders → List Act → List Act
unfolding count
begin (link l) ss acts = reserve (count ss) ∷ acts
begin c nil acts = receive ∷ []
begin c (cons s ss) acts = acts

-- The flags of an operation that is not the last.
unfoldable pub child_flags : Combinator → ℕ → ℕ
child_flags (link l) flags = bit_or flags l
child_flags parallel_all flags = flags
child_flags parallel_any flags = flags
child_flags when_all flags = flags
child_flags when_any flags = flags

-- `start` of each operation state.
unfoldable mutual
  unfolding begin child_flags

  pub start : ℕ → Sender → List Act
  start flags (op a) = prepare a flags ∷ []
  start flags (flagged f s) = start (bit_or flags f) s
  start flags (combined c ss) = begin c ss (start_each c flags ss)
  start flags (ranged c ss) = begin c ss (start_each c flags ss)

  pub start_each : Combinator → ℕ → Senders → List Act
  start_each c flags nil = []
  start_each c flags (cons s nil) = start flags s
  start_each c flags (cons s (cons t ss)) =
      start (child_flags c flags) s ++ start_each c flags (cons t ss)

-- The operations that are prepared, with their flags.
abbrev pub prepared : List Act → List (ℕ × ℕ)
prepared [] = []
prepared (reserve n ∷ acts) = prepared acts
prepared (prepare a f ∷ acts) = (a, f) ∷ prepared acts
prepared (receive ∷ acts) = prepared acts
