-- ===== src/Senders/Order.antt =====
-- include/condy/detail/op_states.hpp: which operations a sender starts, in which order, and with which
-- flags.
use condy.Prelude.{ℕ, ◌≡◌, refl, sym, ap, ◌∙◌, List, [], ◌∷◌, ◌++◌, bit_or}
use condy.Senders.{
  Combinator, parallel_all, parallel_any, when_all, when_any, link, Sender, op, flagged, combined,
  ranged, Senders, nil, cons, Act, reserve, prepare, receive, begin, child_flags, start, start_each,
  prepared,
}

-- A flag that is given to each of some operations, which stand with the flags given to them so far.
abbrev pub mark : ℕ → List (ℕ × List ℕ) → List (ℕ × List ℕ)
mark f [] = []
mark f ((a, fs) ∷ ms) = (a, f ∷ fs) ∷ mark f ms

-- A link gives its flags to each operand but the last; the other combinators give none.
abbrev pub mark_operand : Combinator → List (ℕ × List ℕ) → List (ℕ × List ℕ)
mark_operand (link l) ms = mark l ms
mark_operand parallel_all ms = ms
mark_operand parallel_any ms = ms
mark_operand when_all ms = ms
mark_operand when_any ms = ms

-- The operations of a sender from left to right, each with the flags that stand around it, the
-- outermost first.
unfoldable mutual
  pub marks : Sender → List (ℕ × List ℕ)
  marks (op a) = (a, []) ∷ []
  marks (flagged f s) = mark f (marks s)
  marks (combined c ss) = marks_each c ss
  marks (ranged c ss) = marks_each c ss

  pub marks_each : Combinator → Senders → List (ℕ × List ℕ)
  marks_each c nil = []
  marks_each c (cons s nil) = marks s
  marks_each c (cons s (cons t ss)) = mark_operand c (marks s) ++ marks_each c (cons t ss)

-- All of some flags.
abbrev pub union : ℕ → List ℕ → ℕ
union flags [] = flags
union flags (f ∷ fs) = union (bit_or flags f) fs

-- The requests that these operations ask for when the whole is started with `flags`.
abbrev pub requests : ℕ → List (ℕ × List ℕ) → List (ℕ × ℕ)
requests flags [] = []
requests flags ((a, fs) ∷ ms) = (a, union flags fs) ∷ requests flags ms

pub prepared-append : (xs ys : List Act) → prepared (xs ++ ys) ≡ prepared xs ++ prepared ys
prepared-append [] ys = refl
prepared-append (reserve n ∷ xs) ys = prepared-append xs ys
prepared-append (prepare a f ∷ xs) ys = ap ((a, f) ∷◌) (prepared-append xs ys)
prepared-append (receive ∷ xs) ys = prepared-append xs ys

pub prepared-begin :
    (c : Combinator) (flags : ℕ) (ss : Senders)
    → prepared (begin c ss (start_each c flags ss)) ≡ prepared (start_each c flags ss)
unfolding begin start_each
prepared-begin (link l) flags ss = refl
prepared-begin parallel_all flags nil = refl
prepared-begin parallel_all flags (cons s ss) = refl
prepared-begin parallel_any flags nil = refl
prepared-begin parallel_any flags (cons s ss) = refl
prepared-begin when_all flags nil = refl
prepared-begin when_all flags (cons s ss) = refl
prepared-begin when_any flags nil = refl
prepared-begin when_any flags (cons s ss) = refl

requests-append :
    (flags : ℕ) (xs ys : List (ℕ × List ℕ))
    → requests flags (xs ++ ys) ≡ requests flags xs ++ requests flags ys
requests-append flags [] ys = refl
requests-append flags ((a, fs) ∷ xs) ys = ap ((a, union flags fs) ∷◌) (requests-append flags xs ys)

requests-mark :
    (flags f : ℕ) (ms : List (ℕ × List ℕ))
    → requests flags (mark f ms) ≡ requests (bit_or flags f) ms
requests-mark flags f [] = refl
requests-mark flags f ((a, fs) ∷ ms) =
    ap ((a, union (bit_or flags f) fs) ∷◌) (requests-mark flags f ms)

requests-mark_operand :
    (c : Combinator) (flags : ℕ) (ms : List (ℕ × List ℕ))
    → requests flags (mark_operand c ms) ≡ requests (child_flags c flags) ms
unfolding child_flags
requests-mark_operand (link l) flags ms = requests-mark flags l ms
requests-mark_operand parallel_all flags ms = refl
requests-mark_operand parallel_any flags ms = refl
requests-mark_operand when_all flags ms = refl
requests-mark_operand when_any flags ms = refl

mutual
  unfolding start marks

  start_marked : (flags : ℕ) (s : Sender) → prepared (start flags s) ≡ requests flags (marks s)
  start_marked flags (op a) = refl
  start_marked flags (flagged f s) =
      start_marked (bit_or flags f) s ∙ sym (requests-mark flags f (marks s))
  start_marked flags (combined c ss) = prepared-begin c flags ss ∙ each_marked c flags ss
  start_marked flags (ranged c ss) = prepared-begin c flags ss ∙ each_marked c flags ss

  each_marked :
      (c : Combinator) (flags : ℕ) (ss : Senders)
      → prepared (start_each c flags ss) ≡ requests flags (marks_each c ss)
  each_marked c flags nil = refl
  each_marked c flags (cons s nil) = start_marked flags s
  each_marked c flags (cons s (cons t ss)) =
      prepared-append (start (child_flags c flags) s) (start_each c flags (cons t ss))
      ∙ ap (λ (x : List (ℕ × ℕ)). x ++ prepared (start_each c flags (cons t ss)))
          (start_marked (child_flags c flags) s ∙ sym (requests-mark_operand c flags (marks s)))
      ∙ ap (λ (x : List (ℕ × ℕ)). requests flags (mark_operand c (marks s)) ++ x)
          (each_marked c flags (cons t ss))
      ∙ sym (requests-append flags (mark_operand c (marks s)) (marks_each c (cons t ss)))

-- Whatever its combinators, a sender that is started prepares each of its operations once, from left
-- to right. The flags of each are exactly those that the sender was started with, those of the flagged
-- senders around it, and those of each link around it in which its operand is not the last.
pub start-marks : (flags : ℕ) (s : Sender) → prepared (start flags s) ≡ requests flags (marks s)
start-marks flags s = start_marked flags s
