-- ===== src/Senders/Brackets.antt =====
-- include/condy/sender_operations.hpp: the operators on senders, which flatten their left operand only.
use condy.Prelude.{ℕ, ◌≡◌, refl, sym, ap, ◌∙◌, List, ◌++◌, append_assoc}
use condy.Prelude.Bits.{bit_or_idem}
use mathlib.Core.Path.{subst}
use condy.Senders.{
  Combinator-discrete, Combinator, parallel_all, parallel_any, when_all, when_any, link, Sender, op,
  flagged, combined, ranged, Senders, nil, cons, snoc, compose, both, either, in_sequence,
  child_flags, start, start_each, prepared,
}
use condy.Senders.Order.{prepared-append, prepared-begin}

child_flags_idem : (c : Combinator) (f : ℕ) → child_flags c (child_flags c f) ≡ child_flags c f
unfolding child_flags
child_flags_idem (link l) f = bit_or_idem f l
child_flags_idem parallel_all f = refl
child_flags_idem parallel_any f = refl
child_flags_idem when_all f = refl
child_flags_idem when_any f = refl

-- A pair of senders.
pair_lem :
    (c : Combinator) (f : ℕ) (s t : Sender)
    → prepared (start f (combined c (cons s (cons t nil))))
      ≡ prepared (start (child_flags c f) s) ++ prepared (start f t)
unfolding start
pair_lem c f s t =
    prepared-begin c f (cons s (cons t nil))
    ∙ prepared-append (start (child_flags c f) s) (start f t)

each-snoc :
    (c : Combinator) (f : ℕ) (ss : Senders) (t : Sender)
    → prepared (start_each c f (snoc ss t))
      ≡ prepared (start_each c (child_flags c f) ss) ++ prepared (start f t)
unfolding start snoc
each-snoc c f nil t = refl
each-snoc c f (cons s nil) t = prepared-append (start (child_flags c f) s) (start f t)
each-snoc c f (cons s (cons u ss)) t =
    prepared-append (start (child_flags c f) s) (start_each c f (snoc (cons u ss) t))
    ∙ ap (prepared (start (child_flags c f) s) ++◌) (each-snoc c f (cons u ss) t)
    ∙ sym (
        append_assoc (prepared (start (child_flags c f) s))
          (prepared (start_each c (child_flags c f) (cons u ss))) (prepared (start f t)))
    ∙ ap (λ (x : List (ℕ × ℕ)). x ++ prepared (start f t)) front
  where
    front :
        prepared (start (child_flags c f) s)
          ++ prepared (start_each c (child_flags c f) (cons u ss))
        ≡ prepared (start_each c (child_flags c f) (cons s (cons u ss)))
    front =
        ap
          (λ (g : ℕ). prepared (start g s) ++ prepared (start_each c (child_flags c f) (cons u ss)))
          (sym (child_flags_idem c f))
        ∙ sym (
            prepared-append (start (child_flags c (child_flags c f)) s)
              (start_each c (child_flags c f) (cons u ss)))

-- What holds of both branches of a decision holds of the one taken.
of_decision :
    {P A : Type 0} (d : Dec P) (x y : A) (Q : A → Type 0)
    → (P → Q x)
    → Q y
    → Q (elim d [ yes _ ↦ x | no _ ↦ y ])
of_decision (yes p) x y Q f g = f p
of_decision (no _) x y Q f g = g

flattened :
    (c : Combinator) (f : ℕ) (ss : Senders) (t : Sender)
    → prepared (start f (combined c (snoc ss t)))
      ≡ prepared (start (child_flags c f) (combined c ss)) ++ prepared (start f t)
unfolding start
flattened c f ss t =
    prepared-begin c f (snoc ss t)
    ∙ each-snoc c f ss t
    ∙ ap (λ (x : List (ℕ × ℕ)). x ++ prepared (start f t))
        (sym (prepared-begin c (child_flags c f) ss))

compose_lem :
    (c : Combinator) (f : ℕ) (s t : Sender)
    → prepared (start f (compose c s t))
      ≡ prepared (start (child_flags c f) s) ++ prepared (start f t)
unfolding compose start
compose_lem c f (op a) t = pair_lem c f (op a) t
compose_lem c f (flagged g s) t = pair_lem c f (flagged g s) t
compose_lem c f (ranged d ss) t = pair_lem c f (ranged d ss) t
compose_lem c f (combined d ss) t =
    of_decision (Combinator-discrete d c) (combined c (snoc ss t))
      (combined c (cons (combined d ss) (cons t nil)))
      (λ (x : Sender).
        prepared (start f x)
        ≡ prepared (start (child_flags c f) (combined d ss)) ++ prepared (start f t))
      (λ e.
        subst
          (λ (k : Combinator).
            prepared (start f (combined c (snoc ss t)))
            ≡ prepared (start (child_flags c f) (combined k ss)) ++ prepared (start f t))
          (sym e) (flattened c f ss t))
      (pair_lem c f (combined d ss) t)

-- How operators of one kind are bracketed makes no difference to which operations are prepared, in
-- which order and with which flags: neither for `&&`, nor for `||`, nor for `>>`.
pub operators_assoc :
    (io_link flags : ℕ) (s t u : Sender)
    → (prepared (start flags (both (both s t) u)) ≡ prepared (start flags (both s (both t u))))
      × (prepared (start flags (either (either s t) u))
          ≡ prepared (start flags (either s (either t u))))
      × (prepared (start flags (in_sequence io_link (in_sequence io_link s t) u))
          ≡ prepared (start flags (in_sequence io_link s (in_sequence io_link t u))))
unfolding both either in_sequence
operators_assoc io_link flags s t u =
    (compose_assoc when_all, compose_assoc when_any, compose_assoc (link io_link))
  where
    compose_assoc :
        (c : Combinator)
        → prepared (start flags (compose c (compose c s t) u))
          ≡ prepared (start flags (compose c s (compose c t u)))
    compose_assoc c =
        compose_lem c flags (compose c s t) u
        ∙ ap (λ (x : List (ℕ × ℕ)). x ++ prepared (start flags u))
            (compose_lem c (child_flags c flags) s t)
        ∙ append_assoc (prepared (start (child_flags c (child_flags c flags)) s))
            (prepared (start (child_flags c flags) t)) (prepared (start flags u))
        ∙ ap
            (λ (g : ℕ).
              prepared (start g s)
              ++ (prepared (start (child_flags c flags) t) ++ prepared (start flags u)))
            (child_flags_idem c flags)
        ∙ sym (
            compose_lem c flags s (compose c t u)
            ∙ ap (prepared (start (child_flags c flags) s) ++◌) (compose_lem c flags t u))
