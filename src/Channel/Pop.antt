-- ===== src/Channel/Pop.antt =====
-- `try_pop` and `request_pop_` of a channel against the bounded queue.
use mathlib.Core.Path.{subst}
use condy.Prelude.{
  ℕ, ◌≡◌, refl, sym, ap, ◌∙◌, inl, inr, Bool, true, false, Option, none, some, List, [], ◌∷◌, ◌++◌,
  length, length-append, is_empty, arith,
}
use condy.Channel.{Channel, PushHandle, try_pop, request_pop}
use condy.Channel.Buffer.{Ring-frame}
use condy.Channel.Bounded
use condy.Channel.Bounded.{Bounded, IsValid}
use condy.Channel.Refine.{Rep, Does, try_pop_inner-Does}

module _ {A : Type 0} {c : Channel A} {q : Bounded A} (r : Rep c q) where
  shut-uncons : (xs : List A) (s : Bounded A) → (Bounded.uncons xs s).1.shut ≡ s.shut
  shut-uncons [] s = refl
  shut-uncons (x ∷ xs) s = refl

  shut-take : (hs : List (PushHandle A)) → (Bounded.take_with hs q).1.shut ≡ q.shut
  shut-take [] = shut-uncons q.items q
  shut-take (h ∷ hs) = shut-uncons (q.items ++ h.item ∷ []) _

  pop_as-Does :
      (d : A) (b : Bool) (got : Option A)
      → (Bounded.take q).0 ≡ got
      → q.shut ≡ b
      → Does (try_pop d c) (Bounded.pop_as b d got (Bounded.take q).1)
  unfolding try_pop
  pop_as-Does d b (some x) e f = let (c', eq, rep) = try_pop_inner-Does r in (c', simp (eq, e), rep)
  pop_as-Does d true none e f =
      let (c', eq, rep) = try_pop_inner-Does r in
      (c', simp (eq, e, rep.shut ∙ shut-take q.pushes ∙ f), rep)
  pop_as-Does d false none e f =
      let (c', eq, rep) = try_pop_inner-Does r in
      (c', simp (eq, e, rep.shut ∙ shut-take q.pushes ∙ f), rep)

  -- `try_pop` is the specified pop: 0 and the oldest item if there is one, else -EPIPE on a closed
  -- channel and -EAGAIN on an open one; no assertion in it fails.
  pub try_pop-Does : (d : A) → Does (try_pop d c) (Bounded.pop d q)
  unfolding Bounded.pop
  try_pop-Does d = pop_as-Does d q.shut (Bounded.take q).0 refl refl

  uncons-none :
      (xs : List A) (s : Bounded A)
      → (Bounded.uncons xs s).0 ≡ none
      → (xs ≡ []) × ((Bounded.uncons xs s).1 ≡ s)
  uncons-none [] s e = (refl, refl)
  uncons-none (x ∷ xs) s e = cc

  take_none :
      (hs : List (PushHandle A)) (xs : List A)
      → q.items ≡ xs
      → (Bounded.take_with hs q).0 ≡ none
      → (hs ≡ []) × (q.items ≡ []) × ((Bounded.take_with hs q).1 ≡ q)
  take_none [] xs i e = let (a, b) = uncons-none q.items q e in (refl, a, b)
  take_none (h ∷ hs) [] i e =
      let (a, b) = uncons-none (q.items ++ h.item ∷ []) _ e in
      absurd (omega (arith, ap length a, length-append q.items (h.item ∷ [])))
  take_none (h ∷ hs) (x ∷ xs) i e =
      let (a, b) = uncons-none (q.items ++ h.item ∷ []) _ e in
      absurd (omega (arith, ap length a, length-append q.items (h.item ∷ [])))

  waiting_pop :
      (c' : Channel A) (id : ℕ)
      → Rep c' q
      → q.items ≡ []
      → q.pushes ≡ []
      → q.shut ≡ false
      → Rep (record c' { pop_awaiters = c'.pop_awaiters ++ id ∷ [] }) (Bounded.wait_pop id q)
  waiting_pop c' id rep bare idle unshut = record {
    ring = Ring-frame rep.ring c'.push_awaiters _ c'.closed c'.scheduled;
    bound = rep.bound;
    pushes = rep.pushes;
    pops = ap (λ (t : List ℕ). t ++ id ∷ []) rep.pops;
    shut = rep.shut;
    told = rep.told;
    valid = record {
      within = rep.valid.within;
      full_if_push = inl idle;
      empty_if_pop = inr (bare, idle);
      none_if_shut = inl unshut;
    };
  }

  pop_wait_as-Does :
      (d : A) (b : Bool) (id : ℕ) (got : Option A)
      → (Bounded.take q).0 ≡ got
      → q.shut ≡ b
      → Does (request_pop d id c) (Bounded.pop_wait_as b d id got (Bounded.take q).1)
  unfolding request_pop
  pop_wait_as-Does d b id (some x) e f =
      let (c', eq, rep) = try_pop_inner-Does r in (c', simp (eq, e), rep)
  pop_wait_as-Does d true id none e f =
      let (c', eq, rep) = try_pop_inner-Does r in
      let (idle, bare, same) = take_none q.pushes q.items refl e in
      let none_wait : is_empty c'.push_awaiters ≡ true =
        ap is_empty ((subst (Rep c') same rep).pushes ∙ idle) in
      (c', simp (eq, e, none_wait, rep.shut ∙ shut-take q.pushes ∙ f), rep)
  pop_wait_as-Does d false id none e f =
      let (c', eq, rep) = try_pop_inner-Does r in
      let (idle, bare, same) = take_none q.pushes q.items refl e in
      let rep' : Rep c' q = subst (Rep c') same rep in
      let none_wait : is_empty c'.push_awaiters ≡ true = ap is_empty (rep'.pushes ∙ idle) in
      let joined : Channel A = record c' { pop_awaiters = c'.pop_awaiters ++ id ∷ [] } in
      (
        joined,
        simp (eq, e, none_wait, rep'.shut ∙ f),
        subst (λ s. Rep joined (Bounded.wait_pop id s)) (sym same)
            (waiting_pop c' id rep' bare idle f),
      )

  -- On a channel that stands for a valid bounded queue, `request_pop_` is the specified waiting pop: as `try_pop`, but where an open channel has no
  -- item the handle joins the end of those that wait; no assertion in it fails.
  pub request_pop-Does : (d : A) (id : ℕ) → Does (request_pop d id c) (Bounded.pop_wait d id q)
  unfolding Bounded.pop_wait
  request_pop-Does d id = pop_wait_as-Does d q.shut id (Bounded.take q).0 refl refl
