-- ===== src/Channel/Push.antt =====
-- `try_push` and `request_push_` of a channel against the bounded queue.
use mathlib.Core.Path.{subst}
use condy.Prelude.{
  ℕ, ◌≡◌, refl, sym, ap, ◌∙◌, inl, inr, Bool, true, false, Option, some, List, [], ◌∷◌, ◌++◌,
  length, is_empty, ok, abort, panic, arith,
}
use condy.Channel.{Channel, PushHandle, try_push, request_push, force_push}
use condy.Channel.Buffer.{Ring-frame}
use condy.Channel.Bounded
use condy.Channel.Bounded.{Bounded, IsValid}
use condy.Channel.Refine.{Rep, Does, try_push_inner-Does}

module _ {A : Type 0} {c : Channel A} {q : Bounded A} (r : Rep c q) where
  try_push_as-Does : (b : Bool) (x : A) → q.shut ≡ b → Does (try_push x c) (Bounded.push_as b x q)
  unfolding try_push
  try_push_as-Does true x e = (c, simp (r.shut ∙ e), r)
  try_push_as-Does false x e =
      let (c', eq, rep) = try_push_inner-Does r x in (c', simp (r.shut ∙ e, eq), rep)

  -- `try_push` is the specified push: -EPIPE on a closed channel, else 0 if a waiting pop or the
  -- buffer took the item, and -EAGAIN if not; no assertion in it fails.
  pub try_push-Does : (x : A) → Does (try_push x c) (Bounded.push x q)
  unfolding Bounded.push
  try_push-Does x = try_push_as-Does q.shut x refl

  offer_refused :
      (ps : List ℕ) (x : A)
      → q.pops ≡ ps
      → (Bounded.offer_with ps x q).0 ≡ false
      → (ps ≡ []) × (length q.items ≡ q.bound) × ((Bounded.offer_with ps x q).1 ≡ q)
  offer_refused [] x e h = ground arith
  offer_refused (p ∷ ps) x e h = cc

  waiting_push :
      (c' : Channel A) (h : PushHandle A)
      → Rep c' q
      → q.pops ≡ []
      → length q.items ≡ q.bound
      → q.shut ≡ false
      → Rep (record c' { push_awaiters = c'.push_awaiters ++ h ∷ [] }) (Bounded.wait_push h q)
  waiting_push c' h rep idle full unshut = record {
    ring = Ring-frame rep.ring _ c'.pop_awaiters c'.closed c'.scheduled;
    bound = rep.bound;
    pushes = ap (λ (t : List (PushHandle A)). t ++ h ∷ []) rep.pushes;
    pops = rep.pops;
    shut = rep.shut;
    told = rep.told;
    valid = record {
      within = rep.valid.within;
      full_if_push = inr full;
      empty_if_pop = inl idle;
      none_if_shut = inl unshut;
    };
  }

  wait_as-Does :
      (b : Bool) (id : ℕ) (x : A)
      → (Bounded.offer x q).0 ≡ b
      → q.shut ≡ false
      → Does
          (request_push id x c)
          (Bounded.wait_as b (record { id = id; item = x; fake = false }) (Bounded.offer x q).1)
  unfolding request_push
  wait_as-Does true id x e unshut =
      let (c', eq, rep) = try_push_inner-Does r x in (c', simp (r.shut ∙ unshut, eq, e), rep)
  wait_as-Does false id x e unshut =
      let (c', eq, rep) = try_push_inner-Does r x in
      let (no_pops, full, same) = offer_refused q.pops x refl e in
      let h : PushHandle A = record { id = id; item = x; fake = false } in
      let rep' : Rep c' q = subst (Rep c') same rep in
      let idle : is_empty c'.pop_awaiters ≡ true = ap is_empty (rep'.pops ∙ no_pops) in
      let joined : Channel A = record c' { push_awaiters = c'.push_awaiters ++ h ∷ [] } in
      (
        joined,
        simp (r.shut ∙ unshut, eq, e, idle),
        subst (λ s. Rep joined (Bounded.wait_push h s)) (sym same)
            (waiting_push c' h rep' no_pops full unshut),
      )

  request_push_as-Does :
      (b : Bool) (id : ℕ) (x : A)
      → q.shut ≡ b
      → Does
          (request_push id x c)
          (Bounded.push_wait_as b (record { id = id; item = x; fake = false }) q)
  unfolding request_push
  request_push_as-Does true id x e = (c, simp (r.shut ∙ e), r)
  request_push_as-Does false id x e = wait_as-Does (Bounded.offer x q).0 id x refl e

  -- On a channel that stands for a valid bounded queue, `request_push_` is the specified waiting push: as `try_push`, but where the item is not taken
  -- its handle joins the end of those that wait; no assertion in it fails.
  pub request_push-Does :
      (id : ℕ) (x : A)
      → Does
          (request_push id x c)
          (Bounded.push_wait (record { id = id; item = x; fake = false }) q)
  unfolding Bounded.push_wait
  request_push-Does id x = request_push_as-Does q.shut id x refl

  forced :
      (b : Bool) (id : ℕ) (x : A)
      → (Bounded.offer x q).0 ≡ b
      → q.shut ≡ false
      → (c' : Channel A) × (force_push (some id) x c ≡ ok c')
        × Rep c'
            (Bounded.wait_as b (record { id = id; item = x; fake = true }) (Bounded.offer x q).1).1
  unfolding force_push
  forced true id x e unshut =
      let (c', eq, rep) = try_push_inner-Does r x in (c', simp (r.shut ∙ unshut, eq, e), rep)
  forced false id x e unshut =
      let (c', eq, rep) = try_push_inner-Does r x in
      let (no_pops, full, same) = offer_refused q.pops x refl e in
      let h : PushHandle A = record { id = id; item = x; fake = true } in
      let rep' : Rep c' q = subst (Rep c') same rep in
      let idle : is_empty c'.pop_awaiters ≡ true = ap is_empty (rep'.pops ∙ no_pops) in
      let joined : Channel A = record c' { push_awaiters = c'.push_awaiters ++ h ∷ [] } in
      (
        joined,
        simp (r.shut ∙ unshut, eq, e, idle),
        subst (λ s. Rep joined (Bounded.wait_push h s)) (sym same)
            (waiting_push c' h rep' no_pops full unshut),
      )

  -- `force_push` on an open channel, where the allocation of the fake handle succeeds: the item is
  -- taken at once, or waits in a fake handle behind the other pushes. On a closed channel it panics.
  pub force_push-Rep :
      (id : ℕ) (x : A)
      → ((q.shut ≡ false)
          → (c' : Channel A) × (force_push (some id) x c ≡ ok c')
            × Rep c' (Bounded.push_wait (record { id = id; item = x; fake = true }) q).1)
        × ((q.shut ≡ true) → (alloc : Option ℕ) → force_push alloc x c ≡ abort panic)
  unfolding Bounded.push_wait force_push
  force_push-Rep id x = (
    λ unshut. simp unshut (forced (Bounded.offer x q).0 id x refl unshut),
    λ shut alloc. simp (r.shut ∙ shut),
  )
