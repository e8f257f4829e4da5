-- ===== src/Channel/Weights/Steps.antt =====
-- What each operation of a bounded queue does to the weight of its handles.
use condy.Prelude.{
  ℕ, ◌+◌, ◌≡◌, refl, ap, Bool, true, false, List, [], ◌∷◌, ◌++◌, ◌==◌, ==_iff, Bool-cases, inl, inr,
  arith,
}
use condy.Codes.{epipe}
use condy.Channel.{PushHandle, remove_push, remove_pop}
use condy.Channel.Bounded
use condy.Channel.Bounded.{Bounded}
use condy.Channel.Run.{
  Op, pushes, push_waits, pops, pop_waits, push_cancels, pop_cancels, closes, Reply, code, item,
  found, spec_step,
}
use condy.Channel.Weights.{
  weigh, if_waits, if_found, AllPlain, weigh_pushes, weigh_told, weigh_told-append, weight,
  weigh_event-push, Adds, take-Adds, push_as-Adds, push_wait_as-Adds, pop_as-Adds, pop_wait_as-Adds,
}

remove_pop-Adds :
    (w : ℕ → ℕ) (id : ℕ) (ps : List ℕ)
    → let (rest, b) = remove_pop id ps in weigh w rest + if_found w b id ≡ weigh w ps
unfolding remove_pop
remove_pop-Adds w id [] = refl
remove_pop-Adds w id (x ∷ ps) = elim (Bool-cases (x == id)) [
  | inl e ↦ simp e (omega (arith, ap w ((==_iff x id).0 e)))
  | inr e ↦ simp e (omega (arith, remove_pop-Adds w id ps))
]

module _ {A : Type 0} (w : ℕ → ℕ) where
  weigh-pops_told : (d : A) (ps : List ℕ) → weigh_told w (Bounded.pops_told d ps) ≡ weigh w ps
  weigh-pops_told d [] = refl
  weigh-pops_told d (p ∷ ps) = omega (arith, weigh-pops_told d ps)

  weigh-pushes_told :
      (hs : List (PushHandle A))
      → AllPlain hs
      → weigh_told w (Bounded.pushes_told hs) ≡ weigh_pushes w hs
  weigh-pushes_told [] p = refl
  weigh-pushes_told (h ∷ hs) (a, p) =
      omega (arith, weigh-pushes_told hs p, weigh_event-push w h epipe a)

  close_as-Adds :
      (b : Bool) (d : A) (q : Bounded A) → AllPlain q.pushes → Adds w 0 q (Bounded.close_as b d q)
  close_as-Adds true d q p = (p, omega arith)
  close_as-Adds false d q p = (
    tt,
    omega (
      arith,
      weigh_told-append w (q.told ++ Bounded.pops_told d q.pops) (Bounded.pushes_told q.pushes),
      weigh_told-append w q.told (Bounded.pops_told d q.pops),
      weigh-pops_told d q.pops,
      weigh-pushes_told q.pushes p,
    ),
  )

  remove_push-Adds :
      (id : ℕ) (hs : List (PushHandle A))
      → AllPlain hs
      → let (rest, b) = remove_push id hs in
        AllPlain rest × (weigh_pushes w rest + if_found w b id ≡ weigh_pushes w hs)
  unfolding remove_push
  remove_push-Adds id [] p = (tt, refl)
  remove_push-Adds id (h ∷ hs) (a, p) =
      let (p1, same) = remove_push-Adds id hs p in
      elim (Bool-cases (h.id == id)) [
        | inl e ↦ simp e (p, omega (arith, ap w ((==_iff h.id id).0 e)))
        | inr e ↦ simp e ((a, p1), omega (arith, same))
      ]

  -- What an operation adds by its reply, and what it takes out.
  abbrev pub added : Op A → Reply A → ℕ
  added (push_waits id x) (code r) = if_waits w r id
  added (pop_waits id) (item r x) = if_waits w r id
  added o r = 0

  abbrev pub taken : Op A → Reply A → ℕ
  taken (push_cancels id) (found b) = if_found w b id
  taken (pop_cancels id) (found b) = if_found w b id
  taken o r = 0

  pub spec_step-weight :
      (d : A) (o : Op A) (q : Bounded A)
      → AllPlain q.pushes
      → let (r, q1) = spec_step d o q in
        AllPlain q1.pushes × (weight w q1 + taken o r ≡ weight w q + added o r)
  unfolding spec_step Bounded.push Bounded.push_wait Bounded.pop Bounded.pop_wait Bounded.close
      Bounded.unpush Bounded.unpop
  spec_step-weight d (pushes x) q p =
      let (p1, same) = push_as-Adds w q.shut x q p in (p1, omega (arith, same))
  spec_step-weight d (push_waits id x) q p =
      let (p1, same) =
        push_wait_as-Adds w q.shut (record { id = id; item = x; fake = false }) q refl p in
      (p1, omega (arith, same))
  spec_step-weight d pops q p =
      let (p1, same) =
        pop_as-Adds w q.shut d (Bounded.take q).0 q (Bounded.take q).1
          (take-Adds w q.pushes q refl p) in
      (p1, omega (arith, same))
  spec_step-weight d (pop_waits id) q p =
      let (p1, same) =
        pop_wait_as-Adds w q.shut d id (Bounded.take q).0 q (Bounded.take q).1
          (take-Adds w q.pushes q refl p) in
      (p1, omega (arith, same))
  spec_step-weight d (push_cancels id) q p =
      let (p1, same) = remove_push-Adds id q.pushes p in (p1, omega (arith, same))
  spec_step-weight d (pop_cancels id) q p = (p, omega (arith, remove_pop-Adds w id q.pops))
  spec_step-weight d closes q p =
      let (p1, same) = close_as-Adds q.shut d q p in (p1, omega (arith, same))
