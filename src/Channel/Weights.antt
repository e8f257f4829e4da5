-- ===== src/Channel/Weights.antt =====
-- Where the handles of a bounded queue are: among those that wait, or told of their end. Each handle has a
-- weight, so that one equation says how many there are, and how often each of them is there.
pub mod Steps
use condy.Prelude.{
  ℕ, ◌+◌, ◌≡◌, refl, ap, Bool, true, false, Option, none, some, List, [], ◌∷◌, ◌++◌, ◌==◌,
  if◌then◌else◌, Bool-cases, inl, inr, length, arith,
}
use condy.Codes.{Code, success, eagain}
use condy.Channel.{PushHandle, Event, push_done, pop_done, push_freed}
use condy.Channel.Bounded
use condy.Channel.Bounded.{Bounded}
use condy.Channel.Run.{pushes, pops, item}

abbrev pub weigh : (ℕ → ℕ) → List ℕ → ℕ
weigh w [] = 0
weigh w (x ∷ xs) = w x + weigh w xs

pub weigh-append : (w : ℕ → ℕ) (xs ys : List ℕ) → weigh w (xs ++ ys) ≡ weigh w xs + weigh w ys
weigh-append w [] ys = omega arith
weigh-append w (x ∷ xs) ys = omega (arith, weigh-append w xs ys)

-- The weight of a handle that has to wait, and of one that is taken out.
abbrev pub if_waits : (ℕ → ℕ) → Code → ℕ → ℕ
if_waits w eagain id = w id
if_waits w r id = 0

abbrev pub if_found : (ℕ → ℕ) → Bool → ℕ → ℕ
if_found w b id = if b then w id else 0

module _ {A : Type 0} where
  -- No handle of a `force_push`.
  abbrev pub AllPlain : List (PushHandle A) → Type 0
  AllPlain [] = Unit
  AllPlain (h ∷ hs) = (h.fake ≡ false) × AllPlain hs

  module _ (w : ℕ → ℕ) where
    abbrev pub weigh_pushes : List (PushHandle A) → ℕ
    weigh_pushes [] = 0
    weigh_pushes (h ∷ hs) = w h.id + weigh_pushes hs

    abbrev pub weigh_event : Event A → ℕ
    weigh_event (push_done id r) = w id
    weigh_event (pop_done id r x) = w id
    weigh_event (push_freed id) = 0

    abbrev pub weigh_told : List (Event A) → ℕ
    weigh_told [] = 0
    weigh_told (e ∷ es) = weigh_event e + weigh_told es

    abbrev pub weight : Bounded A → ℕ
    weight q = weigh_pushes q.pushes + weigh w q.pops + weigh_told q.told

    weigh_pushes-append :
        (xs ys : List (PushHandle A)) → weigh_pushes (xs ++ ys) ≡ weigh_pushes xs + weigh_pushes ys
    weigh_pushes-append [] ys = omega arith
    weigh_pushes-append (x ∷ xs) ys = omega (arith, weigh_pushes-append xs ys)

    pub weigh_told-append :
        (xs ys : List (Event A)) → weigh_told (xs ++ ys) ≡ weigh_told xs + weigh_told ys
    weigh_told-append [] ys = omega arith
    weigh_told-append (x ∷ xs) ys = omega (arith, weigh_told-append xs ys)

    AllPlain-append :
        (xs : List (PushHandle A)) (h : PushHandle A)
        → AllPlain xs
        → h.fake ≡ false
        → AllPlain (xs ++ h ∷ [])
    AllPlain-append [] h p e = (e, tt)
    AllPlain-append (x ∷ xs) h (a, p) e = (a, AllPlain-append xs h p e)

    weigh_event-push :
        (h : PushHandle A) (r : Code)
        → h.fake ≡ false
        → weigh_event (Bounded.push_event h r) ≡ w h.id
    weigh_event-push h r e = simp e

    -- An operation keeps the handles plain, and adds this weight.
    abbrev pub Adds : ℕ → Bounded A → Bounded A → Type 0
    Adds n q q1 = AllPlain q1.pushes × (weight q1 ≡ weight q + n)

    offer-Adds :
        (ps : List ℕ) (x : A) (q : Bounded A)
        → q.pops ≡ ps
        → AllPlain q.pushes
        → Adds 0 q (Bounded.offer_with ps x q).1
    offer-Adds [] x q e p = elim (Bool-cases (length q.items == q.bound)) [
      | inl full ↦ simp full (p, omega arith)
      | inr room ↦ simp room (p, omega arith)
    ]
    offer-Adds (k ∷ ks) x q e p =
        (p, omega (arith, ap (weigh w) e, weigh_told-append q.told (pop_done k success x ∷ [])))

    uncons-Adds :
        (xs : List A) (q : Bounded A) → AllPlain q.pushes → Adds 0 q (Bounded.uncons xs q).1
    uncons-Adds [] q p = (p, omega arith)
    uncons-Adds (x ∷ xs) q p = (p, omega arith)

    take-Adds :
        (hs : List (PushHandle A)) (q : Bounded A)
        → q.pushes ≡ hs
        → AllPlain hs
        → Adds 0 q (Bounded.take_with hs q).1
    take-Adds [] q e p = uncons-Adds q.items q (simp e tt)
    take-Adds (h ∷ hs) q e (a, p) =
        let q1 : Bounded A =
          Bounded.tell (Bounded.push_event h success) (record q { pushes = hs }) in
        let (p1, same) = uncons-Adds (q.items ++ h.item ∷ []) q1 p in
        (
          p1,
          omega (
            arith,
            same,
            ap weigh_pushes e,
            weigh_told-append q.told (Bounded.push_event h success ∷ []),
            weigh_event-push h success a,
          ),
        )

    push_as-Adds :
        (b : Bool) (x : A) (q : Bounded A) → AllPlain q.pushes → Adds 0 q (Bounded.push_as b x q).1
    push_as-Adds true x q p = (p, omega arith)
    push_as-Adds false x q p = offer-Adds q.pops x q refl p

    wait_as-Adds :
        (b : Bool) (h : PushHandle A) (q q1 : Bounded A)
        → h.fake ≡ false
        → Adds 0 q q1
        → let (r, q2) = Bounded.wait_as b h q1 in Adds (if_waits w r h.id) q q2
    wait_as-Adds true h q q1 e a = a
    wait_as-Adds false h q q1 e (p, same) = (
      AllPlain-append q1.pushes h p e,
      omega (arith, same, weigh_pushes-append q1.pushes (h ∷ [])),
    )

    push_wait_as-Adds :
        (b : Bool) (h : PushHandle A) (q : Bounded A)
        → h.fake ≡ false
        → AllPlain q.pushes
        → let (r, q1) = Bounded.push_wait_as b h q in Adds (if_waits w r h.id) q q1
    push_wait_as-Adds true h q e p = (p, omega arith)
    push_wait_as-Adds false h q e p =
        wait_as-Adds (Bounded.offer h.item q).0 h q (Bounded.offer h.item q).1 e
          (offer-Adds q.pops h.item q refl p)

    pop_as-Adds :
        (b : Bool) (d : A) (got : Option A) (q q1 : Bounded A)
        → Adds 0 q q1
        → Adds 0 q (Bounded.pop_as b d got q1).1
    pop_as-Adds b d (some x) q q1 a = a
    pop_as-Adds true d none q q1 a = a
    pop_as-Adds false d none q q1 a = a

    pop_wait_as-Adds :
        (b : Bool) (d : A) (id : ℕ) (got : Option A) (q q1 : Bounded A)
        → Adds 0 q q1
        → let (r, q2) = Bounded.pop_wait_as b d id got q1 in Adds (if_waits w r.0 id) q q2
    pop_wait_as-Adds b d id (some x) q q1 a = a
    pop_wait_as-Adds true d id none q q1 a = a
    pop_wait_as-Adds false d id none q q1 (p, same) =
        (p, omega (arith, same, weigh-append w q1.pops (id ∷ [])))
