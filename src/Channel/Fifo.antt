-- ===== src/Channel/Fifo.antt =====
-- First in, first out: what the bounded queue, and so a channel, does to the order of items.
use condy.Prelude.{
  ℕ, ◌≡◌, refl, sym, ap, ◌∙◌, Bool, true, false, Option, none, some, List, [], ◌∷◌, ◌++◌,
  append-nil, append_assoc, ◌==◌, if◌then◌else◌, length, length-append, inl, inr, arith, Bool-cases,
}
use condy.Codes.{success, eagain}
use condy.Channel.{PushHandle, Event, push_done, pop_done, push_freed}
use condy.Channel.Bounded
use condy.Channel.Bounded.{Bounded, IsValid}
use condy.Channel.Run.{
  Op, pushes, push_waits, pops, pop_waits, push_cancels, pop_cancels, closes, Reply, code, item,
  found, done, spec_step,
}

module _ {A : Type 0} where
  abbrev pub waiting : List (PushHandle A) → List A
  waiting [] = []
  waiting (h ∷ hs) = h.item ∷ waiting hs

  -- Every item that is under way, oldest first: those in the queue, then those of waiting pushes.
  abbrev pub line : Bounded A → List A
  line q = q.items ++ waiting q.pushes

  -- The items that pops were woken with.
  abbrev pub handed : List (Event A) → List A
  handed [] = []
  handed (pop_done p success x ∷ es) = x ∷ handed es
  handed (pop_done p r x ∷ es) = handed es
  handed (push_done p r ∷ es) = handed es
  handed (push_freed p ∷ es) = handed es

  offer-line :
      (ps : List ℕ) (x : A) (q : Bounded A)
      → IsValid q
      → q.told ≡ []
      → q.pops ≡ ps
      → let (taken, q1) = Bounded.offer_with ps x q in
        handed q1.told ++ line q1 ≡ line q ++ (if taken then x ∷ [] else [])
  offer-line [] x q v t e = elim (Bool-cases (length q.items == q.bound)) [
    | inl full ↦ rw (full, t) (sym (append-nil _))
    | inr room ↦
        let idle : q.pushes ≡ [] = ground (arith, v.full_if_push) in
        simp (room, t, idle, append-nil)
  ]
  offer-line (p ∷ ps) x q v t e =
      let (bare, idle) : (q.items ≡ []) × (q.pushes ≡ []) = ground (arith, v.empty_if_pop) in
      simp (t, bare, idle)

  abbrev given : Option A → List A
  given none = []
  given (some x) = x ∷ []

  uncons-line :
      (xs : List A) (s : Bounded A)
      → ((xs ≡ []) → s.items ≡ [])
      → let (got, s1) = Bounded.uncons xs s in given got ++ line s1 ≡ xs ++ waiting s.pushes
  uncons-line [] s h = simp (h refl)
  uncons-line (x ∷ xs) s h = refl

  handed-uncons :
      (xs : List A) (s : Bounded A) → handed (Bounded.uncons xs s).1.told ≡ handed s.told
  handed-uncons [] s = refl
  handed-uncons (x ∷ xs) s = refl

  handed-push :
      (h : PushHandle A) (b : Bool) → h.fake ≡ b → handed (Bounded.push_event h success ∷ []) ≡ []
  handed-push h true e = simp e
  handed-push h false e = simp e

  no_items : (q : Bounded A) (x : A) → q.items ++ x ∷ [] ≡ [] → q.items ≡ []
  no_items q x e = absurd (omega (arith, ap length e, length-append q.items (x ∷ [])))

  take-line :
      (hs : List (PushHandle A)) (q : Bounded A)
      → q.told ≡ []
      → q.pushes ≡ hs
      → let (got, q1) = Bounded.take_with hs q in
        (given got ++ line q1 ≡ line q) × (handed q1.told ≡ [])
  take-line [] q t e = (uncons-line q.items q (λ i. i), handed-uncons q.items q ∙ ap handed t)
  take-line (h ∷ hs) q t e = (
    uncons-line (q.items ++ h.item ∷ []) _ (no_items q h.item)
        ∙ append_assoc q.items (h.item ∷ []) (waiting hs)
        ∙ ap (λ (l : List (PushHandle A)). q.items ++ waiting l) (sym e),
    handed-uncons (q.items ++ h.item ∷ []) _
        ∙ ap (λ (l : List (Event A)). handed (l ++ Bounded.push_event h success ∷ [])) t
        ∙ handed-push h h.fake refl,
  )

  -- The item that a reply carries out, and the item that an operation brings in by its reply: one
  -- that was taken, or whose push waits.
  abbrev pub returned : Reply A → List A
  returned (item success x) = x ∷ []
  returned (item _ x) = []
  returned (code r) = []
  returned (found b) = []
  returned done = []

  abbrev pub entered : Op A → Reply A → List A
  entered (pushes x) (code success) = x ∷ []
  entered (push_waits id x) (code success) = x ∷ []
  entered (push_waits id x) (code eagain) = x ∷ []
  entered _ _ = []

  -- No cancellation and no closing, which drop the items of waiting pushes.
  abbrev pub IsTransfer : Op A → Type 0
  IsTransfer (push_cancels id) = ⊥
  IsTransfer (pop_cancels id) = ⊥
  IsTransfer closes = ⊥
  IsTransfer _ = Unit

  entered-push :
      (x : A) (b : Bool)
      → (if b then x ∷ [] else []) ≡ entered (pushes x) (code (if b then success else eagain))
  entered-push x true = refl
  entered-push x false = refl

  push_as-line :
      (b : Bool) (x : A) (q : Bounded A)
      → IsValid q
      → q.told ≡ []
      → let (r, q1) = Bounded.push_as b x q in
        handed q1.told ++ line q1 ≡ line q ++ entered (pushes x) (code r)
  push_as-line true x q v t = simp (t, append-nil)
  push_as-line false x q v t =
      offer-line q.pops x q v t refl
      ∙ ap (λ (l : List A). line q ++ l) (entered-push x (Bounded.offer x q).0)

  waiting-append :
      (hs : List (PushHandle A)) (h : PushHandle A)
      → waiting (hs ++ h ∷ []) ≡ waiting hs ++ h.item ∷ []
  waiting-append [] h = refl
  waiting-append (x ∷ hs) h = ap (◌∷◌ x.item) (waiting-append hs h)

  wait_as-line :
      (b : Bool) (id : ℕ) (h : PushHandle A) (q : Bounded A)
      → IsValid q
      → q.told ≡ []
      → (Bounded.offer h.item q).0 ≡ b
      → let (r, q1) = Bounded.wait_as b h (Bounded.offer h.item q).1 in
        handed q1.told ++ line q1 ≡ line q ++ entered (push_waits id h.item) (code r)
  wait_as-line true id h q v t e =
      offer-line q.pops h.item q v t refl
      ∙ ap (λ (b : Bool). line q ++ (if b then h.item ∷ [] else [])) e
  wait_as-line false id h q v t e =
      let q1 : Bounded A = (Bounded.offer h.item q).1 in
      ap (λ (l : List A). handed q1.told ++ (q1.items ++ l)) (waiting-append q1.pushes h)
      ∙ ap (◌++◌ (handed q1.told)) (sym (append_assoc q1.items (waiting q1.pushes) (h.item ∷ [])))
      ∙ sym (append_assoc (handed q1.told) (line q1) (h.item ∷ []))
      ∙ ap (λ (l : List A). l ++ h.item ∷ [])
          (offer-line q.pops h.item q v t refl
            ∙ ap (λ (b : Bool). line q ++ (if b then h.item ∷ [] else [])) e
            ∙ append-nil (line q))

  push_wait_as-line :
      (b : Bool) (id : ℕ) (h : PushHandle A) (q : Bounded A)
      → IsValid q
      → q.told ≡ []
      → let (r, q1) = Bounded.push_wait_as b h q in
        handed q1.told ++ line q1 ≡ line q ++ entered (push_waits id h.item) (code r)
  push_wait_as-line true id h q v t = simp (t, append-nil)
  push_wait_as-line false id h q v t = wait_as-line (Bounded.offer h.item q).0 id h q v t refl

  pop_as-line :
      (b : Bool) (d : A) (got : Option A) (q : Bounded A)
      → let (r, q1) = Bounded.pop_as b d got q in
        (returned (item r.0 r.1) ≡ given got) × (q1.told ≡ q.told) × (line q1 ≡ line q)
  pop_as-line true d none q = (refl, refl, refl)
  pop_as-line true d (some x) q = (refl, refl, refl)
  pop_as-line false d none q = (refl, refl, refl)
  pop_as-line false d (some x) q = (refl, refl, refl)

  pop_wait_as-line :
      (b : Bool) (d : A) (id : ℕ) (got : Option A) (q : Bounded A)
      → let (r, q1) = Bounded.pop_wait_as b d id got q in
        (returned (item r.0 r.1) ≡ given got) × (q1.told ≡ q.told) × (line q1 ≡ line q)
  pop_wait_as-line true d id none q = (refl, refl, refl)
  pop_wait_as-line true d id (some x) q = (refl, refl, refl)
  pop_wait_as-line false d id none q = (refl, refl, refl)
  pop_wait_as-line false d id (some x) q = (refl, refl, refl)

  -- One call: what leaves, and what is then under way, is what was under way, and what entered.
  pub step-line :
      (d : A) (o : Op A) (q : Bounded A)
      → IsTransfer o
      → IsValid q
      → q.told ≡ []
      → let (r, q1) = spec_step d o q in
        (returned r ++ handed q1.told) ++ line q1 ≡ line q ++ entered o r
  unfolding spec_step Bounded.push Bounded.push_wait Bounded.pop Bounded.pop_wait
  step-line d (pushes x) q p v t = push_as-line q.shut x q v t
  step-line d (push_waits id x) q p v t =
      push_wait_as-line q.shut id (record { id = id; item = x; fake = false }) q v t
  step-line d pops q p v t =
      let (a, b) = take-line q.pushes q t refl in
      let (c, e, f) = pop_as-line q.shut d (Bounded.take q).0 (Bounded.take q).1 in
      simp (c, e, b, f, append-nil) a
  step-line d (pop_waits id) q p v t =
      let (a, b) = take-line q.pushes q t refl in
      let (c, e, f) = pop_wait_as-line q.shut d id (Bounded.take q).0 (Bounded.take q).1 in
      simp (c, e, b, f, append-nil) a
  step-line d (push_cancels id) q p v t = absurd p
  step-line d (pop_cancels id) q p v t = absurd p
  step-line d closes q p v t = absurd p
