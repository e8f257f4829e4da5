-- ===== src/Run/Turns.antt =====
-- include/condy/runtime.hpp: the works in the local queue have their turns, in order, and the ring is
-- flushed in between. `trace` reads off the world which works were called and which completions were
-- processed, in order.
use condy.Prelude.{
  ℕ, ◌+◌, ◌^◌, ◌<◌, ◌≤◌, ◌≡◌, refl, sym, ap, ◌∙◌, ◌⊎◌, inl, inr, Bool, true, false, List, [], ◌∷◌,
  ◌++◌, append-nil, append_assoc, map, length, leb, if◌then◌else◌, Outcome, ok, arith,
}
use condy.Prelude.Int.{is_neg}
use condy.Prelude.Words.{add_size}
use native.Mathlib.Nat.{mod-eq_of_lt}
use condy.Run.{
  Works, EventLoop, Did, invoked, is_errno, eagain, local_queue, set_local_queue, set_uring, Uring,
  reap_each, reap, reap_completions, flush_ring, take_work, round, rounds,
}

-- The local queue is as it was, with more behind.
abbrev pub Grows : {R W : Type 0} → List ℕ → Works R W → Type 0
Grows q w = (news : List ℕ) × (local_queue w ≡ q ++ news)

-- What works and completions keep to, in states that are `Good`, and `Fine` while some completions
-- are still to be processed: they schedule behind what is queued and are traced, no completion is
-- at fault, and a ring with nothing to reap says so.
pub record IsCalm {R W C : Type 0} (uring : Uring R C)
    (process_cqe : C → Works R W → Outcome (Works R W)) (invoke : ℕ → Works R W → Works R W)
    (trace : W → List (ℕ ⊎ C)) (Good : Works R W → Type 0) (Fine : List C → Works R W → Type 0)
    : Type 0 where
  pub begins : (w : Works R W) → Good w → Fine (uring.for_each_cqe w.ring.ring) w
  pub processes :
      (c : C) (cs : List C) (w : Works R W)
      → Fine (c ∷ cs) w
      → (w' : Works R W) × (process_cqe c w ≡ ok w')
        × Grows (local_queue w) w'
        × (trace w'.world ≡ trace w.world ++ inr c ∷ [])
        × Fine cs w'
  pub ends :
      (n : ℕ) (w : Works R W) → Fine [] w → Good (set_uring (uring.cq_advance n w.ring.ring) w)
  pub invokes :
      (a : ℕ) (q : List ℕ) (w : Works R W)
      → Good w
      → Grows q (invoke a (set_local_queue q w))
        × (trace (invoke a (set_local_queue q w)).world ≡ trace w.world ++ inl a ∷ [])
        × Good (invoke a (set_local_queue q w))
  pub peeks :
      (r : R)
      → (is_errno eagain (uring.peek_cqe r) ≡ true)
        ⊎ (is_errno eagain (uring.peek_cqe r) ≡ false) × (is_neg (uring.peek_cqe r) ≡ false)

leb_of_le : (a b : ℕ) → a ≤ b → leb a b ≡ true
leb_of_le a b h = ground arith

leb_of_lt : (a b : ℕ) → b < a → leb a b ≡ false
leb_of_lt a b h = ground arith

tick : (limit t : ℕ) → limit < 2 ^ 64 → t < limit → add_size t 1 ≡ t + 1
tick limit t small h = mod-eq_of_lt (omega arith)

extended :
    {R W : Type 0} (q : List ℕ) (w w' : Works R W)
    → Grows q w
    → Grows (local_queue w) w'
    → Grows q w'
extended q w w' (news, e) (more, e') =
    (news ++ more, e' ∙ ap (λ (x : List ℕ). x ++ more) e ∙ append_assoc q news more)

-- The works that were called, of a trace.
abbrev pub calls : {C : Type 0} → List (ℕ ⊎ C) → List ℕ
calls [] = []
calls (inl a ∷ es) = a ∷ calls es
calls (inr c ∷ es) = calls es

module _ {C : Type 0} where
  calls-append : (xs ys : List (ℕ ⊎ C)) → calls (xs ++ ys) ≡ calls xs ++ calls ys
  calls-append [] ys = refl
  calls-append (inl a ∷ xs) ys = ap (a ∷◌) (calls-append xs ys)
  calls-append (inr c ∷ xs) ys = calls-append xs ys

  -- The completions alone, as a trace.
  abbrev pub processed : List C → List (ℕ ⊎ C)
  processed [] = []
  processed (c ∷ cs) = inr c ∷ processed cs

  calls-processed : (cs : List C) → calls (processed cs) ≡ []
  calls-processed [] = refl
  calls-processed (c ∷ cs) = calls-processed cs

-- The works alone, as a trace.
abbrev pub called : {C : Type 0} → List ℕ → List (ℕ ⊎ C)
called [] = []
called (a ∷ ws) = inl a ∷ called ws

module _ {R W C : Type 0} (uring : Uring R C) (process_cqe : C → Works R W → Outcome (Works R W))
    (invoke : ℕ → Works R W → Works R W) (trace : W → List (ℕ ⊎ C)) (Good : Works R W → Type 0)
    (Fine : List C → Works R W → Type 0)
    (calm : IsCalm uring process_cqe invoke trace Good Fine) where
  reap_each-Grows :
      (cs : List C) (w : Works R W)
      → Fine cs w
      → (n : ℕ) × (w' : Works R W) × (reap_each uring process_cqe cs w ≡ ok (n, w'))
        × Grows (local_queue w) w'
        × (trace w'.world ≡ trace w.world ++ processed cs)
        × Fine [] w'
  unfolding reap_each
  reap_each-Grows [] w f =
      (0, w, refl, ([], sym (append-nil (local_queue w))), sym (append-nil (trace w.world)), f)
  reap_each-Grows (c ∷ cs) w f =
      let (w1, e1, g1, t1, f1) = calm.processes c cs w f in
      let (n, w2, e2, g2, t2, f2) = reap_each-Grows cs w1 f1 in
      (
        uring.cqe_nr c + n,
        w2,
        simp (e1, e2),
        extended (local_queue w) w1 w2 g1 g2,
        t2
            ∙ ap (λ (x : List (ℕ ⊎ C)). x ++ processed cs) t1
            ∙ append_assoc (trace w.world) (inr c ∷ []) (processed cs),
        f2,
      )

  -- The completions that a flush has to process.
  abbrev pub reaped_of : Works R W → List C
  reaped_of w =
      if is_errno eagain (uring.peek_cqe w.ring.ring) then [] else uring.for_each_cqe w.ring.ring

  flush_ring-Grows :
      (w : Works R W)
      → Good w
      → (w' : Works R W) × (flush_ring uring process_cqe w ≡ ok w')
        × Grows (local_queue w) w'
        × (trace w'.world ≡ trace w.world ++ processed (reaped_of w))
        × Good w'
  unfolding flush_ring reap_completions reap
  flush_ring-Grows w good = elim (calm.peeks w.ring.ring) [
    | inl again ↦ (
      w,
      simp again,
      ([], sym (append-nil (local_queue w))),
      simp again (sym (append-nil (trace w.world))),
      good,
    )
    | inr (got, fine) ↦
        let (n, w1, e1, g1, t1, f1) =
          reap_each-Grows (uring.for_each_cqe w.ring.ring) w (calm.begins w good) in
        (
          set_uring (uring.cq_advance n w1.ring.ring) w1,
          simp (got, fine, e1),
          g1,
          simp got t1,
          calm.ends n w1 f1,
        )
  ]

  module _ (interrupts : ℕ) where
    -- A round with the work `a` to take, before which the ring is flushed or is not.
    abbrev Turns : Bool → ℕ → List ℕ → EventLoop R W → Type 0
    Turns b a q l =
        (l1 : EventLoop R W) × (round uring process_cqe invoke interrupts l
          ≡ ok ((b, invoked a), l1))
        × (l1.event_interval ≡ l.event_interval)
        × (l1.tick_count ≡ (if b then 0 else add_size l.tick_count 1))
        × Grows q l1.works
        × (trace l1.works.world
            ≡ (trace l.works.world ++ (if b then processed (reaped_of l.works) else []))
              ++ inl a ∷ [])
        × Good l1.works

    round-Turns :
        (b : Bool) (l : EventLoop R W) (a : ℕ) (q : List ℕ)
        → leb l.event_interval (add_size l.tick_count 1) ≡ b
        → local_queue l.works ≡ a ∷ q
        → Good l.works
        → Turns b a q l
    unfolding round take_work
    round-Turns true l a q flush here good =
        let (w, e, (news, g), t, good1) = flush_ring-Grows l.works good in
        let ((more, h), t1, good2) = calm.invokes a (q ++ news) w good1 in
        (
          record l { works = invoke a (set_local_queue (q ++ news) w); tick_count = 0 },
          simp (
            flush,
            e,
            ap (λ (x : List ℕ). take_work uring process_cqe invoke interrupts x w)
                (g ∙ ap (λ (x : List ℕ). x ++ news) here),
          ),
          refl,
          refl,
          (news ++ more, h ∙ append_assoc q news more),
          t1 ∙ ap (λ (x : List (ℕ ⊎ C)). x ++ inl a ∷ []) t,
          good2,
        )
    round-Turns false l a q wait here good =
        let (g, t1, good1) = calm.invokes a q l.works good in
        (
          record l {
            works = invoke a (set_local_queue q l.works);
            tick_count = add_size l.tick_count 1;
          },
          simp (
            wait,
            ap (λ (x : List ℕ). take_work uring process_cqe invoke interrupts x l.works) here,
          ),
          refl,
          refl,
          g,
          t1 ∙ ap (λ (x : List (ℕ ⊎ C)). x ++ inl a ∷ []) (sym (append-nil (trace l.works.world))),
          good1,
        )

    more_calls :
        (b : Bool) (past : List (ℕ ⊎ C)) (cs : List C) (a : ℕ)
        → calls ((past ++ (if b then processed cs else [])) ++ inl a ∷ []) ≡ calls past ++ a ∷ []
    more_calls true past cs a =
        calls-append (past ++ processed cs) (inl a ∷ [])
        ∙ ap (λ (x : List ℕ). x ++ a ∷ [])
            (calls-append past (processed cs)
              ∙ ap (λ (x : List ℕ). calls past ++ x) (calls-processed cs)
              ∙ append-nil (calls past))
    more_calls false past cs a =
        calls-append (past ++ []) (inl a ∷ [])
        ∙ ap (λ (x : List (ℕ ⊎ C)). calls x ++ a ∷ []) (append-nil past)

    -- When works and completions only schedule behind what is queued and none is at fault, the loop takes
    -- the works `ws` at the front of the local queue in as many rounds, without waiting or leaving in
    -- between: it calls each of them once, in their order, and no other work of the queue, whatever
    -- completions it processes in between; then what stood behind them is at the front.
    pub rounds-called :
        (ws rest : List ℕ) (l : EventLoop R W)
        → local_queue l.works ≡ ws ++ rest
        → Good l.works
        → (dids : List (Bool × Did)) × (l' : EventLoop R W) × (rounds uring process_cqe invoke
              interrupts
              (length ws)
              l
            ≡ ok (dids, l'))
          × (map (λ d. d.1) dids ≡ map invoked ws)
          × (calls (trace l'.works.world) ≡ calls (trace l.works.world) ++ ws)
          × Grows rest l'.works
    unfolding rounds
    rounds-called [] rest l here good = (
      [],
      l,
      refl,
      refl,
      sym (append-nil (calls (trace l.works.world))),
      ([], here ∙ sym (append-nil rest)),
    )
    rounds-called (a ∷ ws) rest l here good =
        let b = leb l.event_interval (add_size l.tick_count 1) in
        let (l1, e, _, _, (news, g), t, good1) = round-Turns b l a (ws ++ rest) refl here good in
        let (dids, l2, e2, did, t2, (more, g2)) =
          rounds-called ws (rest ++ news) l1 (g ∙ append_assoc ws rest news) good1 in
        (
          (b, invoked a) ∷ dids,
          l2,
          simp (e, e2),
          ap (invoked a ∷◌) did,
          t2
              ∙ ap (λ (x : List ℕ). x ++ ws)
                  (ap calls t ∙ more_calls b (trace l.works.world) (reaped_of l.works) a)
              ∙ append_assoc (calls (trace l.works.world)) (a ∷ []) ws,
          (news ++ more, g2 ∙ append_assoc rest news more),
        )

    -- Rounds before the event interval is reached.
    rounds-before :
        (ws rest : List ℕ) (l : EventLoop R W)
        → local_queue l.works ≡ ws ++ rest
        → Good l.works
        → l.tick_count + length ws < l.event_interval
        → l.event_interval < 2 ^ 64
        → (dids : List (Bool × Did)) × (l1 : EventLoop R W) × (rounds uring process_cqe invoke
              interrupts
              (length ws)
              l
            ≡ ok (dids, l1))
          × (trace l1.works.world ≡ trace l.works.world ++ called ws)
          × (l1.tick_count ≡ l.tick_count + length ws)
          × (l1.event_interval ≡ l.event_interval)
          × Grows rest l1.works
          × Good l1.works
    unfolding rounds
    rounds-before [] rest l here good early small = (
      [],
      l,
      refl,
      sym (append-nil (trace l.works.world)),
      omega arith,
      refl,
      ([], here ∙ sym (append-nil rest)),
      good,
    )
    rounds-before (a ∷ ws) rest l here good early small =
        let exact = tick l.event_interval l.tick_count small (omega arith) in
        let (l1, e, same, ticked, (news, g), t, good1) =
          round-Turns false l a (ws ++ rest)
            (leb_of_lt l.event_interval (add_size l.tick_count 1) (omega (arith, exact))) here
            good in
        let (dids, l2, e2, t2, ticks, same2, (more, g2), good2) =
          rounds-before ws (rest ++ news) l1 (g ∙ append_assoc ws rest news) good1
            (omega (arith, ticked, exact, same)) (omega (arith, same)) in
        (
          (false, invoked a) ∷ dids,
          l2,
          simp (e, e2),
          t2
              ∙ ap (λ (x : List (ℕ ⊎ C)). x ++ called ws)
                  (t
                    ∙ ap (λ (x : List (ℕ ⊎ C)). x ++ inl a ∷ []) (append-nil (trace l.works.world)))
              ∙ append_assoc (trace l.works.world) (inl a ∷ []) (called ws),
          omega (arith, ticks, ticked, exact),
          same2 ∙ same,
          (news ++ more, g2 ∙ append_assoc rest news more),
          good2,
        )

    -- With works enough in the queue, and an event interval below `2 ^ 64`: in the rounds before the
    -- ticks reach the interval the loop calls a work each and processes no completion; in the round
    -- in which they reach it, it first processes all completions that the ring has, in order, and
    -- then calls the next work. So a queue that is never empty does not keep the loop from its completions.
    -- Works and completions are as in `rounds-called`.
    pub rounds-flushed :
        (ws : List ℕ) (a : ℕ) (rest : List ℕ) (l : EventLoop R W)
        → local_queue l.works ≡ ws ++ a ∷ rest
        → Good l.works
        → l.tick_count + length ws + 1 ≡ l.event_interval
        → l.event_interval < 2 ^ 64
        → (dids : List (Bool × Did)) × (l1 l2 : EventLoop R W) × (rounds uring process_cqe invoke
              interrupts
              (length ws)
              l
            ≡ ok (dids, l1))
          × (trace l1.works.world ≡ trace l.works.world ++ called ws)
          × (round uring process_cqe invoke interrupts l1 ≡ ok ((true, invoked a), l2))
          × (trace l2.works.world
              ≡ (trace l1.works.world ++ processed (reaped_of l1.works)) ++ inl a ∷ [])
          × (l2.tick_count ≡ 0)
    rounds-flushed ws a rest l here good full small =
        let (dids, l1, e, t, ticks, same, (news, g), good1) =
          rounds-before ws (a ∷ rest) l here good (omega arith) small in
        let exact = tick l.event_interval (l.tick_count + length ws) small (omega arith) in
        let reached : add_size l1.tick_count 1 ≡ l.event_interval =
          ap (λ (x : ℕ). add_size x 1) ticks ∙ omega (arith, exact) in
        let (l2, e2, _, ticked, _, t2, _) =
          round-Turns true l1 a (rest ++ news)
            (leb_of_le l1.event_interval (add_size l1.tick_count 1) (omega (arith, reached, same)))
            g good1 in
        (dids, l1, l2, e, t, e2, t2, ticked)
