-- ===== src/Parallel/Deliver.antt =====
-- include/condy/detail/op_states.hpp: the one call of the receiver, in each order of completion.
use condy.Prelude.{
  ℕ, suc, ◌+◌, ◌-◌, ◌<◌, ◌≡◌, refl, ap, ◌∙◌, Bool, true, false, List, [], ◌∷◌, ◌++◌, if◌then◌else◌,
  length, replicate, has, length-append, length-replicate, append-nil, append_assoc, Outcome, ok,
  arith,
}
use mathlib.Core.Path.{subst}
use condy.Parallel.{Canceller, when_any, when_all, Parallel, connect, reset, any_result, deliver}
use condy.Parallel.Complete.{
  indices, receive_each, IsHistory, Holds, Waiting, noted, noted-Waiting, receive_with-waits,
  receive_with-delivers,
}

module _ {A : Type 0} where
  -- The receiver got the order of completion and each result in its slot, in one call.
  abbrev pub Delivers : A → ℕ → List (ℕ × A) → Outcome (Parallel A) → Type 0
  Delivers d n cs m =
      (p : Parallel A) × (results : List A) × (m ≡ ok p)
      × (p.delivered ≡ (indices cs, results) ∷ [])
      × (length results ≡ n)
      × Holds d results cs

  delivered-one :
      (b : Bool) (c : Canceller) (q : Parallel A)
      → q.delivered ≡ []
      → (deliver (if b then reset c q else q)).delivered ≡ (q.order, q.results) ∷ []
  unfolding reset
  delivered-one true when_any q h =
      ap (λ (l : List (List ℕ × List A)). l ++ (q.order, q.results) ∷ []) h
  delivered-one true when_all q h =
      ap (λ (l : List (List ℕ × List A)). l ++ (q.order, q.results) ∷ []) h
  delivered-one false c q h = ap (λ (l : List (List ℕ × List A)). l ++ (q.order, q.results) ∷ []) h

  last-Delivers :
      (d : A) (n : ℕ) (b : Bool) (c : Canceller) (past : List (ℕ × A)) (i : ℕ) (r : A)
      (p : Parallel A)
      → Waiting d n past p
      → i < n
      → has i (indices past) ≡ false
      → suc (length past) ≡ n
      → Delivers d n (past ++ (i, r) ∷ []) (receive_each b c ((i, r) ∷ []) p)
  unfolding receive_each
  last-Delivers d n b c past i r p w small new all =
      let q = noted c i r p in
      let w' = noted-Waiting d n past c i r p w (omega arith) small new in
      (
        deliver (if b then reset c q else q),
        q.results,
        simp (receive_with-delivers d n b c past i r p w small all),
        delivered-one b c q w'.quiet
            ∙ ap (λ (o : List ℕ). (o, q.results) ∷ [])
                (w'.order
                  ∙ ap (λ (t : ℕ). indices (past ++ (i, r) ∷ []) ++ replicate t 0) none_left
                  ∙ append-nil (indices (past ++ (i, r) ∷ []))),
        w'.room,
        w'.held,
      )
    where
      none_left : n - length (past ++ (i, r) ∷ []) ≡ 0
      none_left = omega (arith, length-append past ((i, r) ∷ []))

  each-Delivers :
      (d : A) (n : ℕ) (b : Bool) (c : Canceller) (past : List (ℕ × A)) (x : ℕ × A)
      (cs : List (ℕ × A)) (p : Parallel A)
      → Waiting d n past p
      → IsHistory n past (x ∷ cs)
      → length past + length (x ∷ cs) ≡ n
      → Delivers d n (past ++ x ∷ cs) (receive_each b c (x ∷ cs) p)
  unfolding receive_each
  each-Delivers d n b c past (i, r) [] p w (small, new, h) all =
      last-Delivers d n b c past i r p w small new (omega arith)
  each-Delivers d n b c past (i, r) (y ∷ cs) p w (small, new, h) all =
      let w' = noted-Waiting d n past c i r p w (omega arith) small new in
      let (p', results, eq, sent, room, held) =
        each-Delivers d n b c (past ++ (i, r) ∷ []) y cs (noted c i r p) w' h
          (omega (arith, length-append past ((i, r) ∷ []))) in
      subst (λ (l : List (ℕ × A)). Delivers d n l (receive_each b c ((i, r) ∷ y ∷ cs) p))
        (append_assoc past ((i, r) ∷ []) (y ∷ cs))
        (
          p',
          results,
          simp (receive_with-waits d n b c past i r p w small (omega arith)) eq,
          sent,
          room,
          held,
        )

  connect-Waiting :
      (d : A) (c : Canceller) (possible : Bool) (n : ℕ) → Waiting d n [] (connect d c possible n)
  unfolding connect
  connect-Waiting d c possible n = record {
    size = refl;
    count = refl;
    order = ap (λ (t : ℕ). replicate t 0) (omega arith);
    room = length-replicate n d;
    held = tt;
    quiet = refl;
  }

  -- Whichever of the two `receive_` functions and of the two cancellers is used: when all of one or
  -- more connected operations complete, each once and in any order, no slot is missing, and the
  -- receiver is called exactly once, with the operations in the order of their completion and with
  -- each result in the slot of its operation.
  pub receive_each-connect :
      (d : A) (b : Bool) (c : Canceller) (possible : Bool) (x : ℕ × A) (cs : List (ℕ × A))
      → IsHistory (length (x ∷ cs)) [] (x ∷ cs)
      → Delivers d
          (length (x ∷ cs))
          (x ∷ cs)
          (receive_each b c (x ∷ cs) (connect d c possible (length (x ∷ cs))))
  receive_each-connect d b c possible x cs h =
      each-Delivers d (length (x ∷ cs)) b c [] x cs (connect d c possible (length (x ∷ cs)))
        (connect-Waiting d c possible (length (x ∷ cs))) h (omega arith)

  each-Waiting :
      (d : A) (n : ℕ) (b : Bool) (c : Canceller) (past cs : List (ℕ × A)) (p : Parallel A)
      → Waiting d n past p
      → IsHistory n past cs
      → length past + length cs < n
      → (p' : Parallel A) × (receive_each b c cs p ≡ ok p') × (p'.delivered ≡ [])
  unfolding receive_each
  each-Waiting d n b c past [] p w h some_left = (p, refl, w.quiet)
  each-Waiting d n b c past ((i, r) ∷ cs) p w (small, new, h) some_left =
      let w' = noted-Waiting d n past c i r p w (omega arith) small new in
      let (p', eq, out) =
        each-Waiting d n b c (past ++ (i, r) ∷ []) cs (noted c i r p) w' h
          (omega (arith, length-append past ((i, r) ∷ []))) in
      (p', simp (receive_with-waits d n b c past i r p w small (omega arith)) eq, out)

  -- While one of `n` connected operations has not completed and none has completed twice, the receiver has not been called.
  receive_each-early :
      (d : A) (n : ℕ) (b : Bool) (c : Canceller) (possible : Bool) (cs : List (ℕ × A))
      → IsHistory n [] cs
      → length cs < n
      → (p : Parallel A) × (receive_each b c cs (connect d c possible n) ≡ ok p)
        × (p.delivered ≡ [])
  receive_each-early d n b c possible cs h some_left =
      each-Waiting d n b c [] cs (connect d c possible n) (connect-Waiting d c possible n) h
        (omega arith)

  -- When all of one or more connected operations complete, each once, `when_any` hands on the index and the result of the operation that completed first.
  pub any_result-first :
      (d : A) (b : Bool) (c : Canceller) (possible : Bool) (i : ℕ) (r : A) (cs : List (ℕ × A))
      → IsHistory (length ((i, r) ∷ cs)) [] ((i, r) ∷ cs)
      → (p : Parallel A) × (out : List ℕ × List A) × (receive_each b c
            ((i, r) ∷ cs)
            (connect d c possible (length ((i, r) ∷ cs)))
          ≡ ok p)
        × (p.delivered ≡ out ∷ [])
        × (any_result d out ≡ (i, r))
  unfolding any_result
  any_result-first d b c possible i r cs h =
      let (p, results, eq, out, room, (first, held)) =
        receive_each-connect d b c possible (i, r) cs h in
      (p, (i ∷ indices cs, results), eq, out, simp first)
