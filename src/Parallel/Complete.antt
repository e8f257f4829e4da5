-- ===== src/Parallel/Complete.antt =====
-- include/condy/detail/op_states.hpp: the results of operations that complete in any order reach the
-- receiver once, with the last of them.
use condy.Prelude.{
  ℕ, suc, ◌+◌, ◌-◌, ◌<◌, ◌≤◌, ◌≡◌, refl, sym, ap, ◌∙◌, Bool, true, false, List, [], ◌∷◌, ◌++◌,
  lt→ltb, ==_iff, ==_ne, if◌then◌else◌, length, get_or, set, replicate, has, length-set,
  length-append, length-replicate, get_or-set_self, get_or-set_ne, Outcome, ok, ◌>>=◌, arith,
}
use condy.Parallel.{
  Canceller, when_any, when_all, Parallel, cancel_others, reset, note_result, receive_with, deliver,
}

module _ {A : Type 0} where
  abbrev pub indices : List (ℕ × A) → List ℕ
  indices [] = []
  indices ((i, r) ∷ cs) = i ∷ indices cs

  -- The operations complete in this order, with these results.
  unfoldable pub receive_each : Bool → Canceller → List (ℕ × A) → Parallel A → Outcome (Parallel A)
  unfolding receive_with
  receive_each b c [] p = ok p
  receive_each b c ((i, r) ∷ cs) p = do p1 ← receive_with b c i r p; receive_each b c cs p1

  -- Each of `cs` is one of `n` operations, and none completes twice, `before` them or among them.
  abbrev pub IsHistory : ℕ → List (ℕ × A) → List (ℕ × A) → Type 0
  IsHistory n before [] = Unit {0}
  IsHistory n before ((i, r) ∷ cs) =
      (i < n) × (has i (indices before) ≡ false) × IsHistory n (before ++ (i, r) ∷ []) cs

  -- Each result stands in the slot of its operation.
  abbrev pub Holds : A → List A → List (ℕ × A) → Type 0
  Holds d results [] = Unit {0}
  Holds d results ((i, r) ∷ cs) = (get_or results i d ≡ r) × Holds d results cs

  Holds-set :
      (d : A) (results : List A) (i : ℕ) (r : A) (cs : List (ℕ × A))
      → has i (indices cs) ≡ false
      → Holds d results cs
      → Holds d (set results i r) cs
  Holds-set d results i r [] h held = tt
  Holds-set d results i r ((j, s) ∷ cs) h (now, later) = (
    get_or-set_ne results i j r d (ground (arith, ==_iff i j)) ∙ now,
    Holds-set d results i r cs (ground arith) later,
  )

  Holds-append :
      (d : A) (results : List A) (cs : List (ℕ × A)) (i : ℕ) (r : A)
      → Holds d results cs
      → get_or results i d ≡ r
      → Holds d results (cs ++ (i, r) ∷ [])
  Holds-append d results [] i r held now = (now, tt)
  Holds-append d results ((j, s) ∷ cs) i r (first, held) now =
      (first, Holds-append d results cs i r held now)

  indices-append :
      (cs : List (ℕ × A)) (i : ℕ) (r : A) → indices (cs ++ (i, r) ∷ []) ≡ indices cs ++ i ∷ []
  indices-append [] i r = refl
  indices-append ((j, s) ∷ cs) i r = ap (◌∷◌ j) (indices-append cs i r)

  length-indices : (cs : List (ℕ × A)) → length (indices cs) ≡ length cs
  length-indices [] = refl
  length-indices (x ∷ cs) = ap suc (length-indices cs)

  -- After the completions `past` of `n` operations, when some are missing.
  pub record Waiting (d : A) (n : ℕ) (past : List (ℕ × A)) (p : Parallel A) : Type 0 where
    pub size : p.size ≡ n
    pub count : p.completed_count ≡ length past
    pub order : p.order ≡ indices past ++ replicate (n - length past) 0
    pub room : length p.results ≡ n
    pub held : Holds d p.results past
    pub quiet : p.delivered ≡ []

set-pad :
    (xs : List ℕ) (k i : ℕ)
    → set (xs ++ replicate (suc k) 0) (length xs) i ≡ (xs ++ i ∷ []) ++ replicate k 0
set-pad [] k i = refl
set-pad (x ∷ xs) k i = ap (◌∷◌ x) (set-pad xs k i)

module _ {A : Type 0} where
  -- What `note_result` and the canceller leave after one more completion.
  abbrev pub noted : Canceller → ℕ → A → Parallel A → Parallel A
  noted c i r p = record p {
    order = set p.order p.completed_count i;
    results = set p.results i r;
    completed_count = p.completed_count + 1;
    stop_requested = elim c [ when_any ↦ true | when_all ↦ p.stop_requested ];
  }

  pub noted-Waiting :
      (d : A) (n : ℕ) (past : List (ℕ × A)) (c : Canceller) (i : ℕ) (r : A) (p : Parallel A)
      → Waiting d n past p
      → length past < n
      → i < n
      → has i (indices past) ≡ false
      → Waiting d n (past ++ (i, r) ∷ []) (noted c i r p)
  noted-Waiting d n past c i r p w more small new = record {
    size = w.size;
    count = omega (arith, w.count, length-append past ((i, r) ∷ []));
    order =
        ap (λ (o : List ℕ). set o p.completed_count i) w.order
        ∙ ap (λ (t : ℕ). set (indices past ++ replicate (n - length past) 0) t i)
            (w.count ∙ sym (length-indices past))
        ∙ ap (λ (t : ℕ). set (indices past ++ replicate t 0) (length (indices past)) i) left
        ∙ set-pad (indices past) (n - suc (length past)) i
        ∙ ap (λ (l : List ℕ). l ++ replicate (n - suc (length past)) 0)
            (sym (indices-append past i r))
        ∙ ap (λ (t : ℕ). indices (past ++ (i, r) ∷ []) ++ replicate t 0)
            (omega (arith, length-append past ((i, r) ∷ [])));
    room = length-set p.results i r ∙ w.room;
    held =
        Holds-append d (set p.results i r) past i r (Holds-set d p.results i r past new w.held)
          (get_or-set_self p.results i r d (omega (arith, w.room)));
    quiet = w.quiet;
  }
    where
      left : n - length past ≡ suc (n - suc (length past))
      left = omega arith

  order-room :
      (d : A) (n : ℕ) (past : List (ℕ × A)) (p : Parallel A)
      → Waiting d n past p
      → length past ≤ n
      → length p.order ≡ n
  order-room d n past p w h =
      ap length w.order
      ∙ omega (
        arith,
        length-append (indices past) (replicate (n - length past) 0),
        length-indices past,
        length-replicate {A = ℕ} (n - length past) 0,
      )

  note_result-noted :
      (d : A) (n : ℕ) (past : List (ℕ × A)) (c : Canceller) (i : ℕ) (r : A) (p : Parallel A)
      → Waiting d n past p
      → length past < n
      → i < n
      → note_result i r (cancel_others c p) ≡ ok (noted c i r p)
  unfolding note_result cancel_others
  note_result-noted d n past when_any i r p w more small = simp (
    lt→ltb p.completed_count (length p.order)
        (omega (arith, order-room d n past p w (omega arith), w.count)),
    lt→ltb i (length p.results) (omega (arith, w.room)),
  )
  note_result-noted d n past when_all i r p w more small = simp (
    lt→ltb p.completed_count (length p.order)
        (omega (arith, order-room d n past p w (omega arith), w.count)),
    lt→ltb i (length p.results) (omega (arith, w.room)),
  )

  module _ (d : A) (n : ℕ) (b : Bool) (c : Canceller) (past : List (ℕ × A)) (i : ℕ) (r : A)
      (p : Parallel A) (w : Waiting d n past p) (small : i < n) where
    pub receive_with-waits : suc (length past) < n → receive_with b c i r p ≡ ok (noted c i r p)
    unfolding receive_with
    receive_with-waits h = simp (
      note_result-noted d n past c i r p w (omega arith) small,
      ==_ne (p.completed_count + 1) p.size (omega (arith, w.count, w.size)),
    )

    pub receive_with-delivers :
        suc (length past) ≡ n
        → receive_with b c i r p
          ≡ ok (deliver (if b then reset c (noted c i r p) else noted c i r p))
    unfolding receive_with
    receive_with-delivers h = simp (
      note_result-noted d n past c i r p w (omega arith) small,
      (==_iff (p.completed_count + 1) p.size).1 (omega (arith, w.count, w.size)),
    )
