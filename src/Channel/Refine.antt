-- ===== src/Channel/Refine.antt =====
-- The operations of a channel do what the bounded queue does, and no assertion in them fails.
use condy.Prelude.{
  ℕ, ◌≡◌, refl, ap, ◌∙◌, inl, inr, true, false, List, [], ◌∷◌, ◌++◌, ◌==◌, ==_ne, ==_iff, length,
  length-append, Outcome, ok, arith, Bool-cases,
}
use condy.Codes.{success}
use condy.Channel.{
  Channel, PushHandle, Event, empty_inner, full_inner, pop_and_push, push_with, try_push_inner,
  pop_with, try_pop_inner, finish_push, finish_pop,
}
use condy.Channel.Buffer.{
  Ring, pushed, popped, size_inner-length, push_inner-Ring, pop_inner-Ring, Ring-frame,
}
use condy.Channel.Bounded
use condy.Channel.Bounded.{Bounded, IsValid}

-- The channel `c` stands for the bounded queue `q`.
pub record Rep {A : Type 0} (c : Channel A) (q : Bounded A) : Type 0 where
  pub ring : Ring c q.items
  pub bound : c.capacity ≡ q.bound
  pub pushes : c.push_awaiters ≡ q.pushes
  pub pops : c.pop_awaiters ≡ q.pops
  pub shut : c.closed ≡ q.shut
  pub told : c.scheduled ≡ q.told
  pub valid : IsValid q

-- The run ends without a fault, with the result of the specification, in a channel that stands for
-- the state of the specification.
abbrev pub Does : {A B : Type 0} → Outcome (B × Channel A) → B × Bounded A → Type 0
Does {A} m r = (c : Channel A) × (m ≡ ok (r.0, c)) × Rep c r.1

module _ {A : Type 0} {c : Channel A} {q : Bounded A} (r : Rep c q) where
  pub full-eq : full_inner c ≡ (length q.items == q.bound)
  full-eq = rw (size_inner-length r.ring, r.bound)

  push_with-Does :
      (ps : List ℕ) (x : A) → q.pops ≡ ps → Does (push_with ps x c) (Bounded.offer_with ps x q)
  unfolding push_with
  push_with-Does [] x e = elim (Bool-cases (length q.items == q.bound)) [
    | inl full ↦ rw (full-eq, full) (c, refl, r)
    | inr room ↦
        let (eq, ring) = push_inner-Ring r.ring x (ground (arith, r.valid.within, r.bound)) in
        rw (full-eq, room, eq)
          (
            pushed x c,
            refl,
            record {
              ring = ring;
              bound = r.bound;
              pushes = r.pushes;
              pops = r.pops;
              shut = r.shut;
              told = r.told;
              valid = record {
                within = ground (arith, r.valid.within, length-append q.items (x ∷ []));
                full_if_push = ground (arith, r.valid.full_if_push);
                empty_if_pop = inl e;
                none_if_shut = r.valid.none_if_shut;
              };
            },
          )
  ]
  push_with-Does (p ∷ ps) x e = rw vacant (
    finish_pop p success x (record c { pop_awaiters = ps }),
    refl,
    record {
      ring = Ring-frame r.ring c.push_awaiters ps c.closed _;
      bound = r.bound;
      pushes = r.pushes;
      pops = refl;
      shut = r.shut;
      told = ap (λ (t : List (Event A)). t ++ Event.pop_done p success x ∷ []) r.told;
      valid = record {
        within = r.valid.within;
        full_if_push = r.valid.full_if_push;
        empty_if_pop = inr idle;
        none_if_shut = ground (arith, r.valid.none_if_shut);
      };
    },
  )
    where
      idle : (q.items ≡ []) × (q.pushes ≡ [])
      idle = ground (arith, r.valid.empty_if_pop)

      vacant : empty_inner c ≡ true
      vacant = rw (size_inner-length r.ring, idle.0)

  pub drained : q.items ≡ [] → empty_inner c ≡ true
  drained e = rw (size_inner-length r.ring, e)

  holding : {x : A} {xs : List A} → q.items ≡ x ∷ xs → empty_inner c ≡ false
  holding e = rw (size_inner-length r.ring, e) (ground arith)

  pop_idle-Does :
      (xs : List A) → q.items ≡ xs → q.pushes ≡ [] → Does (pop_with [] c) (Bounded.uncons xs q)
  unfolding pop_with
  pop_idle-Does [] e idle = (c, rw (drained e), r)
  pop_idle-Does (x ∷ xs) e idle =
      let (eq, ring) = pop_inner-Ring (rw e at r.ring) in
      (
        popped c,
        rw (holding e, pop_with, eq),
        record {
          ring = ring;
          bound = r.bound;
          pushes = r.pushes;
          pops = r.pops;
          shut = r.shut;
          told = r.told;
          valid = record {
            within = ground (arith, r.valid.within, ap length e);
            full_if_push = inl idle;
            empty_if_pop = ground (arith, r.valid.empty_if_pop);
            none_if_shut = r.valid.none_if_shut;
          };
        },
      )

  -- The state in which the oldest waiting push has been told.
  abbrev admit : PushHandle A → List (PushHandle A) → Channel A
  admit h hs = finish_push h success (record c { push_awaiters = hs })

  admitted-told :
      (h : PushHandle A) (hs : List (PushHandle A))
      → (admit h hs).scheduled ≡ q.told ++ Bounded.push_event h success ∷ []
  admitted-told h hs = ap (λ (t : List (Event A)). t ++ Bounded.push_event h success ∷ []) r.told

  module _ (h : PushHandle A) (hs : List (PushHandle A)) (e : q.pushes ≡ h ∷ hs) where
    crowded : length q.items ≡ q.bound
    crowded = ground (arith, r.valid.full_if_push)

    full : full_inner c ≡ true
    full = full-eq ∙ (==_iff _ _).1 crowded

    no_pops : q.pops ≡ []
    no_pops = ground (arith, r.valid.empty_if_pop)

    open_yet : q.shut ≡ false
    open_yet = ground (arith, r.valid.none_if_shut)

    framed : Ring (admit h hs) q.items
    framed = Ring-frame r.ring hs c.pop_awaiters c.closed _

    handed :
        (c' : Channel A) (xs : List A)
        → Ring c' xs
        → length xs ≡ q.bound
        → c'.capacity ≡ c.capacity
        → c'.push_awaiters ≡ hs
        → c'.pop_awaiters ≡ c.pop_awaiters
        → c'.closed ≡ c.closed
        → c'.scheduled ≡ (admit h hs).scheduled
        → Rep c' (record q {
          items = xs;
          pushes = hs;
          told = q.told ++ Bounded.push_event h success ∷ [];
        })
    handed c' xs ring len cap pushes pops shut told = record {
      ring = ring;
      bound = cap ∙ r.bound;
      pushes = pushes;
      pops = pops ∙ r.pops;
      shut = shut ∙ r.shut;
      told = told ∙ admitted-told h hs;
      valid = record {
        within = omega (arith, len);
        full_if_push = inr len;
        empty_if_pop = inl no_pops;
        none_if_shut = inl open_yet;
      };
    }

    pop_wait-Does :
        (xs : List A)
        → q.items ≡ xs
        → Does (pop_with (h ∷ hs) c) (
            Bounded.uncons
              (xs ++ h.item ∷ [])
              (Bounded.tell (Bounded.push_event h success) (record q { pushes = hs })))
    unfolding pop_with pop_and_push
    pop_wait-Does [] i =
        let unbuffered : (c.capacity == 0) ≡ true =
          (==_iff _ _).1 (omega (arith, r.bound, crowded, ap length i)) in
        (
          admit h hs,
          rw (full, unbuffered),
          handed (admit h hs) [] (rw i at framed) (omega (arith, crowded, ap length i)) refl refl
              refl refl refl,
        )
    pop_wait-Does (x ∷ xs) i =
        let buffered : (c.capacity == 0) ≡ false =
          ==_ne _ _ (omega (arith, r.bound, crowded, ap length i)) in
        let (popping, ring) = pop_inner-Ring (rw i at framed) in
        let (pushing, ring') =
          push_inner-Ring ring h.item (omega (arith, r.bound, crowded, ap length i)) in
        (
          pushed h.item (popped (admit h hs)),
          rw (full, buffered, popping, pushing),
          handed _ (xs ++ h.item ∷ []) ring'
              (omega (arith, length-append xs (h.item ∷ []), crowded, ap length i)) refl refl refl
              refl refl,
        )

  pop_with-Does :
      (hs : List (PushHandle A)) → q.pushes ≡ hs → Does (pop_with hs c) (Bounded.take_with hs q)
  pop_with-Does [] e = pop_idle-Does q.items refl e
  pop_with-Does (h ∷ hs) e = pop_wait-Does h hs e q.items refl

  pub try_push_inner-Does : (x : A) → Does (try_push_inner x c) (Bounded.offer x q)
  unfolding try_push_inner
  try_push_inner-Does x =
      let (c', eq, rep) = push_with-Does q.pops x refl in
      (c', ap (λ (t : List ℕ). push_with t x c) r.pops ∙ eq, rep)

  pub try_pop_inner-Does : Does (try_pop_inner c) (Bounded.take q)
  unfolding try_pop_inner
  try_pop_inner-Does =
      let (c', eq, rep) = pop_with-Does q.pushes refl in
      (c', ap (λ (t : List (PushHandle A)). pop_with t c) r.pushes ∙ eq, rep)
