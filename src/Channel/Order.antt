-- ===== src/Channel/Order.antt =====
-- The order of items through a channel: a history of transfers on the code's own state.
use condy.Prelude.{
  ℕ, ◌^◌, ◌≤◌, ◌≡◌, refl, sym, ap, ◌∙◌, List, [], ◌∷◌, ◌++◌, append-nil, append_assoc, Outcome, ok,
  ◌>>=◌,
}
use condy.Channel.{Channel, Event, create}
use condy.Channel.Bounded.{Bounded}
use condy.Channel.Buffer.{Ring-frame}
use condy.Channel.Refine.{Rep}
use condy.Channel.New.{create-Rep}
use condy.Channel.Run.{Op, Reply, step, step-Does, spec_step}
use condy.Channel.Fifo.{line, handed, returned, entered, IsTransfer, step-line}

abbrev pub AllTransfer : {A : Type 0} → List (Op A) → Type 0
AllTransfer [] = Unit {0}
AllTransfer (o ∷ os) = IsTransfer o × AllTransfer os

module _ {A : Type 0} where
  -- The runtimes take what was scheduled.
  abbrev pub collected : Channel A → Channel A
  collected c = record c { scheduled = [] }

  -- The calls of a history in order, with the items that left (returned by a pop, or handed to a
  -- waiting one), and the items that entered (taken, or in the hands of a waiting push).
  unfoldable pub flow : A → List (Op A) → Channel A → Outcome ((List A × List A) × Channel A)
  flow d [] c = ok (([], []), c)
  flow d (o ∷ os) c = do
    (r, c1) ← step d o (collected c)
    ((left, came), c2) ← flow d os c1
    ok (((returned r ++ handed c1.scheduled) ++ left, entered o r ++ came), c2)

  -- What is told, and so scheduled, can be taken away.
  pub scheduled-Rep :
      {c : Channel A} {q : Bounded A} (es : List (Event A))
      → Rep c q
      → Rep (record c { scheduled = es }) (record q { told = es })
  scheduled-Rep {c} es r = record {
    ring = Ring-frame r.ring c.push_awaiters c.pop_awaiters c.closed es;
    bound = r.bound;
    pushes = r.pushes;
    pops = r.pops;
    shut = r.shut;
    told = refl;
    valid = record {
      within = r.valid.within;
      full_if_push = r.valid.full_if_push;
      empty_if_pop = r.valid.empty_if_pop;
      none_if_shut = r.valid.none_if_shut;
    };
  }

  -- What leaves and what stays, in order, is what was there and what came.
  abbrev pub Flows : A → List (Op A) → Channel A → List A → Type 0
  Flows d os c before =
      (left came : List A) × (c' : Channel A) × (q : Bounded A) × (flow d os c
        ≡ ok ((left, came), c'))
      × Rep c' q
      × (left ++ line q ≡ before ++ came)

  flow-Flows :
      (d : A) (os : List (Op A)) {c : Channel A} {q : Bounded A}
      → AllTransfer os
      → Rep c q
      → Flows d os c (line q)
  unfolding flow
  flow-Flows d [] {c} {q} t r = ([], [], c, q, refl, r, sym (append-nil (line q)))
  flow-Flows d (o ∷ os) {c} {q} t r =
      let q0 : Bounded A = record q { told = [] } in
      let (c1, eq, rep) = step-Does d o (scheduled-Rep [] r) in
      let (left, came, c2, q2, eq', rep', order) = flow-Flows d os t.1 rep in
      let reply : Reply A = (spec_step d o q0).0 in
      let q1 : Bounded A = (spec_step d o q0).1 in
      let out : List A = returned reply ++ handed q1.told in
      (
        out ++ left,
        entered o reply ++ came,
        c2,
        q2,
        simp (eq, eq', rep.told),
        rep',
        append_assoc out left (line q2)
            ∙ ap (◌++◌ out) order
            ∙ sym (append_assoc out (line q1) came)
            ∙ ap (λ (l : List A). l ++ came) (step-line d o q0 t.0 (scheduled-Rep [] r).valid refl)
            ∙ append_assoc (line q) (entered o reply) came,
      )

  -- First in, first out: from a new channel of a capacity up to `2^63`, in any history of pushes and pops, waiting or not, no
  -- call fails an assertion, and the items that left, followed by those that are stored or wait,
  -- are exactly the items that entered, in the order in which they entered.
  pub flow_lem :
      (d : A) (n : ℕ) (os : List (Op A)) → n ≤ 2 ^ 63 → AllTransfer os → Flows d os (create n) []
  flow_lem d n os h t = flow-Flows d os t (create-Rep n h).0
