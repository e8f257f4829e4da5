-- ===== src/Launch/Chain.antt =====
-- include/condy/detail/op_states.hpp and include/condy/detail/ring.hpp: linked operations and the batch
-- of the ring, request by request. `take` is what the prep functions do to `io_uring`, and `sqe` the entries they give.
use condy.Prelude.{
  ℕ, suc, ◌+◌, ◌^◌, ◌≤◌, ◌<◌, ◌≡◌, refl, sym, ap, ◌∙◌, inl, inr, Bool, true, false, List, [], ◌∷◌,
  ◌++◌, length, Outcome, ok, ◌>>=◌, arith,
}
use mathlib.Core.Path.{subst}
use condy.Ring.{Ring, maybe_submit}
use condy.Ring.Batch.{maybe_submit_lem}
use condy.Finish.{Cqe, pend_work}
use condy.Launch.{Launch, Operation, maybe_set_cancel, start_sqe, start_op, perform_act, perform}
use condy.Launch.Settle.{encode_common}
use condy.Launch.Linked.{prepares, written, IsReady}

pub maybe_set_cancel-ring :
    {R S B : Type 0} (o : Operation R S) (s : Launch R B) (b : Bool)
    → o.stop_possible ≡ b
    → (maybe_set_cancel o s).ring ≡ s.ring
unfolding maybe_set_cancel
maybe_set_cancel-ring o s true e = simp e
maybe_set_cancel-ring o s false e = simp e

module _ {R S B : Type 0} (io_uring_submit : R → R) (space_left : R → ℕ) (write : ℕ → ℕ → S → R → R)
    (cqe_handler : Cqe → B) (ops : ℕ → Operation R S) (sqe : ℕ → S) (take : ℕ → R → R)
    (ready : IsReady io_uring_submit space_left write ops sqe take) where
  abbrev pub entered : ℕ → ℕ → Ring R → Ring R
  entered a f r = record r { ring = write f (ops a).address (sqe a) (take a r.ring) }

  start_ready :
      (a f : ℕ) (s : Launch R B)
      → 0 < space_left s.ring.ring
      → (s' : Launch R B) × (start_op io_uring_submit space_left write cqe_handler true f (ops a) s
          ≡ ok s')
        × (s'.ring ≡ maybe_submit io_uring_submit (entered a f s.ring))
  unfolding start_op start_sqe
  start_ready a f s room =
      let o = ops a in
      let s1 : Launch R B = record {
        ring = maybe_submit io_uring_submit (entered a f s.ring);
        loop = pend_work s.loop;
      } in
      (
        maybe_set_cancel o s1,
        simp (ready.going a, ready.gives a s.ring room, encode_common o.address (ready.aligned a)),
        maybe_set_cancel-ring o s1 o.stop_possible refl,
      )

  pub room_left :
      (a f n : ℕ) (r : R)
      → suc n ≤ space_left r
      → n ≤ space_left (write f (ops a).address (sqe a) (take a r))
  room_left a f n r h =
      omega (arith, ready.takes a r (omega arith), ready.keeps f (ops a).address (sqe a) (take a r))

  abbrev pub run : List (ℕ × ℕ) → Launch R B → Outcome (Launch R B)
  run ps s = perform io_uring_submit space_left write cqe_handler true ops (prepares ps) s

  run_step :
      (a f : ℕ) (ps : List (ℕ × ℕ)) (s s1 : Launch R B)
      → start_op io_uring_submit space_left write cqe_handler true f (ops a) s ≡ ok s1
      → run ((a, f) ∷ ps) s ≡ run ps s1
  unfolding perform perform_act prepares
  run_step a f ps s s1 e = ap (λ (m : Outcome (Launch R B)). m >>= run ps) e

  -- The launch ends with the ring `r`.
  abbrev pub EndsWith : List (ℕ × ℕ) → Launch R B → Ring R → Type 0
  EndsWith ps s r = (s' : Launch R B) × (run ps s ≡ ok s') × (s'.ring ≡ r)

  ends_here : {r : Ring R} (s : Launch R B) → s.ring ≡ r → EndsWith [] s r
  unfolding perform prepares
  ends_here s e = (s, refl, e)

  pub recount :
      (ps : List (ℕ × ℕ)) (s : Launch R B) (r : Ring R) (m n : ℕ)
      → EndsWith ps s (record r { maybe_submit_count = m })
      → m ≡ n
      → EndsWith ps s (record r { maybe_submit_count = n })
  recount ps s r m n (s', e, g) same =
      (s', e, g ∙ ap (λ (k : ℕ). record r { maybe_submit_count = k }) same)

  first :
      (a f : ℕ) (ps : List (ℕ × ℕ)) (r r1 q : Ring R) (s : Launch R B)
      → s.ring ≡ r
      → 0 < space_left r.ring
      → maybe_submit io_uring_submit (entered a f r) ≡ r1
      → ((s1 : Launch R B) → s1.ring ≡ r1 → EndsWith ps s1 q)
      → EndsWith ((a, f) ∷ ps) s q
  first a f ps r r1 q s here room counted rest =
      let (s1, e1, g1) =
        start_ready a f s (subst (λ (x : Ring R). 0 < space_left x.ring) (sym here) room) in
      let (s2, e2, g2) =
        rest s1
          (g1 ∙ ap (λ (x : Ring R). maybe_submit io_uring_submit (entered a f x)) here ∙ counted) in
      (s2, run_step a f ps s s1 e1 ∙ e2, g2)

  -- An operation that does not complete the batch is counted.
  held_first :
      (a f : ℕ) (ps : List (ℕ × ℕ)) (r q : Ring R) (s : Launch R B)
      → s.ring ≡ r
      → 0 < space_left r.ring
      → r.submit_batch < 2 ^ 64
      → r.maybe_submit_count + 1 < r.submit_batch
      → ((s1 : Launch R B)
          → s1.ring ≡ record (entered a f r) { maybe_submit_count = r.maybe_submit_count + 1 }
          → EndsWith ps s1 q)
      → EndsWith ((a, f) ∷ ps) s q
  held_first a f ps r q s here room small held rest =
      elim (maybe_submit_lem io_uring_submit (entered a f r) small (omega arith)) [
        | inl (exact, e) ↦ absurd (omega arith)
        | inr (less, e) ↦ first a f ps r _ q s here room e rest
      ]

  -- Fewer operations than complete the batch are written, and nothing is submitted.
  pub run_held :
      (ps : List (ℕ × ℕ)) (r : Ring R) (s : Launch R B)
      → s.ring ≡ r
      → r.submit_batch < 2 ^ 64
      → r.maybe_submit_count + length ps < r.submit_batch
      → length ps ≤ space_left r.ring
      → EndsWith ps s (record r {
        ring = written write ops sqe take ps r.ring;
        maybe_submit_count = r.maybe_submit_count + length ps;
      })
  run_held [] r s here small held room =
      ends_here s (here ∙ ap (λ (k : ℕ). record r { maybe_submit_count = k }) (omega arith))
  run_held ((a, f) ∷ ps) r s here small held room =
      held_first a f ps r _ s here (omega arith) small (omega arith) (λ s1 g.
        recount ps s1
          (record (entered a f r) { ring = written write ops sqe take ps (entered a f r).ring })
          (r.maybe_submit_count + 1 + length ps) (r.maybe_submit_count + suc (length ps))
          (run_held ps (record (entered a f r) { maybe_submit_count = r.maybe_submit_count + 1 }) s1
            g small (omega arith) (room_left a f (length ps) r.ring (omega arith)))
          (omega arith))

  -- The operations that complete the batch are submitted before the next are prepared.
  pub run_full :
      (ps qs : List (ℕ × ℕ)) (r q : Ring R) (s : Launch R B)
      → s.ring ≡ r
      → r.submit_batch < 2 ^ 64
      → r.maybe_submit_count < r.submit_batch
      → r.maybe_submit_count + length ps ≡ r.submit_batch
      → length ps ≤ space_left r.ring
      → ((s1 : Launch R B)
          → s1.ring ≡ record r {
            ring = io_uring_submit (written write ops sqe take ps r.ring);
            maybe_submit_count = 0;
          }
          → EndsWith qs s1 q)
      → EndsWith (ps ++ qs) s q
  run_full [] qs r q s here small less full room rest = absurd (omega arith)
  run_full ((a, f) ∷ []) qs r q s here small less full room rest =
      elim (maybe_submit_lem io_uring_submit (entered a f r) small less) [
        | inl (exact, e) ↦ first a f qs r _ q s here (omega arith) e rest
        | inr (less, e) ↦ absurd (omega arith)
      ]
  run_full ((a, f) ∷ p ∷ ps) qs r q s here small less full room rest =
      held_first a f ((p ∷ ps) ++ qs) r q s here (omega arith) small (omega arith) (λ s1 g.
        run_full (p ∷ ps) qs
          (record (entered a f r) { maybe_submit_count = r.maybe_submit_count + 1 }) q s1 g small
          (omega arith) (omega arith) (room_left a f (length (p ∷ ps)) r.ring (omega arith)) rest)
