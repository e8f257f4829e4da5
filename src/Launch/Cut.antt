-- ===== src/Launch/Cut.antt =====
-- include/condy/detail/op_states.hpp and include/condy/detail/ring.hpp: when the start of linked
-- operations is one submission, and when it is not.
use condy.Prelude.{
  ℕ, ◌+◌, ◌^◌, ◌≤◌, ◌<◌, ◌≡◌, refl, ap, ◌∙◌, ◌⊎◌, inl, inr, true, List, [], ◌∷◌, ◌++◌, length,
  length-append, Outcome, ok, ◌>>=◌, arith,
}
use condy.Ring.{Ring, submit, reserve_space}
use condy.Ring.Batch.{reserve_space_once}
use condy.Finish.{Cqe}
use condy.Senders.{Act, reserve, start}
use condy.Launch.{Launch, Operation, perform_act, perform}
use condy.Launch.Linked.{
  chain, linked, prepares, start-chain, length-linked, marked, written, length-marked,
  linked-append, IsReady,
}
use condy.Launch.Chain.{run, run_held, run_full, recount, room_left}

which_ring : {P Q X Y : Type 0} → P × X ⊎ Q × Y → X ⊎ Y
which_ring (inl (p, x)) = inl x
which_ring (inr (q, y)) = inr y

module _ {R S B : Type 0} (io_uring_submit : R → R) (space_left : R → ℕ) (write : ℕ → ℕ → S → R → R)
    (cqe_handler : Cqe → B) (ops : ℕ → Operation R S) (sqe : ℕ → S) (take : ℕ → R → R)
    (ready : IsReady io_uring_submit space_left write ops sqe take) where
  reserve_step :
      (n : ℕ) (acts : List Act) (r : Ring R) (s : Launch R B)
      → reserve_space io_uring_submit space_left 2 n s.ring ≡ ok r
      → perform io_uring_submit space_left write cqe_handler true ops (reserve n ∷ acts) s
        ≡ perform io_uring_submit space_left write cqe_handler true ops acts (record s { ring = r })
  unfolding perform perform_act
  reserve_step n acts r s e =
      ap
        (λ (m : Outcome (Ring R)).
          (m >>= λ (q : Ring R). ok (record s { ring = q }))
          >>= perform io_uring_submit space_left write cqe_handler true ops acts)
        e

  after_reserve :
      (l flags : ℕ) (ids : List ℕ) (r : Ring R) (s : Launch R B)
      → reserve_space io_uring_submit space_left 2 (length ids) s.ring ≡ ok r
      → perform io_uring_submit space_left write cqe_handler true ops (start flags (chain l ids)) s
        ≡ run io_uring_submit space_left write cqe_handler ops sqe take ready
            (linked l flags ids)
            (record s { ring = r })
  after_reserve l flags ids r s e =
      ap (λ (acts : List Act). perform io_uring_submit space_left write cqe_handler true ops acts s)
        (start-chain l flags ids)
      ∙ reserve_step (length ids) (prepares (linked l flags ids)) r s e

  reserved :
      (r q : Ring R)
      → (r ≡ q) ⊎ (r ≡ submit io_uring_submit q)
      → (r.submit_batch ≡ q.submit_batch) × (r.maybe_submit_count ≤ q.maybe_submit_count)
  unfolding submit
  reserved r q (inl same) = (
    ap (λ (x : Ring R). x.submit_batch) same,
    omega (arith, ap (λ (x : Ring R). x.maybe_submit_count) same),
  )
  reserved r q (inr same) = (
    ap (λ (x : Ring R). x.submit_batch) same,
    omega (arith, ap (λ (x : Ring R). x.maybe_submit_count) same),
  )

  -- With room for its operations after a submission at the latest, and with fewer of them than complete
  -- the batch, a chain of linked operations goes to the ring in one piece: once room is made, which
  -- may submit what was there before, all its entries are written and nothing is submitted.
  pub perform-whole :
      (l flags : ℕ) (ids : List ℕ) (s : Launch R B)
      → s.ring.submit_batch < 2 ^ 64
      → s.ring.maybe_submit_count + length ids < s.ring.submit_batch
      → length ids ≤ space_left (io_uring_submit s.ring.ring)
      → (r : Ring R) × (s' : Launch R B) × ((r ≡ s.ring) ⊎ (r ≡ submit io_uring_submit s.ring))
        × (perform io_uring_submit space_left write cqe_handler true ops
              (start flags (chain l ids))
              s
            ≡ ok s')
        × (s'.ring ≡ record r {
          ring = written write ops sqe take (linked l flags ids) r.ring;
          maybe_submit_count = r.maybe_submit_count + length ids;
        })
  perform-whole l flags ids s small held roomy =
      let (r, e, room, which) =
        reserve_space_once io_uring_submit space_left (length ids) s.ring roomy in
      let (same, fewer) = reserved r s.ring (which_ring which) in
      let entries = linked l flags ids in
      let len = length-linked l flags ids in
      let (s', e', g) =
        run_held io_uring_submit space_left write cqe_handler ops sqe take ready entries r
          (record s { ring = r }) refl (omega arith) (omega arith) (omega arith) in
      (
        r,
        s',
        which_ring which,
        after_reserve l flags ids r s e ∙ e',
        g
            ∙ ap
                (λ (n : ℕ). record r {
                  ring = written write ops sqe take entries r.ring;
                  maybe_submit_count = r.maybe_submit_count + n;
                })
                len,
      )

  nothing_reserved :
      (n : ℕ) (r : Ring R)
      → n ≤ space_left r.ring
      → reserve_space io_uring_submit space_left 2 n r ≡ ok r
  nothing_reserved n r room =
      let (r1, e, _, which) =
        reserve_space_once io_uring_submit space_left n r (omega (arith, ready.frees r.ring)) in
      elim which [ inl (_, same) ↦ e ∙ ap ok same | inr (less, _) ↦ absurd (omega arith) ]

  room-written :
      (ps : List (ℕ × ℕ)) (m : ℕ) (r : R)
      → m + length ps ≤ space_left r
      → m ≤ space_left (written write ops sqe take ps r)
  room-written [] m r h = omega arith
  room-written ((a, f) ∷ ps) m r h = room-written ps m _ (
      room_left io_uring_submit space_left write cqe_handler ops sqe take ready a f (m + length ps)
        r (omega arith))

  -- A chain with room whose first operations `front` just complete the batch, and with fewer operations
  -- after them than complete another, is cut: the entries of `front`, all linked to a next one,
  -- are submitted before the first of the others is prepared.
  pub perform-cut :
      (l flags : ℕ) (front : List ℕ) (b : ℕ) (back : List ℕ) (s : Launch R B)
      → s.ring.submit_batch < 2 ^ 64
      → s.ring.maybe_submit_count < s.ring.submit_batch
      → s.ring.maybe_submit_count + length front ≡ s.ring.submit_batch
      → length (b ∷ back) < s.ring.submit_batch
      → length (front ++ b ∷ back) ≤ space_left s.ring.ring
      → (s' : Launch R B) × (perform io_uring_submit space_left write cqe_handler true ops
            (start flags (chain l (front ++ b ∷ back)))
            s
          ≡ ok s')
        × (s'.ring ≡ record s.ring {
          ring =
              written write ops sqe take
                (linked l flags (b ∷ back))
                (io_uring_submit (written write ops sqe take (marked l flags front) s.ring.ring));
          maybe_submit_count = length (b ∷ back);
        })
  perform-cut l flags front b back s small less full others room =
      let ids = front ++ b ∷ back in
      let ps = marked l flags front in
      let qs = linked l flags (b ∷ back) in
      let len = length-marked l flags front in
      let len2 = length-linked l flags (b ∷ back) in
      let both_lengths = length-append front (b ∷ back) in
      let r1 : Ring R = record s.ring {
        ring = io_uring_submit (written write ops sqe take ps s.ring.ring);
        maybe_submit_count = 0;
      } in
      let left = room-written ps (length (b ∷ back)) s.ring.ring (omega arith) in
      let freed = ready.frees (written write ops sqe take ps s.ring.ring) in
      let (s', e', g) =
        run_full io_uring_submit space_left write cqe_handler ops sqe take ready ps qs s.ring
          (record r1 {
            ring = written write ops sqe take qs r1.ring;
            maybe_submit_count = length (b ∷ back);
          })
          s refl small less (omega arith) (omega arith)
          (λ s1 h.
            recount io_uring_submit space_left write cqe_handler ops sqe take ready qs s1
              (record r1 { ring = written write ops sqe take qs r1.ring }) (0 + length qs)
              (length (b ∷ back))
              (run_held io_uring_submit space_left write cqe_handler ops sqe take ready qs r1 s1 h
                small (omega arith) (omega arith))
              (omega (arith, len2))) in
      (
        s',
        after_reserve l flags ids s.ring s (nothing_reserved (length ids) s.ring room)
            ∙ ap
                (λ (xs : List (ℕ × ℕ)).
                  run io_uring_submit space_left write cqe_handler ops sqe take ready xs s)
                (linked-append l flags front b back)
            ∙ e',
        g,
      )
