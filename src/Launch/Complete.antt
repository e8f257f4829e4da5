-- ===== src/Launch/Complete.antt =====
-- include/condy/detail/op_states.hpp and include/condy/runtime.hpp: an operation from its start to its
-- last completion.
use condy.Prelude.{
  ℕ, ◌%◌, ◌^◌, ◌<◌, ◌≡◌, refl, ap, ◌∙◌, Bool, true, false, Option, none, some, List, ◌∷◌, ◌++◌, [],
  if◌then◌else◌, Outcome, ok,
}
use condy.Prelude.Int.{ℤ}
use condy.Prelude.Words.{sub_size, sub_size-add_size}
use condy.Finish.{Cqe, Kind, Handle, Loop, process_each}
use condy.Finish.Streams.{IsStream, result_of}
use condy.Finish.Dispatch.{AllAt, process_each-Ends}
use condy.Launch.{Launch, Operation, failed_cqe, start_op}
use condy.Launch.Settle.{error_of, Receives, Settles, failed, started, start_op-Settles}

-- The completion that an operation's result comes from.
unfoldable pub final_cqe : Option ℤ → Kind → Cqe → List Cqe → Cqe
final_cqe none k c cs = result_of k c cs
final_cqe (some res) k c cs = failed_cqe res

module _ {B : Type 0} (cqe_handler : Cqe → B) where
  -- The kernel posts completions only for an operation that was started.
  unfoldable pub post : Option ℤ → List Cqe → Loop B → Outcome (Loop B)
  post none cs l = process_each cqe_handler cs l
  post (some res) cs l = ok l

module _ {B : Type 0} where
  kept :
      {A : Type 0} (get : Handle B → A) (possible : Bool) (h g : Handle B)
      → get (record h { stop_callback = true }) ≡ get h
      → g ≡ (if possible then record h { stop_callback = true } else h)
      → get g ≡ get h
  kept get true h g same e = ap get e ∙ same
  kept get false h g same e = ap get e

module _ {R S B : Type 0} (io_uring_submit : R → R) (space_left : R → ℕ) (write : ℕ → ℕ → S → R → R)
    (cqe_handler : Cqe → B) (o : Operation R S) (aligned : o.address % 8 ≡ 0)
    (small : o.address < 2 ^ 64) where
  settled :
      {k : Kind} {c : Cqe} {cs : List Cqe}
      → IsStream k (c ∷ cs)
      → (flags : ℕ) (s s' : Launch R B) (error : Option ℤ) → AllAt o.address (c ∷ cs)
      → (s.loop.handles o.address).kind ≡ k
      → (s.loop.handles o.address).deleted ≡ false
      → s.loop.pending_works < 2 ^ 64
      → Settles io_uring_submit space_left write cqe_handler flags o s error s'
      → (l' : Loop B) × (post cqe_handler error (c ∷ cs) s'.loop ≡ ok l')
        × Receives (cqe_handler (final_cqe error k c cs)) o.address s.loop l'
  unfolding post final_cqe
  settled stream flags s _ _ at kind live bound (failed res r l' f) = (l', refl, f)
  settled {k} {c} {cs} stream flags s _ _ at kind live bound (started sqe r l1 e f) =
      let h = s.loop.handles o.address in
      let (l', eq, d) =
        process_each-Ends cqe_handler o.address aligned small stream l1 at
          (kept (λ (g : Handle B). g.kind) o.stop_possible h _ refl f.waiting ∙ kind)
          (kept (λ (g : Handle B). g.deleted) o.stop_possible h _ refl f.waiting ∙ live) in
      (
        l',
        eq,
        record {
          pending =
              d.pending
              ∙ ap (λ (n : ℕ). sub_size n 1) f.pending
              ∙ sub_size-add_size s.loop.pending_works bound;
          received =
              d.received
              ∙ ap (λ (bs : List B). bs ++ cqe_handler (result_of k c cs) ∷ [])
                  (kept (λ (g : Handle B). g.received) o.stop_possible h _ refl f.waiting);
          no_callback = d.no_callback;
          others = λ q ne. d.others q ne ∙ f.others q ne;
        },
      )

  -- An operation whose live handle stands at a multiple of 8 below `2 ^ 64` is started, with fewer than
  -- `2 ^ 64` works pending; if it did not fail at once, the completions that a kernel posts for
  -- it are processed in order. No step is at fault, and in the end the receiver has got exactly one
  -- result, the error or that of its completion, as many works are pending as before the start, no stop
  -- callback is left, and no other handle is touched.
  pub start_op-Receives :
      (has_runtime : Bool) (flags : ℕ) {k : Kind} {c : Cqe} {cs : List Cqe}
      → IsStream k (c ∷ cs)
      → (s : Launch R B) → AllAt o.address (c ∷ cs)
      → (s.loop.handles o.address).kind ≡ k
      → (s.loop.handles o.address).deleted ≡ false
      → s.loop.pending_works < 2 ^ 64
      → let error = error_of has_runtime o s.ring in
        (s' : Launch R B) × (l' : Loop B) × (start_op io_uring_submit space_left write cqe_handler
            has_runtime flags o s
          ≡ ok s')
        × (post cqe_handler error (c ∷ cs) s'.loop ≡ ok l')
        × Receives (cqe_handler (final_cqe error k c cs)) o.address s.loop l'
  start_op-Receives has_runtime flags stream s at kind live bound =
      let (s', e, f) =
        start_op-Settles io_uring_submit space_left write cqe_handler has_runtime flags o s aligned
          live in
      let (l', e', g) = settled stream flags s s' _ at kind live bound f in (s', l', e, e', g)
