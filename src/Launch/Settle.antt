-- ===== src/Launch/Settle.antt =====
-- include/condy/detail/op_states.hpp: a started operation has failed at once or is pending, never both.
use condy.Prelude.{
  ℕ, ◌%◌, ◌≡◌, ◌≢◌, refl, ap, ◌∙◌, Bool, true, false, Option, none, some, [], ◌∷◌, ◌++◌,
  if◌then◌else◌, Bool-cases, Option-cases, ==_iff, ==_ne, inl, inr, ok,
}
use condy.Prelude.Int.{ℤ, pos, negsuc}
use condy.Prelude.Bits.{bit_or-zero}
use condy.Prelude.Words.{add_size}
use condy.Work.{common, tag, encode_work_ptr}
use condy.Ring.{Ring, maybe_submit}
use condy.Finish.{
  Cqe, Kind, op, multi_shot, zero_copy, Handle, Loop, pend_work, put, finish, notify, handle_as,
  handle,
}
use condy.Launch.{
  Launch, Operation, einval, ecanceled, failed_cqe, fail, maybe_set_cancel, start_sqe, start_op,
}

module _ {R S : Type 0} where
  -- Why an operation cannot be started.
  unfoldable pub error_of : Bool → Operation R S → Ring R → Option ℤ
  error_of false o r = some einval
  error_of true o r =
      if o.stop_requested
      then some ecanceled
      else elim (o.prep_func r).0 [ some sqe ↦ none | none ↦ some einval ]

module _ {B : Type 0} where
  -- The receiver of the handle at `p` got the result `b`, nothing is pending, and no other handle is
  -- touched.
  pub record Receives (b : B) (p : ℕ) (l l' : Loop B) : Type 0 where
    pub pending : l'.pending_works ≡ l.pending_works
    pub received : (l'.handles p).received ≡ (l.handles p).received ++ b ∷ []
    pub no_callback : (l'.handles p).stop_callback ≡ false
    pub others : (q : ℕ) → q ≢ p → l'.handles q ≡ l.handles q

  -- One more work is pending, and the handle at `p` got nothing yet.
  pub record Pends (p : ℕ) (possible : Bool) (l l' : Loop B) : Type 0 where
    pub pending : l'.pending_works ≡ add_size l.pending_works 1
    pub waiting :
        l'.handles p
        ≡ (if possible then record (l.handles p) { stop_callback = true } else l.handles p)
    pub others : (q : ℕ) → q ≢ p → l'.handles q ≡ l.handles q

put_self : {B : Type 0} (p : ℕ) (h : Handle B) (l : Loop B) → (put p h l).handles p ≡ h
put_self p h l = simp ((==_iff p p).1 refl)

put_other :
    {B : Type 0} (p q : ℕ) (h : Handle B) (l : Loop B) → q ≢ p → (put p h l).handles q ≡ l.handles q
put_other p q h l ne = simp (==_ne q p ne)

pub encode_common : (p : ℕ) → p % 8 ≡ 0 → encode_work_ptr p common ≡ ok p
unfolding encode_work_ptr tag
encode_common p aligned = simp ((==_iff (p % 8) 0).1 aligned, bit_or-zero p)

module _ {B : Type 0} (cqe_handler : Cqe → B) where
  fails_with :
      (res : ℤ) (p : ℕ) (l : Loop B) (h : Handle B)
      → h.received ≡ (l.handles p).received ++ cqe_handler (failed_cqe res) ∷ []
      → h.stop_callback ≡ false
      → Receives (cqe_handler (failed_cqe res)) p l (put p h l)
  fails_with res p l h got quiet = record {
    pending = refl;
    received = ap (λ (g : Handle B). g.received) (put_self p h l) ∙ got;
    no_callback = ap (λ (g : Handle B). g.stop_callback) (put_self p h l) ∙ quiet;
    others = λ q ne. put_other p q h l ne;
  }

module _ {R B : Type 0} (cqe_handler : Cqe → B) where
  -- A failure is received once, by a handle of any kind.
  abbrev Failed : ℕ → ℕ → Launch R B → Type 0
  Failed n p s =
      (l' : Loop B) × (fail cqe_handler (negsuc n) p s ≡ ok (record s { loop = l' }))
      × Receives (cqe_handler (failed_cqe (negsuc n))) p s.loop l'

  fail_as :
      (k : Kind) (n p : ℕ) (s : Launch R B)
      → (s.loop.handles p).kind ≡ k
      → (s.loop.handles p).deleted ≡ false
      → Failed n p s
  unfolding fail handle handle_as finish notify
  fail_as op n p s kind live =
      let h = finish cqe_handler (failed_cqe (negsuc n)) (s.loop.handles p) in
      (put p h s.loop, simp (kind, live), fails_with cqe_handler (negsuc n) p s.loop h refl refl)
  fail_as multi_shot n p s kind live =
      let h = finish cqe_handler (failed_cqe (negsuc n)) (s.loop.handles p) in
      (put p h s.loop, simp (kind, live), fails_with cqe_handler (negsuc n) p s.loop h refl refl)
  fail_as zero_copy n p s kind live =
      let h =
        notify cqe_handler (pos 0)
          (finish cqe_handler (failed_cqe (negsuc n)) (s.loop.handles p)) in
      (put p h s.loop, simp (kind, live), fails_with cqe_handler (negsuc n) p s.loop h refl refl)

  fail_lem : (n p : ℕ) (s : Launch R B) → (s.loop.handles p).deleted ≡ false → Failed n p s
  fail_lem n p s live = fail_as (s.loop.handles p).kind n p s refl live

module _ {R S B : Type 0} where
  maybe_set_cancel-Pends :
      (o : Operation R S) (r : Ring R) (l : Loop B)
      → (b : Bool) → o.stop_possible ≡ b
      → (l' : Loop B) × (maybe_set_cancel o (record { ring = r; loop = pend_work l })
          ≡ record { ring = r; loop = l' })
        × Pends o.address b l l'
  unfolding maybe_set_cancel pend_work
  maybe_set_cancel-Pends o r l true may =
      let p = o.address in
      let h = record (l.handles p) { stop_callback = true } in
      (
        put p h (pend_work l),
        simp may,
        record {
          pending = refl;
          waiting = put_self p h (pend_work l);
          others = λ q ne. put_other p q h (pend_work l) ne;
        },
      )
  maybe_set_cancel-Pends o r l false may =
      (pend_work l, simp may, record { pending = refl; waiting = refl; others = λ q ne. refl })

module _ {R S B : Type 0} (io_uring_submit : R → R) (space_left : R → ℕ) (write : ℕ → ℕ → S → R → R)
    (cqe_handler : Cqe → B) where
  -- The launch after an operation is started: it failed, or an entry is written with the flags and
  -- the address of the handle as its work, and counted by the ring.
  pub data Settles (flags : ℕ) (o : Operation R S) (s : Launch R B)
      : Option ℤ → Launch R B → Type 0 where
    failed :
        (res : ℤ) (r : Ring R) (l' : Loop B)
        → Receives (cqe_handler (failed_cqe res)) o.address s.loop l'
        → Settles flags o s (some res) (record { ring = r; loop = l' })
    started :
        (sqe : S) (r : Ring R) (l' : Loop B)
        → o.prep_func s.ring ≡ (some sqe, r)
        → Pends o.address o.stop_possible s.loop l'
        → Settles flags o s none (record {
          ring =
              maybe_submit io_uring_submit (record r { ring = write flags o.address sqe r.ring });
          loop = l';
        })

  -- When the handle of an operation is alive, at an address that is a multiple of 8, then starting the
  -- operation ends without a fault. With no runtime, with a stop already requested or with no
  -- entry, the handle's receiver gets that one error, whatever the kind of the handle, and nothing is
  -- pending; else one work is pending, nothing is received yet, and the entry that the prep function
  -- gave carries the flags and the address.
  pub start_op-Settles :
      (has_runtime : Bool) (flags : ℕ) (o : Operation R S) (s : Launch R B)
      → o.address % 8 ≡ 0
      → (s.loop.handles o.address).deleted ≡ false
      → (s' : Launch R B) × (start_op io_uring_submit space_left write cqe_handler has_runtime flags
            o s
          ≡ ok s')
        × Settles flags o s (error_of has_runtime o s.ring) s'
  unfolding start_op start_sqe error_of
  start_op-Settles false flags o s aligned live =
      let (l', e, f) = fail_lem cqe_handler 21 o.address s live in
      (record s { loop = l' }, e, failed einval s.ring l' f)
  start_op-Settles true flags o s aligned live = elim (Bool-cases o.stop_requested) [
    | inl stop ↦
        let (l', e, f) = fail_lem cqe_handler 124 o.address s live in
        (record s { loop = l' }, simp (stop) e, simp (stop) (failed ecanceled s.ring l' f))
    | inr go ↦ elim (Option-cases (o.prep_func s.ring).0) [
      | inl none_left ↦
          let r = (o.prep_func s.ring).1 in
          let (l', e, f) = fail_lem cqe_handler 21 o.address (record s { ring = r }) live in
          (
            record { ring = r; loop = l' },
            simp (go, none_left) e,
            simp (go, none_left) (failed einval r l' f),
          )
      | inr (sqe, entry) ↦
          let r = (o.prep_func s.ring).1 in
          let next = record r { ring = write flags o.address sqe r.ring } in
          let counted = maybe_submit io_uring_submit next in
          let (l', e, f) = maybe_set_cancel-Pends o counted s.loop o.stop_possible refl in
          (
            record { ring = counted; loop = l' },
            simp (go, entry, encode_common o.address aligned) (ap ok e),
            simp (go, entry) (started sqe r l' (ap (λ (x : Option S). (x, r)) entry) f),
          )
    ]
  ]
