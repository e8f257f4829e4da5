-- ===== src/Finish/Dispatch.antt =====
-- include/condy/runtime.hpp: the completions of an operation reach its handle, which is done once.
use condy.Prelude.{
  ℕ, ◌%◌, ◌^◌, ◌<◌, ◌≡◌, ◌≢◌, refl, sym, ap, ◌∙◌, false, List, [], ◌∷◌, ◌++◌, map, ==_ne, ==_iff,
  append-nil, append_assoc, ok,
}
use condy.Prelude.Int.{pos}
use condy.Prelude.Words.{sub_size}
use condy.Work.Tags.{decode_work-aligned}
use condy.Finish.{
  Cqe, Kind, op, multi_shot, zero_copy, Handle, finish, notify, handle_as, handle, Loop,
  resume_work, put, settle, finish_at, process_cqe, process_each,
}
use condy.Finish.Streams.{
  IsStream, single, shot, last_shot, lone, released, result_of, shots_of, releases_of,
}

-- All completions of a list carry the address of the handle.
abbrev pub AllAt : ℕ → List Cqe → Type 0
AllAt p [] = Unit {0}
AllAt p (c ∷ cs) = (c.user_data ≡ p) × AllAt p cs

module _ {B : Type 0} where
  put_self : (p : ℕ) (h : Handle B) (l : Loop B) → (put p h l).handles p ≡ h
  put_self p h l = simp ((==_iff p p).1 refl)

  put_other : (p q : ℕ) (h : Handle B) (l : Loop B) → q ≢ p → (put p h l).handles q ≡ l.handles q
  put_other p q h l ne = simp (==_ne q p ne)

module _ {B : Type 0} (cqe_handler : Cqe → B) where
  -- What is true of the loop after the completions `c ∷ cs` of the operation of kind `k` at `p`: one
  -- pending work less, no other handle touched, one result received, the multishot function and the
  -- release function called for what is theirs, and no stop callback left.
  pub record Done (k : Kind) (p : ℕ) (c : Cqe) (cs : List Cqe) (l l' : Loop B) : Type 0 where
    pub pending : l'.pending_works ≡ sub_size l.pending_works 1
    pub others : (q : ℕ) → q ≢ p → l'.handles q ≡ l.handles q
    pub received :
        (l'.handles p).received ≡ (l.handles p).received ++ cqe_handler (result_of k c cs) ∷ []
    pub called : (l'.handles p).called ≡ (l.handles p).called ++ map cqe_handler (shots_of k c cs)
    pub freed : (l'.handles p).freed ≡ (l.handles p).freed ++ releases_of k cs
    pub no_callback : (l'.handles p).stop_callback ≡ false

  process_cqe-at :
      (p : ℕ) (k : Kind) (c : Cqe) (l : Loop B)
      → p % 8 ≡ 0
      → p < 2 ^ 64
      → c.user_data ≡ p
      → (l.handles p).kind ≡ k
      → (l.handles p).deleted ≡ false
      → process_cqe cqe_handler c l ≡ ok (settle p (handle_as cqe_handler k c (l.handles p)) l)
  unfolding process_cqe finish_at handle
  process_cqe-at p k c l aligned small at kind live =
      simp (at, decode_work-aligned p aligned small, live, kind)

  abbrev pub Ends : Kind → ℕ → Cqe → List Cqe → Loop B → Type 0
  Ends k p c cs l =
      (l' : Loop B) × (process_each cqe_handler (c ∷ cs) l ≡ ok l') × Done k p c cs l l'

  -- A last completion, after which the handle is `h`.
  closing :
      (k : Kind) (p : ℕ) (c : Cqe) (l : Loop B) (h : Handle B)
      → h.received ≡ (l.handles p).received ++ cqe_handler (result_of k c []) ∷ []
      → h.called ≡ (l.handles p).called ++ map cqe_handler (shots_of k c [])
      → h.freed ≡ (l.handles p).freed ++ releases_of k []
      → h.stop_callback ≡ false
      → Done k p c [] l (resume_work (put p h l))
  unfolding resume_work
  closing k p c l h got shots freed quiet = record {
    pending = refl;
    others = λ q ne. put_other p q h l ne;
    received = ap (λ (g : Handle B). g.received) (put_self p h l) ∙ got;
    called = ap (λ (g : Handle B). g.called) (put_self p h l) ∙ shots;
    freed = ap (λ (g : Handle B). g.freed) (put_self p h l) ∙ freed;
    no_callback = ap (λ (g : Handle B). g.stop_callback) (put_self p h l) ∙ quiet;
  }

  module _ (p : ℕ) (aligned : p % 8 ≡ 0) (small : p < 2 ^ 64) where
    -- When the completions that a kernel posts for an operation whose live handle is at `p`, a multiple
    -- of 8 below `2 ^ 64`, are
    -- processed in order, none fails an assertion or uses a deleted handle, and the operation is done
    -- exactly once.
    pub process_each-Ends :
        {k : Kind} {c : Cqe} {cs : List Cqe}
        → IsStream k (c ∷ cs)
        → (l : Loop B) → AllAt p (c ∷ cs)
        → (l.handles p).kind ≡ k
        → (l.handles p).deleted ≡ false
        → Ends k p c cs l
    unfolding process_each handle_as finish notify resume_work
    process_each-Ends (single {c}) l (at, _) kind live =
        let g = l.handles p in
        (
          _,
          simp (process_cqe-at p op c l aligned small at kind live),
          closing op p c l (finish cqe_handler c g) refl (sym (append-nil g.called))
              (sym (append-nil g.freed)) refl,
        )
    process_each-Ends (last_shot {c} last) l (at, _) kind live =
        let g = l.handles p in
        (
          _,
          simp (process_cqe-at p multi_shot c l aligned small at kind live, last),
          closing multi_shot p c l (finish cqe_handler c g) refl (sym (append-nil g.called))
              (sym (append-nil g.freed)) refl,
        )
    process_each-Ends (shot {c} {d} {cs} more rest) l (at, ats) kind live =
        let h = record (l.handles p) { called = (l.handles p).called ++ cqe_handler c ∷ [] } in
        let self = put_self p h l in
        let (l', eq, e) =
          process_each-Ends rest (put p h l) ats (ap (λ (g : Handle B). g.kind) self ∙ kind)
            (ap (λ (g : Handle B). g.deleted) self ∙ live) in
        (
          l',
          simp (process_cqe-at p multi_shot c l aligned small at kind live, more) eq,
          record {
            pending = e.pending;
            others = λ q ne. e.others q ne ∙ put_other p q h l ne;
            received =
                e.received
                ∙ ap (λ (g : Handle B). g.received ++ cqe_handler (result_of multi_shot d cs) ∷ [])
                    self;
            called =
                e.called
                ∙ ap (λ (g : Handle B). g.called ++ map cqe_handler (shots_of multi_shot d cs)) self
                ∙ append_assoc (l.handles p).called (cqe_handler c ∷ []) _;
            freed = e.freed ∙ ap (λ (g : Handle B). g.freed ++ []) self;
            no_callback = e.no_callback;
          },
        )
    process_each-Ends (lone {c} last plain) l (at, _) kind live =
        let g = l.handles p in
        (
          _,
          simp (process_cqe-at p zero_copy c l aligned small at kind live, last, plain),
          closing zero_copy p c l (notify cqe_handler (pos 0) (finish cqe_handler c g)) refl
              (sym (append-nil g.called)) refl refl,
        )
    process_each-Ends (released {c} {n} more last notice) l (at, (at', _)) kind live =
        let h = finish cqe_handler c (l.handles p) in
        let self = put_self p h l in
        let l1 = put p h l in
        let again = put_self p (notify cqe_handler n.res (l1.handles p)) l1 in
        (
          resume_work (put p (notify cqe_handler n.res (l1.handles p)) l1),
          simp (
            process_cqe-at p zero_copy c l aligned small at kind live,
            more,
            process_cqe-at p zero_copy n l1 aligned small at'
                (ap (λ (g : Handle B). g.kind) self ∙ kind)
                (ap (λ (g : Handle B). g.deleted) self ∙ live),
            last,
            notice,
          ),
          record {
            pending = refl;
            others = λ q ne.
                put_other p q (notify cqe_handler n.res (l1.handles p)) l1 ne
                ∙ put_other p q h l ne;
            received =
                ap (λ (g : Handle B). g.received) again ∙ ap (λ (g : Handle B). g.received) self;
            called =
                ap (λ (g : Handle B). g.called) again
                ∙ ap (λ (g : Handle B). g.called) self
                ∙ sym (append-nil (l.handles p).called);
            freed =
                ap (λ (g : Handle B). g.freed) again
                ∙ ap (λ (g : Handle B). g.freed ++ n.res ∷ []) self;
            no_callback =
                ap (λ (g : Handle B). g.stop_callback) again
                ∙ ap (λ (g : Handle B). g.stop_callback) self;
          },
        )
