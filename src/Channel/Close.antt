-- ===== src/Channel/Close.antt =====
-- Cancellation and closing of a channel against the bounded queue.
use condy.Prelude.{
  ℕ, ◌≡◌, refl, sym, ap, ◌∙◌, ◌⊎◌, inl, inr, Bool, true, false, List, [], ◌∷◌, ◌++◌, append-nil,
  append_assoc, ==_iff, ok, arith,
}
use condy.Codes.{epipe}
use condy.Channel.{
  Channel, remove_push, remove_pop, cancel_push, cancel_pop, PushHandle, Event, empty_inner,
  full_inner, cancel_push, cancel_pop, close_pops, close_pushes, push_close, finish_push,
  finish_pop,
}
use condy.Channel.Buffer.{Ring-frame}
use condy.Channel.Bounded
use condy.Channel.Bounded.{Bounded, IsValid}
use condy.Channel.Refine.{Rep, drained, full-eq}

module _ {A : Type 0} where
  close_pops-eq :
      (d : A) (ps : List ℕ) (c : Channel A)
      → (ps ≡ []) ⊎ (empty_inner c ≡ true)
      → close_pops d ps c
        ≡ ok (record c { pop_awaiters = []; scheduled = c.scheduled ++ Bounded.pops_told d ps })
  unfolding close_pops
  close_pops-eq d [] c h =
      ap (λ (t : List (Event A)). ok (record c { pop_awaiters = []; scheduled = t }))
        (sym (append-nil c.scheduled))
  close_pops-eq d (p ∷ ps) c h =
      let e : empty_inner c ≡ true = ground arith in
      rw e (
        close_pops-eq d ps (finish_pop p epipe d (record c { pop_awaiters = ps })) (inr e)
        ∙ ap (λ (t : List (Event A)). ok (record c { pop_awaiters = []; scheduled = t }))
            (append_assoc c.scheduled _ _))

  close_pushes-eq :
      (hs : List (PushHandle A)) (c : Channel A)
      → (hs ≡ []) ⊎ (full_inner c ≡ true)
      → close_pushes hs c
        ≡ ok (record c { push_awaiters = []; scheduled = c.scheduled ++ Bounded.pushes_told hs })
  unfolding close_pushes
  close_pushes-eq [] c h =
      ap (λ (t : List (Event A)). ok (record c { push_awaiters = []; scheduled = t }))
        (sym (append-nil c.scheduled))
  close_pushes-eq (x ∷ hs) c h =
      let e : full_inner c ≡ true = ground arith in
      rw e (
        close_pushes-eq hs (finish_push x epipe (record c { push_awaiters = hs })) (inr e)
        ∙ ap (λ (t : List (Event A)). ok (record c { push_awaiters = []; scheduled = t }))
            (append_assoc c.scheduled _ _))

module _ {A : Type 0} {c : Channel A} {q : Bounded A} (r : Rep c q) where
  -- On a channel that stands for a valid bounded queue, `cancel_push_` and `cancel_pop_` take the handle out of those that wait, if it is there, and say
  -- whether it was; nothing else changes.
  pub cancel-Rep :
      (id : ℕ)
      → ((cancel_push id c).0 ≡ (Bounded.unpush id q).0)
        × Rep (cancel_push id c).1 (Bounded.unpush id q).1
        × ((cancel_pop id c).0 ≡ (Bounded.unpop id q).0)
        × Rep (cancel_pop id c).1 (Bounded.unpop id q).1
  unfolding cancel_push cancel_pop remove_push remove_pop Bounded.unpush Bounded.unpop
  cancel-Rep id = (
    ap (λ (t : List (PushHandle A)). (remove_push id t).1) r.pushes,
    record {
      ring = Ring-frame r.ring _ c.pop_awaiters c.closed c.scheduled;
      bound = r.bound;
      pushes = ap (λ (t : List (PushHandle A)). (remove_push id t).0) r.pushes;
      pops = r.pops;
      shut = r.shut;
      told = r.told;
      valid = record {
        within = r.valid.within;
        full_if_push = elim r.valid.full_if_push [ inl e ↦ inl (no_push e) | inr e ↦ inr e ];
        empty_if_pop = elim r.valid.empty_if_pop [ inl e ↦ inl e | inr e ↦ inr (e.0, no_push e.1) ];
        none_if_shut = elim r.valid.none_if_shut [ inl e ↦ inl e | inr e ↦ inr (e.0, no_push e.1) ];
      };
    },
    ap (λ (t : List ℕ). (remove_pop id t).1) r.pops,
    record {
      ring = Ring-frame r.ring c.push_awaiters _ c.closed c.scheduled;
      bound = r.bound;
      pushes = r.pushes;
      pops = ap (λ (t : List ℕ). (remove_pop id t).0) r.pops;
      shut = r.shut;
      told = r.told;
      valid = record {
        within = r.valid.within;
        full_if_push = r.valid.full_if_push;
        empty_if_pop = elim r.valid.empty_if_pop [ inl e ↦ inl (no_pop e) | inr e ↦ inr e ];
        none_if_shut = elim r.valid.none_if_shut [ inl e ↦ inl e | inr e ↦ inr (no_pop e.0, e.1) ];
      };
    },
  )
    where
      no_push : q.pushes ≡ [] → (remove_push id q.pushes).0 ≡ []
      no_push e = ap (λ (t : List (PushHandle A)). (remove_push id t).0) e

      no_pop : q.pops ≡ [] → (remove_pop id q.pops).0 ≡ []
      no_pop e = ap (λ (t : List ℕ). (remove_pop id t).0) e

  close_as-Rep :
      (b : Bool) (d : A)
      → q.shut ≡ b
      → (c' : Channel A) × (push_close d c ≡ ok c') × Rep c' (Bounded.close_as b d q)
  unfolding push_close
  close_as-Rep true d e = (c, simp (r.shut ∙ e), r)
  close_as-Rep false d e = (
    shut_channel,
    simp (
      r.shut ∙ e,
      close_pops-eq d c.pop_awaiters (record c { closed = true }) no_pops,
      close_pushes-eq c.push_awaiters after_pops no_pushes,
    ),
    record {
      ring = Ring-frame r.ring [] [] true _;
      bound = r.bound;
      pushes = refl;
      pops = refl;
      shut = refl;
      told = told_eq;
      valid = record {
        within = r.valid.within;
        full_if_push = inl refl;
        empty_if_pop = inl refl;
        none_if_shut = inr (refl, refl);
      };
    },
  )
    where
      no_pops : (c.pop_awaiters ≡ []) ⊎ (empty_inner c ≡ true)
      no_pops = elim r.valid.empty_if_pop [ inl i ↦ inl (r.pops ∙ i) | inr i ↦ inr (drained r i.0) ]

      no_pushes : (c.push_awaiters ≡ []) ⊎ (full_inner c ≡ true)
      no_pushes = elim r.valid.full_if_push [
        | inl i ↦ inl (r.pushes ∙ i)
        | inr i ↦ inr (full-eq r ∙ (==_iff _ _).1 i)
      ]

      after_pops : Channel A
      after_pops = record c {
        closed = true;
        pop_awaiters = [];
        scheduled = c.scheduled ++ Bounded.pops_told d c.pop_awaiters;
      }

      shut_channel : Channel A
      shut_channel = record after_pops {
        push_awaiters = [];
        scheduled = after_pops.scheduled ++ Bounded.pushes_told c.push_awaiters;
      }

      told_eq :
          (c.scheduled ++ Bounded.pops_told d c.pop_awaiters) ++ Bounded.pushes_told c.push_awaiters
          ≡ (q.told ++ Bounded.pops_told d q.pops) ++ Bounded.pushes_told q.pushes
      told_eq = cc (r.told, r.pops, r.pushes)

  -- On a channel that stands for a valid bounded queue, `push_close` closes as specified: every pop that waits is told -EPIPE, then every
  -- push, oldest first; a second call changes nothing; no assertion in it fails.
  pub push_close-Rep :
      (d : A) → (c' : Channel A) × (push_close d c ≡ ok c') × Rep c' (Bounded.close d q)
  unfolding Bounded.close
  push_close-Rep d = close_as-Rep q.shut d refl
