-- ===== src/Channel/Sessions/Kept.antt =====
-- include/condy/channel.hpp: what each act on a channel does to the count of its handles.
use condy.Prelude.{
  ℕ, ◌+◌, ◌^◌, ◌%◌, ◌<◌, ◌≤◌, ◌==◌, ==_iff, lt→ltb, Bool-cases, inl, inr, refl, ◌≡◌, sym, ap, ◌∙◌,
  Bool, true, false, List, [], ◌∷◌, ◌++◌, if◌then◌else◌, erase, Outcome, ok, arith,
}
use condy.Prelude.Words.{sub_size}
use condy.Codes.{Code, eagain}
use condy.Channel.{Channel, Event, push_done, pop_done, push_freed}
use condy.Channel.Bounded.{Bounded}
use condy.Channel.Refine.{Rep}
use condy.Channel.Order.{scheduled-Rep}
use condy.Channel.Handles.{
  Session, is, runtime_set, is_eagain, started, invoke, schedule_event, cancelled,
}
use condy.Channel.Run.{Op, step, spec_step, step-Does}
use condy.Channel.Weights.{
  AllPlain, weigh, weigh_event, weigh_told, weigh_told-append, weight, if_waits, if_found,
}
use condy.Channel.Weights.Steps.{added, taken, spec_step-weight}
use condy.Channel.Sessions.{deliver, AllNew}

is_self : (id : ℕ) → is id id ≡ 1
is_self id = ap {B = ℕ} (λ (b : Bool). if b then 1 else 0) ((==_iff id id).1 refl)

AllNew-once : (ids : List ℕ) → AllNew ids → (id : ℕ) → weigh (is id) ids ≤ 1
AllNew-once [] new id = omega arith
AllNew-once (x ∷ xs) (fresh, new) id = elim (Bool-cases (id == x)) [
  | inl e ↦
      let same : id ≡ x = (==_iff id x).0 e in
      omega (
        arith,
        ap (λ (y : ℕ). weigh (is y) xs) same,
        fresh,
        ap {B = ℕ} (λ (b : Bool). if b then 1 else 0) e,
      )
  | inr e ↦ omega (arith, AllNew-once xs new id, ap {B = ℕ} (λ (b : Bool). if b then 1 else 0) e)
]

module _ {A : Type 0} where
  pub record Kept (ids : List ℕ) (s : Session A) (q : Bounded A) : Type 0 where
    pub rep : Rep s.channel q
    pub plain : AllPlain q.pushes
    pub begun : s.runtimes ≡ ids
    pub pending : s.pending_works ≡ weight (λ _. 1) q % 2 ^ 64
    pub all : (w : ℕ → ℕ) → weigh_told w s.received + weight w q ≡ weigh w ids

  abbrev pub Keeps : List ℕ → Outcome (Session A) → Type 0
  Keeps ids m = (s : Session A) × (q : Bounded A) × (m ≡ ok s) × Kept ids s q

  -- The end of a start, by its code; the channel is then `c`.
  pub started-Kept :
      (r : Code) (possible : Bool) (id : ℕ) (e : Event A) (ids : List ℕ) (s : Session A)
      (q q1 : Bounded A) (c : Channel A)
      → Kept ids s q
      → Rep c q1
      → AllPlain q1.pushes
      → ((w : ℕ → ℕ) → weight w q1 ≡ weight w q + if_waits w r id)
      → ((w : ℕ → ℕ) → weigh_event w e ≡ w id)
      → Kept
          (id ∷ ids)
          (started
            (is_eagain r)
            possible
            id
            e
            (record s { channel = c; runtimes = id ∷ s.runtimes }))
          q1
  started-Kept eagain possible id e ids s q q1 c k rep p more same = record {
    rep = rep;
    plain = p;
    begun = ap (λ (xs : List ℕ). id ∷ xs) k.begun;
    pending = omega (arith, k.pending, more (λ _. 1));
    all = λ w. omega (arith, k.all w, more w);
  }
  started-Kept r possible id e ids s q q1 c k rep p more same = record {
    rep = rep;
    plain = p;
    begun = ap (λ (xs : List ℕ). id ∷ xs) k.begun;
    pending = omega (arith, k.pending, more (λ _. 1));
    all = λ w. omega (arith, k.all w, more w, same w, weigh_told-append w s.received (e ∷ []));
  }

  -- A call that tells a handle nothing by itself.
  pub called-Kept :
      (d : A) (o : Op A) (ids : List ℕ) (s : Session A) (q : Bounded A)
      → Kept ids s q
      → ((w : ℕ → ℕ) → added w o (spec_step d o q).0 ≡ 0)
      → ((w : ℕ → ℕ) → taken w o (spec_step d o q).0 ≡ 0)
      → (c : Channel A) × (step d o s.channel ≡ ok ((spec_step d o q).0, c))
        × Kept ids (record s { channel = c }) (spec_step d o q).1
  called-Kept d o ids s q k none_added none_taken =
      let (c, eq, rep) = step-Does d o k.rep in
      let (plain, _) = spec_step-weight (λ _. 1) d o q k.plain in
      let same : (w : ℕ → ℕ) → weight w (spec_step d o q).1 ≡ weight w q =
        λ w. omega (arith, (spec_step-weight w d o q k.plain).1, none_added w, none_taken w) in
      (
        c,
        eq,
        record {
          rep = rep;
          plain = plain;
          begun = k.begun;
          pending = omega (arith, k.pending, same (λ _. 1));
          all = λ w. omega (arith, k.all w, same w);
        },
      )

  -- A handle that weighs something in the queue was started.
  is_begun :
      (id : ℕ) (ids : List ℕ) (s : Session A) (q : Bounded A)
      → Kept ids s q
      → 0 < weight (is id) q
      → runtime_set id s ≡ true
  is_begun id ids s q k more =
      lt→ltb 0 (weigh (is id) s.runtimes)
        (omega (arith, more, k.all (is id), ap (weigh (is id)) k.begun))

  -- The first event that is scheduled reaches its receiver.
  pub deliver-Kept :
      (es : List (Event A)) (ids : List ℕ) (s : Session A) (q : Bounded A)
      → Kept ids s q
      → s.channel.scheduled ≡ es
      → Keeps ids (deliver es s)
  unfolding deliver invoke
  deliver-Kept [] ids s q k e = (s, q, refl, k)
  deliver-Kept (push_done id r ∷ es) ids s q k e =
      let told : (w : ℕ → ℕ) → weigh_told w q.told ≡ w id + weigh_told w es =
        λ w. ap (weigh_told w) (sym k.rep.told ∙ e) in
      let begun = is_begun id ids s q k (omega (arith, told (is id), is_self id)) in
      (
        record s {
          channel = record s.channel { scheduled = es };
          stop_callbacks = erase id s.stop_callbacks;
          pending_works = sub_size s.pending_works 1;
          received = s.received ++ push_done id r ∷ [];
        },
        record q { told = es },
        simp begun,
        record {
          rep = scheduled-Rep es k.rep;
          plain = k.plain;
          begun = k.begun;
          pending = omega (arith, k.pending, told (λ _. 1));
          all = λ w.
              omega (arith, k.all w, told w, weigh_told-append w s.received (push_done id r ∷ []));
        },
      )
  deliver-Kept (pop_done id r x ∷ es) ids s q k e =
      let told : (w : ℕ → ℕ) → weigh_told w q.told ≡ w id + weigh_told w es =
        λ w. ap (weigh_told w) (sym k.rep.told ∙ e) in
      let begun = is_begun id ids s q k (omega (arith, told (is id), is_self id)) in
      (
        record s {
          channel = record s.channel { scheduled = es };
          stop_callbacks = erase id s.stop_callbacks;
          pending_works = sub_size s.pending_works 1;
          received = s.received ++ pop_done id r x ∷ [];
        },
        record q { told = es },
        simp begun,
        record {
          rep = scheduled-Rep es k.rep;
          plain = k.plain;
          begun = k.begun;
          pending = omega (arith, k.pending, told (λ _. 1));
          all = λ w.
              omega (arith, k.all w, told w, weigh_told-append w s.received (pop_done id r x ∷ []));
        },
      )
  deliver-Kept (push_freed id ∷ es) ids s q k e = (
    record s { channel = record s.channel { scheduled = es } },
    record q { told = es },
    refl,
    record {
      rep = scheduled-Rep es k.rep;
      plain = k.plain;
      begun = k.begun;
      pending = omega (arith, k.pending, ap (weigh_told (λ _. 1)) (sym k.rep.told ∙ e));
      all = λ w. omega (arith, k.all w, ap (weigh_told w) (sym k.rep.told ∙ e));
    },
  )

  -- A handle that was taken out by a cancellation has no result yet, and is told of its own.
  pub cancelled-Kept :
      (b : Bool) (id : ℕ) (e : Event A) (ids : List ℕ) (s : Session A) (q q1 : Bounded A)
      (c : Channel A)
      → AllNew ids
      → Kept ids s q
      → Rep c q1
      → AllPlain q1.pushes
      → ((w : ℕ → ℕ) → weight w q1 + if_found w b id ≡ weight w q)
      → ((w : ℕ → ℕ) → weigh_event w e ≡ w id)
      → Keeps ids (cancelled b id e (record s { channel = c }))
  unfolding cancelled
  cancelled-Kept false id e ids s q q1 c new k rep p less same = (
    record s { channel = c },
    q1,
    refl,
    record {
      rep = rep;
      plain = p;
      begun = k.begun;
      pending = omega (arith, k.pending, less (λ _. 1));
      all = λ w. omega (arith, k.all w, less w);
    },
  )
  cancelled-Kept true id e ids s q q1 c new k rep p less same =
      let begun = is_begun id ids s q k (omega (arith, less (is id), is_self id)) in
      let unset : weigh_told (is id) c.scheduled + weigh_told (is id) s.received ≡ 0 = omega (
        arith,
        AllNew-once ids new id,
        k.all (is id),
        less (is id),
        is_self id,
        ap (weigh_told (is id)) rep.told,
      ) in
      (
        record s { channel = schedule_event e c },
        record q1 { told = c.scheduled ++ e ∷ [] },
        simp (unset, begun),
        record {
          rep = scheduled-Rep (c.scheduled ++ e ∷ []) rep;
          plain = p;
          begun = k.begun;
          pending = omega (
            arith,
            k.pending,
            less (λ _. 1),
            same (λ _. 1),
            weigh_told-append (λ _. 1) c.scheduled (e ∷ []),
            ap (weigh_told (λ _. 1)) rep.told,
          );
          all = λ w. omega (
            arith,
            k.all w,
            less w,
            same w,
            weigh_told-append w c.scheduled (e ∷ []),
            ap (weigh_told w) rep.told,
          );
        },
      )
