-- ===== src/Channel/Sessions/Keeps.antt =====
-- include/condy/channel.hpp: no handle of a channel is lost, and none is told twice.
use condy.Prelude.{
  ℕ, ◌+◌, ◌%◌, ◌^◌, ◌≤◌, ◌≡◌, refl, ap, ◌∙◌, Bool, false, List, [], ◌∷◌, if◌then◌else◌, Outcome, ok,
  ◌==◌, arith,
}
use condy.Prelude.Words.{bit_ceil}
use condy.Codes.{ecanceled}
use condy.Channel.{Channel, push_done, pop_done, create, cancel_push, cancel_pop}
use condy.Channel.Bounded
use condy.Channel.Bounded.{Bounded}
use condy.Channel.Close.{cancel-Rep}
use condy.Channel.New.{create-Rep, fresh}
use condy.Channel.Push.{request_push-Does}
use condy.Channel.Pop.{request_pop-Does}
use condy.Channel.Handles.{
  Session, is_eagain, started, start_push, start_pop, cancel_push_handle, cancel_pop_handle,
}
use condy.Channel.Run.{
  pushes, push_waits, pops, pop_waits, push_cancels, pop_cancels, closes, spec_step,
}
use condy.Channel.Weights.{weigh, weigh_pushes, weigh_told, weight, if_waits, if_found}
use condy.Channel.Weights.Steps.{spec_step-weight}
use condy.Channel.Sessions.{
  Act, starts_push, starts_pop, cancels_push, cancels_pop, offers, takes, shuts, delivers, perform,
  perform_all, start_of, starts, under_way, new_session, AllNew,
}
use condy.Channel.Sessions.Kept.{
  Kept, Keeps, started-Kept, called-Kept, deliver-Kept, cancelled-Kept,
}

module _ {A : Type 0} where
  perform-Keeps :
      (d : A) (a : Act A) (ids : List ℕ) (s : Session A) (q : Bounded A)
      → AllNew ids
      → Kept ids s q
      → Keeps (start_of a ids) (perform d a s)
  unfolding perform start_push start_pop cancel_push_handle cancel_pop_handle spec_step
      Bounded.unpush Bounded.unpop
  perform-Keeps d (starts_push possible id x) ids s q new k =
      let (c, eq, rep) = request_push-Does k.rep id x in
      let now = Bounded.push_wait (record { id = id; item = x; fake = false }) q in
      let (plain, _) = spec_step-weight (λ _. 1) d (push_waits id x) q k.plain in
      let more : (w : ℕ → ℕ) → weight w now.1 ≡ weight w q + if_waits w now.0 id =
        λ w. omega (arith, (spec_step-weight w d (push_waits id x) q k.plain).1) in
      (
        started (is_eagain now.0) possible id (push_done id now.0)
            (record s { channel = c; runtimes = id ∷ s.runtimes }),
        now.1,
        simp eq,
        started-Kept now.0 possible id (push_done id now.0) ids s q now.1 c k rep plain more
            (λ w. refl),
      )
  perform-Keeps d (starts_pop possible id) ids s q new k =
      let (c, eq, rep) = request_pop-Does k.rep d id in
      let now = Bounded.pop_wait d id q in
      let (plain, _) = spec_step-weight (λ _. 1) d (pop_waits id) q k.plain in
      let more : (w : ℕ → ℕ) → weight w now.1 ≡ weight w q + if_waits w now.0.0 id =
        λ w. omega (arith, (spec_step-weight w d (pop_waits id) q k.plain).1) in
      (
        started (is_eagain now.0.0) possible id (pop_done id now.0.0 now.0.1)
            (record s { channel = c; runtimes = id ∷ s.runtimes }),
        now.1,
        simp eq,
        started-Kept now.0.0 possible id (pop_done id now.0.0 now.0.1) ids s q now.1 c k rep plain
            more (λ w. refl),
      )
  perform-Keeps d (cancels_push id) ids s q new k =
      let (same, rep, _, _) = cancel-Rep k.rep id in
      let b : Bool = (cancel_push id s.channel).0 in
      let c : Channel A = (cancel_push id s.channel).1 in
      let (plain, _) = spec_step-weight (λ _. 1) d (push_cancels id) q k.plain in
      let less : (w : ℕ → ℕ) → weight w (Bounded.unpush id q).1 + if_found w b id ≡ weight w q =
        λ w.
          ap (λ (t : Bool). weight w (Bounded.unpush id q).1 + if_found w t id) same
          ∙ omega (arith, (spec_step-weight w d (push_cancels id) q k.plain).1) in
      cancelled-Kept b id (push_done id ecanceled) ids s q (Bounded.unpush id q).1 c new k rep plain
        less (λ w. refl)
  perform-Keeps d (cancels_pop id) ids s q new k =
      let (_, _, same, rep) = cancel-Rep k.rep id in
      let b : Bool = (cancel_pop id s.channel).0 in
      let c : Channel A = (cancel_pop id s.channel).1 in
      let (plain, _) = spec_step-weight (λ _. 1) d (pop_cancels id) q k.plain in
      let less : (w : ℕ → ℕ) → weight w (Bounded.unpop id q).1 + if_found w b id ≡ weight w q = λ w.
        ap (λ (t : Bool). weight w (Bounded.unpop id q).1 + if_found w t id) same
        ∙ omega (arith, (spec_step-weight w d (pop_cancels id) q k.plain).1) in
      cancelled-Kept b id (pop_done id ecanceled d) ids s q (Bounded.unpop id q).1 c new k rep plain
        less (λ w. refl)
  perform-Keeps d (offers x) ids s q new k =
      let (c, eq, k1) = called-Kept d (pushes x) ids s q k (λ w. refl) (λ w. refl) in
      (record s { channel = c }, (spec_step d (pushes x) q).1, simp eq, k1)
  perform-Keeps d takes ids s q new k =
      let (c, eq, k1) = called-Kept d pops ids s q k (λ w. refl) (λ w. refl) in
      (record s { channel = c }, (spec_step d pops q).1, simp eq, k1)
  perform-Keeps d shuts ids s q new k =
      let (c, eq, k1) = called-Kept d closes ids s q k (λ w. refl) (λ w. refl) in
      (record s { channel = c }, (spec_step d closes q).1, simp eq, k1)
  perform-Keeps d delivers ids s q new k = deliver-Kept s.channel.scheduled ids s q k refl

  start_of-AllNew : (a : Act A) (ids : List ℕ) → AllNew (start_of a ids) → AllNew ids
  start_of-AllNew (starts_push possible id x) ids (fresh, new) = new
  start_of-AllNew (starts_pop possible id) ids (fresh, new) = new
  start_of-AllNew (cancels_push id) ids new = new
  start_of-AllNew (cancels_pop id) ids new = new
  start_of-AllNew (offers x) ids new = new
  start_of-AllNew takes ids new = new
  start_of-AllNew shuts ids new = new
  start_of-AllNew delivers ids new = new

  starts-AllNew : (acts : List (Act A)) (ids : List ℕ) → AllNew (starts acts ids) → AllNew ids
  starts-AllNew [] ids new = new
  starts-AllNew (a ∷ acts) ids new = start_of-AllNew a ids (starts-AllNew acts (start_of a ids) new)

  perform_all-Keeps :
      (d : A) (acts : List (Act A)) (ids : List ℕ) (s : Session A) (q : Bounded A)
      → AllNew (starts acts ids)
      → Kept ids s q
      → Keeps (starts acts ids) (perform_all d acts s)
  unfolding perform_all
  perform_all-Keeps d [] ids s q new k = (s, q, refl, k)
  perform_all-Keeps d (a ∷ acts) ids s q new k =
      let (s1, q1, eq, k1) = perform-Keeps d a ids s q (starts-AllNew (a ∷ acts) ids new) k in
      let (s2, q2, eq2, k2) = perform_all-Keeps d acts (start_of a ids) s1 q1 new k1 in
      (s2, q2, simp (eq, eq2), k2)

  abbrev pub Accounts : List (Act A) → Outcome (Session A) → Type 0
  Accounts acts m =
      (s : Session A) × (m ≡ ok s)
      × (s.pending_works ≡ under_way (λ _. 1) s.channel % 2 ^ 64)
      × ((w : ℕ → ℕ) → weigh_told w s.received + under_way w s.channel ≡ weigh w (starts acts []))

  -- From a new channel of a capacity up to `2^63`, any history of waiting pushes and pops, in which no
  -- handle is started twice, of cancellations, of calls that do not wait and of closing, in which the
  -- runtime invokes what is scheduled at any time, fails no assertion of the channel, of `cancel_` or of
  -- `invoke`. Then the works that the runtime has pending are the handles that wait or are scheduled,
  -- modulo `2 ^ 64`, and, whatever the weight of each handle, the handles that were started are those
  -- whose receiver got a result, those that wait and those that are scheduled: none is lost, and none
  -- gets two results.
  pub perform_all-Accounts :
      (d : A) (n : ℕ) (acts : List (Act A))
      → n ≤ 2 ^ 63
      → AllNew (starts acts [])
      → Accounts acts (perform_all d acts (new_session n))
  unfolding create
  perform_all-Accounts d n acts h new =
      let q0 : Bounded A = fresh (if n == 0 then 0 else bit_ceil n) in
      let (s, q, eq, k) = perform_all-Keeps d acts [] (new_session n) q0 new (record {
        rep = (create-Rep n h).0;
        plain = tt;
        begun = refl;
        pending = refl;
        all = λ w. refl;
      }) in
      let same : (w : ℕ → ℕ) → under_way w s.channel ≡ weight w q = λ w. omega (
        arith,
        ap (weigh_pushes w) k.rep.pushes,
        ap (weigh w) k.rep.pops,
        ap (weigh_told w) k.rep.told,
      ) in
      (s, eq, omega (arith, k.pending, same (λ _. 1)), λ w. omega (arith, k.all w, same w))
