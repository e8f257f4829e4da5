-- ===== src/Channel/Run.antt =====
-- A history of calls, on a channel and on the bounded queue. The mutex of the channel makes every
-- interleaving of threads such a sequence. The handle of a cancelled operation stands by its identity.
use condy.Prelude.{
  ℕ, ◌^◌, ◌≤◌, refl, Bool, false, List, [], ◌∷◌, Outcome, ok, ◌>>=◌, ◌==◌, if◌then◌else◌,
}
use condy.Prelude.Words.{bit_ceil}
use condy.Codes.{Code}
use condy.Channel.{
  Channel, create, try_push, request_push, try_pop, request_pop, cancel_push, cancel_pop,
  push_close,
}
use condy.Channel.Bounded
use condy.Channel.Bounded.{Bounded}
use condy.Channel.Refine.{Rep, Does}
use condy.Channel.Push.{try_push-Does, request_push-Does}
use condy.Channel.Pop.{try_pop-Does, request_pop-Does}
use condy.Channel.Close.{cancel-Rep, push_close-Rep}
use condy.Channel.New.{create-Rep, fresh}

pub data Op (A : Type 0) : Type 0 where
  pushes : A → Op A
  push_waits : ℕ → A → Op A
  pops : Op A
  pop_waits : ℕ → Op A
  push_cancels pop_cancels : ℕ → Op A
  closes : Op A

pub data Reply (A : Type 0) : Type 0 where
  code : Code → Reply A
  item : Code → A → Reply A
  found : Bool → Reply A
  done : Reply A

module _ {A : Type 0} (d : A) where
  unfoldable pub step : Op A → Channel A → Outcome (Reply A × Channel A)
  step (pushes x) c = do (r, c1) ← try_push x c; ok (code r, c1)
  step (push_waits id x) c = do (r, c1) ← request_push id x c; ok (code r, c1)
  step pops c = do ((r, x), c1) ← try_pop d c; ok (item r x, c1)
  step (pop_waits id) c = do ((r, x), c1) ← request_pop d id c; ok (item r x, c1)
  step (push_cancels id) c = let (b, c1) = cancel_push id c in ok (found b, c1)
  step (pop_cancels id) c = let (b, c1) = cancel_pop id c in ok (found b, c1)
  step closes c = do c1 ← push_close d c; ok (done, c1)

  unfoldable pub run : List (Op A) → Channel A → Outcome (List (Reply A) × Channel A)
  unfolding step
  run [] c = ok ([], c)
  run (o ∷ os) c = do (r, c1) ← step o c; (rs, c2) ← run os c1; ok (r ∷ rs, c2)

  unfoldable pub spec_step : Op A → Bounded A → Reply A × Bounded A
  spec_step (pushes x) q = let (r, q1) = Bounded.push x q in (code r, q1)
  spec_step (push_waits id x) q =
      let (r, q1) = Bounded.push_wait (record { id = id; item = x; fake = false }) q in (code r, q1)
  spec_step pops q = let (r, q1) = Bounded.pop d q in (item r.0 r.1, q1)
  spec_step (pop_waits id) q = let (r, q1) = Bounded.pop_wait d id q in (item r.0 r.1, q1)
  spec_step (push_cancels id) q = let (b, q1) = Bounded.unpush id q in (found b, q1)
  spec_step (pop_cancels id) q = let (b, q1) = Bounded.unpop id q in (found b, q1)
  spec_step closes q = (done, Bounded.close d q)

  unfoldable pub spec_run : List (Op A) → Bounded A → List (Reply A) × Bounded A
  unfolding spec_step
  spec_run [] q = ([], q)
  spec_run (o ∷ os) q = let (r, q1) = spec_step o q in let (rs, q2) = spec_run os q1 in (r ∷ rs, q2)

  pub step-Does :
      (o : Op A) {c : Channel A} {q : Bounded A} → Rep c q → Does (step o c) (spec_step o q)
  unfolding step spec_step
  step-Does (pushes x) r = let (c', eq, rep) = try_push-Does r x in (c', simp eq, rep)
  step-Does (push_waits id x) r = let (c', eq, rep) = request_push-Does r id x in (c', simp eq, rep)
  step-Does pops r = let (c', eq, rep) = try_pop-Does r d in (c', simp eq, rep)
  step-Does (pop_waits id) r = let (c', eq, rep) = request_pop-Does r d id in (c', simp eq, rep)
  step-Does (push_cancels id) {c} r =
      let (same, rep, _, _) = cancel-Rep r id in ((cancel_push id c).1, simp same, rep)
  step-Does (pop_cancels id) {c} r =
      let (_, _, same, rep) = cancel-Rep r id in ((cancel_pop id c).1, simp same, rep)
  step-Does closes r = let (c', eq, rep) = push_close-Rep r d in (c', simp eq, rep)

  run-Does :
      (os : List (Op A)) {c : Channel A} {q : Bounded A} → Rep c q → Does (run os c) (spec_run os q)
  unfolding run spec_run
  run-Does [] {c} r = (c, refl, r)
  run-Does (o ∷ os) r =
      let (c1, eq, rep) = step-Does o r in
      let (c2, eq', rep') = run-Does os rep in (c2, simp (eq, eq'), rep')

  -- From a new channel of a capacity up to `2^63`, any sequence of pushes, pops, waits,
  -- cancellations and closings runs with no failed assertion, no access out of range or to a slot
  -- without an item, and gives the replies of the bounded queue; and the channel then stands for
  -- the state of that queue.
  pub run_lem :
      (n : ℕ) (os : List (Op A))
      → n ≤ 2 ^ 63
      → Does (run os (create n)) (spec_run os (fresh (if n == 0 then 0 else bit_ceil n)))
  run_lem n os h = run-Does os (create-Rep n h).0
