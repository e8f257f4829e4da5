-- ===== src/Tasks/Ends.antt =====
-- include/condy/detail/task.hpp: awaiting or waiting for a task takes its result and its frame once.
use condy.Prelude.{
  ℕ, ◌^◌, ◌<◌, ◌≡◌, refl, ap, ◌∙◌, inl, inr, Bool, true, false, Option, none, some, List, [], ◌∷◌,
  ◌++◌, Outcome, ok,
}
use condy.Prelude.Words.{add_size, sub_size, sub_size-add_size}
use condy.Promise.{System, Turn, join, mark_running, interleave}
use condy.Promise.Lifecycle.Ends.{Ends, Over, coroutine_turns, owner_turns, interleave-Ends}
use condy.Tasks.{
  Frame, Result, returned, thrown, destroy_frame, take_exception, value_of, release, result_of,
  take_result, Await, goes_on, await_suspend_task, await_resume_task, wait_inner, wait,
}

-- A coroutine that has ended, by a return or by an exception, and what its caller is to get.
pub data IsEnded {A : Type 0} : Frame A → Result A → Type 0 where
  of_value : {v : A} → IsEnded (record { value = some v; exception_ptr = none }) (returned v)
  of_exception :
      {v : Option A} {e : ℕ} → IsEnded (record { value = v; exception_ptr = some e }) (thrown e)

-- The turns that end the race after any schedule.
abbrev pub to_the_end : List Turn → List Turn
to_the_end ts = ts ++ (coroutine_turns ++ owner_turns)

pub joined :
    (x : Bool) (k c caller : ℕ) (ts : List Turn)
    → (s : System) × (interleave (join k) (to_the_end ts) (mark_running x c) ≡ ok s)
      × (s.destroyed ≡ 0)
      × (goes_on caller s.waits s.called ≡ caller ∷ [])
joined x k c caller ts =
    let (s, e, (_, _, _, (kept, answer))) = ends x (interleave-Ends x (join k) c ts) in
    (
      s,
      e,
      kept,
      elim answer [
        | inl (waits, called) ↦ simp (waits, called)
        | inr (waits, called) ↦ simp (waits, called)
      ],
    )
  where
    ends :
        (y : Bool) {m : Outcome System}
        → Ends y (join k) m
        → (s1 : System) × (m ≡ ok s1) × Over (join k) s1
    ends true h = h
    ends false h = h

module _ {A : Type 0} where
  take_result-IsEnded :
      (a : Await A) {f : Frame A} {r : Result A}
      → IsEnded f r
      → take_result (some f) a ≡ ok (r, record a { frame = none })
  unfolding take_result result_of release destroy_frame take_exception value_of
  take_result-IsEnded a of_value = refl
  take_result-IsEnded a of_exception = refl

  -- What is true after the result `r` was taken: the caller goes on once, as many works are pending
  -- as before, and the frame is destroyed, by the caller and not by the coroutine.
  pub record Settled (caller : ℕ) (a a' : Await A) : Type 0 where
    pub continued : a'.continued ≡ caller ∷ []
    pub pending : a'.pending_works ≡ a.pending_works
    pub gone : a'.frame ≡ none
    pub not_by_coroutine : a'.system.destroyed ≡ 0

  -- In every schedule in which the end of a spawned coroutine and the request to join it both come to
  -- their end, with fewer than `2 ^ 64` works pending: a caller that awaits the task goes on exactly
  -- once and gets the value or the exception, the frame is destroyed by it alone, without a
  -- panic and without an access to a destroyed frame, and the pending works are as before; and so it
  -- is for a caller outside of a runtime that waits for the task, which is not joinable any more.
  pub await-Settled :
      (x : Bool) (k c h caller : ℕ) (ts : List Turn) {f : Frame A} {r : Result A} (a : Await A)
      → a.system ≡ mark_running x c
      → a.frame ≡ some f
      → IsEnded f r
      → a.pending_works < 2 ^ 64
      → ((a1 : Await A) × (a2 : Await A) × (await_suspend_task k caller (to_the_end ts) a ≡ ok a1)
          × (await_resume_task a1 ≡ ok (r, a2))
          × Settled caller a a2)
        × ((a3 : Await A) × (wait false (some h) k caller (to_the_end ts) a ≡ (none, ok (r, a3)))
            × Settled caller a a3)
  unfolding await_suspend_task await_resume_task wait wait_inner
  await-Settled x k c h caller ts a running here ended small =
      let (s, e, kept, on) = joined x k c caller ts in
      let raced : interleave (join k) (to_the_end ts) a.system ≡ ok s =
        ap (interleave (join k) (to_the_end ts)) running ∙ e in
      let more : ℕ = add_size a.pending_works 1 in
      let told : List ℕ = goes_on caller s.waits s.called in
      let a1 : Await A = record a { system = s; pending_works = more; continued = told } in
      let resumed : Await A = record a1 { pending_works = sub_size more 1 } in
      let waited : Await A = record a { system = s; continued = told } in
      (
        (
          a1,
          record resumed { frame = none },
          simp raced,
          simp here (take_result-IsEnded resumed ended),
          record {
            continued = on;
            pending = sub_size-add_size a.pending_works small;
            gone = refl;
            not_by_coroutine = kept;
          },
        ),
        (
          record waited { frame = none },
          simp (raced, here, take_result-IsEnded waited ended),
          record { continued = on; pending = refl; gone = refl; not_by_coroutine = kept },
        ),
      )
