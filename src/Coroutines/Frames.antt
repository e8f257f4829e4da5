-- ===== src/Coroutines/Frames.antt =====
-- include/condy/coro.hpp: the frames of a store, and runs from one transfer of control to another.
use condy.Prelude.{
  ℕ, zero, suc, ◌≤◌, ◌<◌, ◌≡◌, ◌≢◌, refl, Option, none, some, ==_ne, ==_iff, ok, arith,
}
use native.Mathlib.Decide.{dec_lt}
use condy.Tasks.{Frame, Result, returned, thrown, destroy_frame, take_exception, value_of}
use condy.Coroutines.{
  CoroFrame, Store, put, destroy_coro, await_resume_coro, settle, resume_coro, run_coro,
}

module _ {A : Type 0} where
  pub put-same : (h : ℕ) (c : Option (CoroFrame A)) (s : Store A) → (put h c s).frames h ≡ c
  put-same h c s = simp ((==_iff h h).1 refl)

  pub put-other :
      (h x : ℕ) (c : Option (CoroFrame A)) (s : Store A) → x ≢ h → (put h c s).frames x ≡ s.frames x
  put-other h x c s other = simp (==_ne x h other)

  -- No frame is at a handle that is still to come.
  abbrev pub IsFresh : Store A → Type 0
  IsFresh s = (x : ℕ) → s.next ≤ x → s.frames x ≡ none

  pub below : {s : Store A} {c : CoroFrame A} (h : ℕ) → s.frames h ≡ some c → IsFresh s → h < s.next
  below {s} h e f = elim (dec_lt h s.next) [
    | yes p ↦ p
    | no p ↦ let gone : s.frames h ≡ none = f h (omega arith) in absurd cc
  ]

  -- From some number of rounds on, the run ends in the store `r`.
  abbrev pub Finishes : Option ℕ → Store A → Store A → Type 0
  Finishes o s r = (n : ℕ) × ((m : ℕ) → n ≤ m → run_coro m o s ≡ ok r)

  -- A run from `o` comes to `t`.
  abbrev pub Reaches : Option ℕ → Store A → Option ℕ → Store A → Type 0
  Reaches o s t u = (r : Store A) → Finishes t u r → Finishes o s r

  pub resume_coro-Reaches :
      (h : ℕ) (s : Store A) (t : Option ℕ) (u : Store A)
      → resume_coro h s ≡ ok (t, u)
      → Reaches (some h) s t u
  unfolding run_coro
  resume_coro-Reaches h s t u eq r (n, runs) = (suc n, more)
    where
      more : (m : ℕ) → suc n ≤ m → run_coro m (some h) s ≡ ok r
      more zero less = absurd (omega arith)
      more (suc m) less = simp eq (runs m (omega arith))

  -- The frame of a coroutine `c` when it has ended.
  abbrev pub ended : Result A → CoroFrame A → CoroFrame A
  ended r c = record c { promise = settle r (record { value = none; exception_ptr = none }) }

  -- What the caller does to the frame of the child, which has ended.
  abbrev Resumed : ℕ → Result A → Store A → Type 0
  Resumed child r s =
      (s1 : Store A) × (await_resume_coro child s ≡ ok (r, s1))
      × (s1.next ≡ s.next)
      × (s1.frames child ≡ none)
      × ((x : ℕ) → x ≢ child → s1.frames x ≡ s.frames x)

  pub await_resume_coro-Resumed :
      (child : ℕ) (r : Result A) (c : CoroFrame A) (s : Store A)
      → s.frames child ≡ some (ended r c)
      → Resumed child r s
  unfolding await_resume_coro settle take_exception value_of destroy_coro destroy_frame
  await_resume_coro-Resumed child (returned a) c s at =
      let p : Frame A = record { value = some a; exception_ptr = none } in
      let s1 : Store A = put child (some (record c { promise = p })) s in
      (
        put child none s1,
        simp (at, (==_iff child child).1 refl),
        refl,
        put-same child none s1,
        λ x other. simp (==_ne x child other),
      )
  await_resume_coro-Resumed child (thrown e) c s at =
      let p : Frame A = record { value = none; exception_ptr = none } in
      let s1 : Store A = put child (some (record c { promise = p })) s in
      (
        put child none s1,
        simp (at, (==_iff child child).1 refl),
        refl,
        put-same child none s1,
        λ x other. simp (==_ne x child other),
      )
