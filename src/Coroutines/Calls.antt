-- ===== src/Coroutines/Calls.antt =====
-- include/condy/coro.hpp: awaiting a coroutine is a call of it.
use condy.Prelude.{ℕ, ◌+◌, ◌≡◌, ◌≢◌, refl, sym, ap, ◌∙◌, Option, none, some, ok, arith}
use native.Mathlib.Decide.{ℕ_discrete}
use condy.Tasks.{Result, destroy_frame}
use condy.Coroutines.{
  Body, ends, awaits, drops, running, suspended, CoroFrame, Store, put, fresh, create_coro,
  destroy_coro, await_suspend_coro, await_resume_coro, resume_point, resume_coro, run_coro,
  evaluate,
}
use condy.Coroutines.Frames.{
  put-same, put-other, IsFresh, below, Finishes, Reaches, resume_coro-Reaches, ended,
  await_resume_coro-Resumed,
}

module _ {A : Type 0} where
  -- The coroutine `h` runs until its body is `b`: all other frames are then as before.
  abbrev Turns : ℕ → CoroFrame A → Body A → Store A → Type 0
  Turns h c b s =
      (u : Store A) × Reaches (some h) s (some h) u
      × (u.frames h ≡ some (record c { point = running b }))
      × ((x : ℕ) → x ≢ h → u.frames x ≡ s.frames x)
      × IsFresh u

  Turns-then :
      (h : ℕ) (c : CoroFrame A) (b1 b2 : Body A) (s : Store A)
      → Turns h c b1 s
      → ((u : Store A)
          → u.frames h ≡ some (record c { point = running b1 })
          → IsFresh u
          → Turns h c b2 u)
      → Turns h c b2 s
  Turns-then h c b1 b2 s (u, way, at, same, f) after =
      let (v, way2, at2, same2, f2) = after u at f in
      (v, λ r g. way r (way2 r g), at2, λ x other. same2 x other ∙ same x other, f2)

  -- The frame of the child that a caller starts.
  abbrev child_of : ℕ → Body A → CoroFrame A
  child_of h b = record {
    caller_handle = some h;
    promise = record { value = none; exception_ptr = none };
    point = running b;
  }

  -- The end of a child, up to where its caller goes on.
  Turns-child :
      (h child : ℕ) (c : CoroFrame A) (r : Result A) (k : Result A → Body A) (s : Store A)
      → h ≢ child
      → s.frames child ≡ some (child_of h (ends r))
      → s.frames h ≡ some (record c { point = suspended child k })
      → IsFresh s
      → (u : Store A) × Reaches (some child) s (some h) u
        × (u.frames h ≡ some (record c { point = running (k r) }))
        × (u.frames child ≡ none)
        × ((x : ℕ) → x ≢ h → x ≢ child → u.frames x ≡ s.frames x)
        × IsFresh u
  unfolding resume_coro resume_point
  Turns-child h child c r k s apart at here f =
      let e : CoroFrame A = ended r (child_of h (ends r)) in
      let s1 : Store A = put child (some e) s in
      let (s2, back, next, gone, same) =
        await_resume_coro-Resumed child r (child_of h (ends r)) s1 (put-same child (some e) s) in
      let caller : CoroFrame A = record c { point = running (k r) } in
      let u : Store A = put h (some caller) s2 in
      let still : s1.frames h ≡ some (record c { point = suspended child k }) =
        put-other child h (some e) s apart ∙ here in
      let one : resume_coro child s ≡ ok (some h, s1) = simp at in
      let two : resume_coro h s1 ≡ ok (some h, u) = simp (still, back) in
      let others : (x : ℕ) → x ≢ h → x ≢ child → u.frames x ≡ s.frames x = λ x not_h not_child.
        put-other h x (some caller) s2 not_h
        ∙ same x not_child
        ∙ put-other child x (some e) s not_child in
      (
        u,
        λ g fin.
            resume_coro-Reaches child s (some h) s1 one g
              (resume_coro-Reaches h s1 (some h) u two g fin),
        put-same h (some caller) s2,
        put-other h child (some caller) s2 (λ q. apart (sym q)) ∙ gone,
        others,
        λ x less.
            others x (λ q. omega (arith, q, next, below h here f))
              (λ q. omega (arith, q, next, below child at f))
            ∙ f x (omega (arith, next)),
      )

  -- What a coroutine that awaits does until it goes on, where its child runs to the end.
  awaits-Turns :
      (b : Body A) (k : Result A → Body A) (h : ℕ) (c : CoroFrame A) (s : Store A)
      → s.frames h ≡ some (record c { point = running (awaits b k) })
      → IsFresh s
      → ((u : Store A)
          → u.frames s.next ≡ some (child_of h b)
          → IsFresh u
          → Turns s.next (child_of h b) (ends (evaluate b)) u)
      → Turns h c (k (evaluate b)) s
  unfolding resume_coro resume_point create_coro await_suspend_coro
  awaits-Turns b k h c s at f runs =
      let child : ℕ = s.next in
      let apart : h ≢ child = λ q. omega (arith, q, below h at f) in
      let s1 : Store A = record (put child (some (fresh b)) s) { next = s.next + 1 } in
      let waiting : Option (CoroFrame A) = some (record c { point = suspended child k }) in
      let s2 : Store A = put h waiting s1 in
      let s3 : Store A = put child (some (child_of h b)) s2 in
      let made : s2.frames child ≡ some (fresh b) =
        put-other h child waiting s1 (λ q. apart (sym q)) ∙ put-same child (some (fresh b)) s in
      let start : resume_coro h s ≡ ok (some child, s3) = simp (at, made) in
      let others : (x : ℕ) → x ≢ h → x ≢ child → s3.frames x ≡ s.frames x = λ x not_h not_child.
        put-other child x (some (child_of h b)) s2 not_child
        ∙ put-other h x waiting s1 not_h
        ∙ put-other child x (some (fresh b)) s not_child in
      let fresh3 : IsFresh s3 = λ x less.
        others x (λ q. omega (arith, q, below h at f)) (λ q. omega (arith, q))
        ∙ f x (omega arith) in
      let (u, way, done, same, fu) = runs s3 (put-same child (some (child_of h b)) s2) fresh3 in
      let here : u.frames h ≡ waiting =
        same h apart ∙ put-other child h (some (child_of h b)) s2 apart ∙ put-same h waiting s1 in
      let (v, way2, at2, gone, same2, fv) =
        Turns-child h child c (evaluate b) k u apart done here fu in
      (
        v,
        λ g fin. resume_coro-Reaches h s (some child) s3 start g (way g (way2 g fin)),
        at2,
        λ x other. elim (ℕ_discrete x child) [
          | yes e ↦ ap v.frames e ∙ gone ∙ sym (f x (omega (arith, e)))
          | no e ↦ same2 x other e ∙ same x e ∙ others x other e
        ],
        fv,
      )

  -- A coroutine that is let go of leaves nothing.
  drops-Turns :
      (b rest : Body A) (h : ℕ) (c : CoroFrame A) (s : Store A)
      → s.frames h ≡ some (record c { point = running (drops b rest) })
      → IsFresh s
      → Turns h c rest s
  unfolding resume_coro resume_point create_coro destroy_coro destroy_frame
  drops-Turns b rest h c s at f =
      let child : ℕ = s.next in
      let s1 : Store A = record (put child (some (fresh b)) s) { next = s.next + 1 } in
      let s2 : Store A = put child none s1 in
      let now : Option (CoroFrame A) = some (record c { point = running rest }) in
      let u : Store A = put h now s2 in
      let start : resume_coro h s ≡ ok (some h, u) = simp (at, put-same child (some (fresh b)) s) in
      let others : (x : ℕ) → x ≢ h → u.frames x ≡ s.frames x = λ x not_h.
        put-other h x now s2 not_h ∙ elim (ℕ_discrete x child) [
          | yes e ↦ ap s2.frames e ∙ put-same child none s1 ∙ sym (f x (omega (arith, e)))
          | no e ↦ put-other child x none s1 e ∙ put-other child x (some (fresh b)) s e
        ] in
      (
        u,
        λ g fin. resume_coro-Reaches h s (some h) u start g fin,
        put-same h now s2,
        others,
        λ x less. others x (λ q. omega (arith, q, below h at f)) ∙ f x (omega arith),
      )

  body-Turns :
      (b : Body A) (h : ℕ) (c : CoroFrame A) (s : Store A)
      → s.frames h ≡ some (record c { point = running b })
      → IsFresh s
      → Turns h c (ends (evaluate b)) s
  unfolding evaluate
  body-Turns (ends r) h c s at f = (s, λ u g. g, at, λ x other. refl, f)
  body-Turns (awaits b k) h c s at f =
      Turns-then h c (k (evaluate b)) (ends (evaluate (k (evaluate b)))) s
        (awaits-Turns b k h c s at f (λ u at1 f1. body-Turns b s.next (child_of h b) u at1 f1))
        (λ u at1 f1. body-Turns (k (evaluate b)) h c u at1 f1)
  body-Turns (drops b rest) h c s at f =
      Turns-then h c rest (ends (evaluate rest)) s (drops-Turns b rest h c s at f)
        (λ u at1 f1. body-Turns rest h c u at1 f1)

  -- A run of a new coroutine, and its result.
  abbrev pub Ends : Body A → Store A → Type 0
  unfolding create_coro
  Ends b s =
      let (h, s1) = create_coro b s in
      (u v : Store A) × Finishes (some h) s1 u
      × (await_resume_coro h u ≡ ok (evaluate b, v))
      × ((x : ℕ) → v.frames x ≡ s.frames x)

  -- In any store of frames, a coroutine that is created and resumed runs to its end in finitely many transfers of control, whatever
  -- coroutines it awaits or lets go of, and touches no frame that is destroyed. Its promise then gives what its body would
  -- give if each await were a call of a function, a thrown exception included, and when it is
  -- taken, the frames are those of before: each coroutine that was created on the way is destroyed, once.
  pub run_coro-Ends : (b : Body A) (s : Store A) → IsFresh s → Ends b s
  unfolding create_coro resume_coro resume_point run_coro
  run_coro-Ends b s f =
      let h : ℕ = s.next in
      let s1 : Store A = record (put h (some (fresh b)) s) { next = s.next + 1 } in
      let fresh1 : IsFresh s1 =
        λ x less. put-other h x (some (fresh b)) s (λ q. omega (arith, q)) ∙ f x (omega arith) in
      let (u, way, at, same, fu) =
        body-Turns b h (fresh b) s1 (put-same h (some (fresh b)) s) fresh1 in
      let e : CoroFrame A = ended (evaluate b) (fresh (ends (evaluate b))) in
      let w : Store A = put h (some e) u in
      let last : resume_coro h u ≡ ok (none, w) = simp at in
      let done : Finishes none w w = (0, λ m less. refl) in
      let (v, got, _, gone, same2) =
        await_resume_coro-Resumed h (evaluate b) (fresh (ends (evaluate b))) w
          (put-same h (some e) u) in
      (
        w,
        v,
        way w (resume_coro-Reaches h u none w last w done),
        got,
        λ x. elim (ℕ_discrete x h) [
          | yes q ↦ ap v.frames q ∙ gone ∙ sym (f x (omega (arith, q)))
          | no q ↦
              same2 x q ∙ put-other h x (some e) u q ∙ same x q ∙ put-other h x (some (fresh b)) s q
        ],
      )
