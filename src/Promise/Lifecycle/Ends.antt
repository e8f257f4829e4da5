-- ===== src/Promise/Lifecycle/Ends.antt =====
-- include/condy/detail/coro.hpp: every schedule goes on, and enough turns end both loops, with the frame
-- released or the callback run exactly once, or with the panic of a detached coroutine that threw.
use mathlib.Core.Path.{subst}
use condy.Prelude.{
  ℕ, ◌≡◌, refl, sym, ap, ◌∙◌, ◌⊎◌, inl, inr, Bool, true, false, none, some, List, [], ◌∷◌, ◌++◌,
  panic, Outcome, ok, abort, ◌>>=◌,
}
use condy.Promise.{
  running_joinable, zombie, finished, Slot, callback, Request, detach, join, Phase, done, System,
  mark_running, destroy_handle, final_after, final_exchange, final_round, final_suspend,
  detach_round, join_round, request_round, request, Turn, of_coroutine, of_owner, turn, interleave,
}
use condy.Promise.Lifecycle.{
  Pending, unread, first, second, Reachable, racing, ended, detached, joined, released, told, ready,
  IsFatal, Steps, at, final-Steps, start-Steps,
}

-- What a schedule comes to: a reachable state, or the panic in `handle.destroy()`.
abbrev pub Runs : Bool → Request → Outcome System → Type 0
Runs x r m = ((s1 : System) × (m ≡ ok s1) × Reachable x r s1) ⊎ IsFatal x r × (m ≡ abort panic)

turn-Steps : (x : Bool) (r : Request) (t : Turn) {s : System} → Reachable x r s → Steps x r t s
turn-Steps x r (of_coroutine b) h = final-Steps x r b h
turn-Steps x r (of_owner b) h = start-Steps x r b h

interleave-Runs :
    (x : Bool) (r : Request) (ts : List Turn) {s : System}
    → Reachable x r s
    → Runs x r (interleave r ts s)
unfolding interleave
interleave-Runs x r [] {s} h = inl (s, refl, h)
interleave-Runs x r (t ∷ ts) {s} h = elim (turn-Steps x r t h) [
  | inr (fatal, stop) ↦ inr (fatal, simp stop)
  | inl (s1, eq, h1) ↦ elim (interleave-Runs x r ts h1) [
    | inl (s2, more, h2) ↦ inl (s2, simp (eq, more), h2)
    | inr (fatal, stop) ↦ inr (fatal, simp (eq, stop))
  ]
]

-- What a request has got in the end: a detached frame was destroyed once and nobody was called; a
-- joiner was told to wait and its callback ran once, or was told to go on and was not called.
abbrev pub Answered : Request → System → Type 0
Answered detach s = (s.destroyed ≡ 1) × (s.called ≡ [])
Answered (join k) s =
    (s.destroyed ≡ 0)
    × ((s.waits ≡ some true) × (s.called ≡ k ∷ []) ⊎ (s.waits ≡ some false) × (s.called ≡ []))

-- Any number of turns of either, in any order and with any spurious failures, go through without a
-- failed assertion or a missing callback into one of the reachable states; the only panic is that of
-- `handle.destroy()`, when the coroutine is detached and ended with an exception.
pub interleave_lem :
    (x : Bool) (r : Request) (caller : ℕ) (ts : List Turn)
    → Runs x r (interleave r ts (mark_running x caller))
interleave_lem x r caller ts = interleave-Runs x r ts (racing unread unread)

abbrev pub coroutine_turns : List Turn
coroutine_turns = of_coroutine false ∷ of_coroutine false ∷ of_coroutine false ∷ []

abbrev pub owner_turns : List Turn
owner_turns = of_owner false ∷ of_owner false ∷ of_owner false ∷ []

late : {a : Phase} → Pending running_joinable running_joinable a → Pending running_joinable zombie a
late unread = unread
late first = first
late second = first

-- The reachable states in which the coroutine has passed its exchange.
data Ended : Bool → Request → System → Type 0 where
  zombie_yet :
      {x : Bool} {r : Request} {c : Slot} {a : Phase}
      → Pending running_joinable zombie a
      → Ended x r (at x zombie c done a 0 [] none)
  freed : {c : Slot} → Ended false detach (at false finished c done done 1 [] none)
  notified :
      {x : Bool} {k : ℕ}
      → Ended x (join k) (at x finished (callback k) done done 0 (k ∷ []) (some true))
  passed :
      {x : Bool} {k : ℕ} {c : Slot} → Ended x (join k) (at x finished c done done 0 [] (some false))

abbrev Halts : Bool → Request → Outcome System → Type 0
Halts x r m = ((s1 : System) × (m ≡ ok s1) × Ended x r s1) ⊎ IsFatal x r × (m ≡ abort panic)

coroutine-Halts :
    (x : Bool) (r : Request) {s : System}
    → Reachable x r s
    → Halts x r (interleave r coroutine_turns s)
unfolding interleave turn final_suspend final_round final_exchange final_after destroy_handle
coroutine-Halts x r (racing unread a) = inl (_, refl, zombie_yet (late a))
coroutine-Halts x r (racing first a) = inl (_, refl, zombie_yet (late a))
coroutine-Halts x r (racing second a) = inl (_, refl, zombie_yet (late a))
coroutine-Halts x r (ended a) = inl (_, refl, zombie_yet a)
coroutine-Halts false _ (detached unread) = inl (_, refl, freed)
coroutine-Halts false _ (detached first) = inl (_, refl, freed)
coroutine-Halts false _ (detached second) = inl (_, refl, freed)
coroutine-Halts true _ (detached unread) = inr ((refl, refl), refl)
coroutine-Halts true _ (detached first) = inr ((refl, refl), refl)
coroutine-Halts true _ (detached second) = inr ((refl, refl), refl)
coroutine-Halts x _ (joined unread) = inl (_, refl, notified)
coroutine-Halts x _ (joined first) = inl (_, refl, notified)
coroutine-Halts x _ (joined second) = inl (_, refl, notified)
coroutine-Halts _ _ released = inl (_, refl, freed)
coroutine-Halts x _ told = inl (_, refl, notified)
coroutine-Halts x _ ready = inl (_, refl, passed)

-- Both loops have ended, and the request is answered.
abbrev pub Over : Request → System → Type 0
Over r s = (s.state ≡ finished) × (s.ending ≡ done) × (s.asking ≡ done) × Answered r s

-- How a race ends: with a panic exactly if the coroutine is detached and ended with an exception.
abbrev pub Ends : Bool → Request → Outcome System → Type 0
Ends true detach m = m ≡ abort panic
Ends false detach m = (s1 : System) × (m ≡ ok s1) × Over detach s1
Ends x (join k) m = (s1 : System) × (m ≡ ok s1) × Over (join k) s1

owner-Ends :
    (x : Bool) (r : Request) {s : System} → Ended x r s → Ends x r (interleave r owner_turns s)
unfolding interleave turn request request_round detach_round join_round destroy_handle
owner-Ends true detach (zombie_yet unread) = refl
owner-Ends true detach (zombie_yet first) = refl
owner-Ends true detach (zombie_yet second) = refl
owner-Ends false detach (zombie_yet unread) = (_, refl, (refl, refl, refl, (refl, refl)))
owner-Ends false detach (zombie_yet first) = (_, refl, (refl, refl, refl, (refl, refl)))
owner-Ends false detach (zombie_yet second) = (_, refl, (refl, refl, refl, (refl, refl)))
owner-Ends x (join k) (zombie_yet unread) = (_, refl, (refl, refl, refl, (refl, inr (refl, refl))))
owner-Ends x (join k) (zombie_yet first) = (_, refl, (refl, refl, refl, (refl, inr (refl, refl))))
owner-Ends x (join k) (zombie_yet second) = (_, refl, (refl, refl, refl, (refl, inr (refl, refl))))
owner-Ends _ _ freed = (_, refl, (refl, refl, refl, (refl, refl)))
owner-Ends x _ notified = (_, refl, (refl, refl, refl, (refl, inl (refl, refl))))
owner-Ends x _ passed = (_, refl, (refl, refl, refl, (refl, inr (refl, refl))))

fatal-Ends :
    (x : Bool) (r : Request) (m : Outcome System) → IsFatal x r → m ≡ abort panic → Ends x r m
fatal-Ends x r m (threw, is_detach) e =
    subst (λ (y : Bool). Ends y r m) (sym threw)
      (subst (λ (q : Request). Ends true q m) (sym is_detach) e)

bind_assoc_by :
    (f g h : System → Outcome System) (m : Outcome System)
    → ((s : System) → f s ≡ (g s >>= h))
    → (m >>= f) ≡ ((m >>= g) >>= h)
bind_assoc_by f g h (ok s) e = e s
bind_assoc_by f g h (abort x) e = refl

interleave-append :
    (r : Request) (ts us : List Turn) (s : System)
    → interleave r (ts ++ us) s ≡ (interleave r ts s >>= interleave r us)
unfolding interleave
interleave-append r [] us s = refl
interleave-append r (t ∷ ts) us s =
    bind_assoc_by (interleave r (ts ++ us)) (interleave r ts) (interleave r us) (turn r t s)
      (interleave-append r ts us)

-- After any schedule at all, three turns of the coroutine and three of the owner without spurious
-- failures end both loops. If the coroutine is detached and ended with an exception, the program has
-- panicked, as `~PromiseBase` does. Else the state is `Finished`, a detached frame has been destroyed
-- exactly once, and a joiner was either told to wait and called back exactly once, or told not to wait
-- and never called.
pub interleave-Ends :
    (x : Bool) (r : Request) (caller : ℕ) (ts : List Turn)
    → Ends x r (interleave r (ts ++ (coroutine_turns ++ owner_turns)) (mark_running x caller))
interleave-Ends x r caller ts =
    let s0 : System = mark_running x caller in
    let whole = interleave-append r ts (coroutine_turns ++ owner_turns) s0 in
    elim (interleave_lem x r caller ts) [
      | inr (fatal, stop) ↦ fatal-Ends x r _ fatal (whole ∙ simp stop)
      | inl (s1, eq1, h1) ↦
          let then_on =
            whole
            ∙ ap (λ (m : Outcome System). m >>= interleave r (coroutine_turns ++ owner_turns)) eq1
            ∙ interleave-append r coroutine_turns owner_turns s1 in
          elim (coroutine-Halts x r h1) [
            | inr (fatal, stop) ↦ fatal-Ends x r _ fatal (then_on ∙ simp stop)
            | inl (s2, eq2, h2) ↦
                subst (Ends x r)
                  (sym (then_on ∙ ap (λ (m : Outcome System). m >>= interleave r owner_turns) eq2))
                  (owner-Ends x r h2)
          ]
    ]
