-- ===== src/Ids/Run.antt =====
-- include/condy/detail/utils.hpp: a pool of ids over any sequence of calls.
use condy.Prelude.{
  ℕ, zero, suc, ◌+◌, ◌≤◌, ◌<◌, ◌≡◌, refl, ap, inl, inr, false, Option, none, some, List, [], ◌∷◌,
  ◌++◌, has, length, length-append, get_elem?, Outcome, ok, abort, ◌>>=◌, arith,
}
use mathlib.Core.Path.{subst}
use condy.Ids.{IdPool, fresh_pool, allocate, recycle}
use condy.Ids.Unique.{Accounts, allocate-Accounts, recycle-Accounts}

-- A recycled id stands by its place among those in use; a place where none stands asks for nothing.
pub data Call : Type 0 where
  allocates : Call
  recycles : ℕ → Call

pub data Reply : Type 0 where
  granted : ℕ → Reply
  refused nothing : Reply
  taken : ℕ → Reply

abbrev pub before : List ℕ → ℕ → List ℕ
before [] i = []
before (x ∷ xs) zero = []
before (x ∷ xs) (suc i) = x ∷ before xs i

abbrev pub behind : List ℕ → ℕ → List ℕ
behind [] i = []
behind (x ∷ xs) zero = xs
behind (x ∷ xs) (suc i) = behind xs i

-- An exception of `allocate` is caught.
abbrev pub reply_to : Outcome (ℕ × IdPool) → IdPool → List ℕ → Reply × IdPool × List ℕ
reply_to (ok (id, p1)) p out = (granted id, p1, id ∷ out)
reply_to (abort f) p out = (refused, p, out)

module _ (from to : ℕ) where
  unfoldable pub recycle_at : Option ℕ → ℕ → IdPool → List ℕ → Outcome (Reply × IdPool × List ℕ)
  recycle_at none i p out = ok (nothing, p, out)
  recycle_at (some id) i p out = do
    p1 ← recycle from to id p
    ok (taken id, p1, before out i ++ behind out i)

  unfoldable pub call : Call → IdPool → List ℕ → Outcome (Reply × IdPool × List ℕ)
  unfolding recycle_at
  call allocates p out = ok (reply_to (allocate from to p) p out)
  call (recycles i) p out = recycle_at (get_elem? out i) i p out

  unfoldable pub run : List Call → IdPool → List ℕ → Outcome (List Reply × IdPool × List ℕ)
  unfolding call
  run [] p out = ok ([], p, out)
  run (c ∷ cs) p out = do
    (r, p1, out1) ← call c p out
    (rs, p2, out2) ← run cs p1 out1
    ok (r ∷ rs, p2, out2)

  -- What a reply promises where the ids `out` are in use, and those in use after it.
  abbrev pub Promises : Call → List ℕ → Reply → Type 0
  Promises allocates out (granted id) = (from ≤ id) × (id < to) × (has id out ≡ false)
  Promises allocates out refused = from + length out ≡ to
  Promises (recycles i) out (taken id) = get_elem? out i ≡ some id
  Promises (recycles i) out nothing = get_elem? out i ≡ none
  Promises c out r = ⊥

  abbrev pub after : Call → List ℕ → Reply → List ℕ
  after allocates out (granted id) = id ∷ out
  after (recycles i) out (taken id) = before out i ++ behind out i
  after c out r = out

  abbrev pub Served : List Call → List ℕ → List Reply → Type 0
  Served [] out [] = Unit
  Served (c ∷ cs) out (r ∷ rs) = Promises c out r × Served cs (after c out r) rs
  Served cs out rs = ⊥

  -- Every id below `next_id` is in use or recycled.
  record Full (out : List ℕ) (p : IdPool) : Type 0 where
    accounts : Accounts from to out p
    counted : from + (length p.recycled_ids + length out) ≡ p.next_id

  abbrev Keeps : Call → IdPool → List ℕ → Type 0
  Keeps c p out =
      (r : Reply) × (p1 : IdPool) × (call c p out ≡ ok (r, p1, after c out r))
      × Promises c out r
      × Full (after c out r) p1

  parted :
      (out : List ℕ) (i id : ℕ)
      → get_elem? out i ≡ some id
      → out ≡ before out i ++ id ∷ behind out i
  parted [] i id e = cc
  parted (x ∷ xs) zero id e = ground arith
  parted (x ∷ xs) (suc i) id e = ap (◌∷◌ x) (parted xs i id e)

  allocates-Keeps : (p : IdPool) (out : List ℕ) → Full out p → Keeps allocates p out
  unfolding call
  allocates-Keeps p out f = elim (allocate-Accounts from to out p f.accounts) [
    | inl (e, at_limit, none_left) ↦
        (refused, p, simp e, omega (arith, f.counted, at_limit, ap (length {A = ℕ}) none_left), f)
    | inr (id, p1, e, low, high, new, a, counted) ↦ (
      granted id,
      p1,
      simp e,
      (low, high, new),
      record { accounts = a; counted = omega (arith, f.counted, counted) },
    )
  ]

  taken-Keeps :
      (i id : ℕ) (p : IdPool) (out : List ℕ)
      → get_elem? out i ≡ some id
      → Full out p
      → Keeps (recycles i) p out
  unfolding call recycle_at
  taken-Keeps i id p out e f =
      let split : out ≡ before out i ++ id ∷ behind out i = parted out i id e in
      let (p1, eq, a, freed, kept) =
        recycle-Accounts from to (before out i) (behind out i) id p
          (subst (λ (l : List ℕ). Accounts from to l p) split f.accounts) in
      (
        taken id,
        p1,
        simp (e, eq),
        e,
        record {
          accounts = a;
          counted = omega (
            arith,
            f.counted,
            kept,
            ap (length {A = ℕ}) freed,
            ap (length {A = ℕ}) split,
            length-append (before out i) (id ∷ behind out i),
            length-append (before out i) (behind out i),
          );
        },
      )

  at_place :
      (x : Option ℕ) (i : ℕ) (p : IdPool) (out : List ℕ)
      → get_elem? out i ≡ x
      → Full out p
      → Keeps (recycles i) p out
  unfolding call recycle_at
  at_place none i p out e f = (nothing, p, simp e, e, f)
  at_place (some id) i p out e f = taken-Keeps i id p out e f

  call-Keeps : (c : Call) (p : IdPool) (out : List ℕ) → Full out p → Keeps c p out
  call-Keeps allocates p out f = allocates-Keeps p out f
  call-Keeps (recycles i) p out f = at_place (get_elem? out i) i p out refl f

  abbrev pub Serves : List Call → List ℕ → Outcome (List Reply × IdPool × List ℕ) → Type 0
  Serves cs out m =
      (rs : List Reply) × (p1 : IdPool) × (out1 : List ℕ) × (m ≡ ok (rs, p1, out1))
      × Served cs out rs
      × Accounts from to out1 p1

  run-Full :
      (cs : List Call) (p : IdPool) (out : List ℕ) → Full out p → Serves cs out (run cs p out)
  unfolding run
  run-Full [] p out f = ([], p, out, refl, tt, f.accounts)
  run-Full (c ∷ cs) p out f =
      let (r, p1, eq, promised, f1) = call-Keeps c p out f in
      let (rs, p2, out2, eq2, served, a) = run-Full cs p1 (after c out r) f1 in
      (r ∷ rs, p2, out2, simp (eq, eq2), (promised, served), a)

  -- In any sequence of calls on a new pool with a range of ids, where an id that is recycled is in use, no assertion
  -- fails. Each id that is granted lies in the range and is not in use; `allocate` throws only when
  -- as many ids are in use as the range has; and the ids in use at the end are apart.
  pub run-Served : (cs : List Call) → from < to → Serves cs [] (run cs (fresh_pool from to) [])
  unfolding fresh_pool
  run-Served cs h = run-Full cs (fresh_pool from to) [] (record {
    accounts = record { apart = tt; ranged = tt; low = omega arith; high = omega arith };
    counted = omega arith;
  })
