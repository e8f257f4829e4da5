-- ===== src/Buffers/Custody/Keeps.antt =====
-- include/condy/provided_buffers.hpp: no buffer of a pool is in two places, and none is lost.
use condy.Prelude.{
  ℕ, zero, suc, ◌+◌, ◌-◌, ◌^◌, ◌≤◌, ◌<◌, ◌≡◌, refl, ap, true, false, some, List, [], ◌∷◌, ◌++◌,
  ==_ne, ltb, lt→ltb, if◌then◌else◌, length, length-append, get_elem?, Outcome, ok, abort, arith,
}
use condy.Prelude.Counts.{copies, copies-append}
use mathlib.Core.Path.{subst}
use condy.Buffers.{Pool, Piece, handle_finish}
use condy.Buffers.Ring.{Area, IsRing, Names, add_buffer_back-IsRing}
use condy.Buffers.Taking.{offered, kept, AllNames, take_pieces-Takes}
use condy.Buffers.Custody.{
  Session, Event, completes, resets, remove_at, reset_at, step, run, queued_at, bytes_at,
}

-- The buffers `queued` are with the kernel, those of `names` with the provided buffers that are held.
pub record Custody (area : Area) (s : Session) : Type 0 where
  pub queued : List ℕ
  pub names : List ℕ
  pub ring : IsRing area s.pool queued
  pub named : AllNames area names s.held
  pub once : (a : ℕ) → copies a queued + copies a names ≡ (if ltb a area.number then 1 else 0)
  pub number : length queued + length names ≡ area.number

-- What the kernel and the program can do next: a completion writes no more than the kernel has room for,
-- and a buffer that is reset is held.
abbrev pub Possible : Event → Session → Type 0
Possible (completes true res) s = (0 < res) × (res ≤ bytes_at s.pool)
Possible (completes false res) s = Unit
Possible (resets i) s = i < length s.held

abbrev pub After : Outcome Session → (Session → Type 0) → Type 0
After (ok s) P = P s
After (abort f) P = Unit

abbrev pub AllPossible : List Event → Session → Type 0
AllPossible [] s = Unit
AllPossible (e ∷ es) s = Possible e s × After (step e s) (AllPossible es)

AllNames-append :
    (area : Area) (xs ys : List ℕ) (us vs : List Piece)
    → AllNames area xs us
    → AllNames area ys vs
    → AllNames area (xs ++ ys) (us ++ vs)
AllNames-append area [] ys [] vs n m = m
AllNames-append area (x ∷ xs) ys (u ∷ us) vs (n, ns) m = (n, AllNames-append area xs ys us vs ns m)
AllNames-append area [] ys (u ∷ us) vs n m = absurd n
AllNames-append area (x ∷ xs) ys [] vs n m = absurd n

-- The piece at a place, its buffer, and the buffers of the others.
abbrev pub Splits : Area → List ℕ → List Piece → ℕ → Type 0
Splits area xs us i =
    (u : Piece) × (bid : ℕ) × (rest : List ℕ) × (get_elem? us i ≡ some u)
    × Names area bid u
    × AllNames area rest (remove_at us i)
    × ((a : ℕ) → copies a xs ≡ copies a (bid ∷ rest))
    × (length xs ≡ suc (length rest))

AllNames-remove_at :
    (area : Area) (xs : List ℕ) (us : List Piece) (i : ℕ)
    → AllNames area xs us
    → i < length us
    → Splits area xs us i
AllNames-remove_at area xs [] i n h = absurd (omega arith)
AllNames-remove_at area [] (u ∷ us) i n h = absurd n
AllNames-remove_at area (x ∷ xs) (u ∷ us) zero (n, ns) h = (u, x, xs, refl, n, ns, λ a. refl, refl)
AllNames-remove_at area (x ∷ xs) (u ∷ us) (suc i) (n, ns) h =
    let (v, bid, rest, at, m, ms, same, long) = AllNames-remove_at area xs us i ns (omega arith) in
    (v, bid, x ∷ rest, at, m, (n, ms), λ a. omega (arith, same a), omega (arith, long))

module _ (area : Area) where
  bytes_at-offered :
      (p : Pool) (queued : List ℕ)
      → IsRing area p queued
      → length queued < 2 ^ 16
      → bytes_at p ≡ offered p queued
  bytes_at-offered p [] r h =
      let none_left : queued_at p ≡ 0 = omega (arith, r.tail_is, r.head_small) in simp none_left
  bytes_at-offered p (x ∷ xs) r h =
      let some_left : queued_at p ≡ suc (length xs) = omega (arith, r.tail_is, r.head_small) in
      simp (some_left, sub_one (length xs), ==_ne (suc (length xs)) 0 (omega arith))
    where
      sub_one : (n : ℕ) → suc n - 1 ≡ n
      sub_one n = omega arith

  completes-Custody :
      (res : ℕ) (s : Session)
      → Custody area s
      → 0 < res
      → res ≤ bytes_at s.pool
      → (s1 : Session) × (step (completes true res) s ≡ ok s1) × Custody area s1
  unfolding step handle_finish
  completes-Custody res s c some_bytes h =
      let room : length c.queued < 2 ^ 16 = omega (arith, c.number, c.ring.small) in
      let (xs, p1, taken, rest, eq, split, r1, ns) =
        take_pieces-Takes area res res s.pool c.queued (omega arith) c.ring
          (omega (arith, bytes_at-offered s.pool c.queued c.ring room)) in
      (
        record { pool = p1; held = s.held ++ kept xs },
        simp (lt→ltb 0 res some_bytes, eq),
        record {
          queued = rest;
          names = c.names ++ taken;
          ring = r1;
          named = AllNames-append area c.names taken s.held (kept xs) c.named ns;
          once = λ a. omega (
            arith,
            c.once a,
            ap (copies a) split,
            copies-append a taken rest,
            copies-append a c.names taken,
          );
          number = omega (
            arith,
            c.number,
            ap (length {A = ℕ}) split,
            length-append taken rest,
            length-append c.names taken,
          );
        },
      )

  below : (a n k : ℕ) → suc k ≡ (if ltb a n then 1 else 0) → a < n
  below a n k e = ground arith

  resets-Custody :
      (i : ℕ) (s : Session)
      → Custody area s
      → i < length s.held
      → (s1 : Session) × (step (resets i) s ≡ ok s1) × Custody area s1
  unfolding step reset_at
  resets-Custody i s c h =
      let (u, bid, rest, at, n, ns, same, long) =
        AllNames-remove_at area c.names s.held i c.named h in
      let (p1, eq, r1) =
        add_buffer_back-IsRing area bid u s.pool c.queued c.ring n
          (below bid area.number (copies bid c.queued + copies bid rest)
            (ground (arith, c.once bid, same bid)))
          (omega (arith, c.number, long)) in
      (
        record { pool = p1; held = remove_at s.held i },
        simp (at, eq),
        record {
          queued = c.queued ++ bid ∷ [];
          names = rest;
          ring = r1;
          named = ns;
          once = λ a. omega (arith, c.once a, same a, copies-append a c.queued (bid ∷ []));
          number = omega (arith, c.number, long, length-append c.queued (bid ∷ []));
        },
      )

  step-Custody :
      (e : Event) (s : Session)
      → Custody area s
      → Possible e s
      → (s1 : Session) × (step e s ≡ ok s1) × Custody area s1
  unfolding step handle_finish
  step-Custody (completes true res) s c (some_bytes, h) = completes-Custody res s c some_bytes h
  step-Custody (completes false res) s c h =
      let nobody : List ℕ = [] in
      (
        record { pool = s.pool; held = s.held ++ [] },
        refl,
        record {
          queued = c.queued;
          names = c.names ++ [];
          ring = c.ring;
          named = AllNames-append area c.names [] s.held [] c.named tt;
          once = λ a. omega (arith, c.once a, copies-append a c.names nobody);
          number = omega (arith, c.number, length-append c.names nobody);
        },
      )
  step-Custody (resets i) s c h = resets-Custody i s c h

  -- From a pool whose buffers are each in one place, with the kernel or with a provided buffer, any sequence of
  -- completions, of no more bytes than the kernel has room for, and of resets of provided buffers that are held
  -- fails no assertion and runs to its end. Then again each buffer of the pool is in one place: it is
  -- queued at the kernel once, or it is held by one provided buffer.
  pub run-Custody :
      (es : List Event) (s : Session)
      → Custody area s
      → AllPossible es s
      → (s1 : Session) × (run es s ≡ ok s1) × Custody area s1
  unfolding run
  run-Custody [] s c h = (s, refl, c)
  run-Custody (e ∷ es) s c (h, hs) =
      let (s1, eq, c1) = step-Custody e s c h in
      let (s2, eq2, c2) =
        run-Custody es s1 c1 (subst (λ (m : Outcome Session). After m (AllPossible es)) eq hs) in
      (s2, simp (eq, eq2), c2)
