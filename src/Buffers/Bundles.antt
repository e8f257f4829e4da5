-- ===== src/Buffers/Bundles.antt =====
-- include/condy/provided_buffers.hpp: the pieces of a completion cover its bytes.
use condy.Prelude.{
  ℕ, zero, suc, ◌+◌, ◌-◌, ◌≤◌, ◌<◌, ◌≡◌, refl, ◌∙◌, inl, inr, min, Bool, true, false, List, [], ◌∷◌,
  ◌==◌, lt→ltb, ==_ne, if◌then◌else◌, Bool-cases, Outcome, ok, arith,
}
use mathlib.Core.Path.{subst}
use condy.Buffers.{Pool, Piece, share, take_piece, take_pieces, handle_finish}

-- The current buffer has something left, and no more than a buffer holds.
pub record IsReady (p : Pool) : Type 0 where
  pub some_left : 0 < p.curr_buf_len
  pub fits : p.curr_buf_len ≤ p.buffer_size

abbrev pub total : List Piece → ℕ
total [] = 0
total (x ∷ xs) = x.size + total xs

-- The pieces cover the bytes: exactly where buffers are consumed in part, else to the end of the last.
abbrev pub Covers : Bool → ℕ → List Piece → Type 0
Covers true bytes xs = total xs ≡ bytes
Covers false bytes xs = bytes ≤ total xs

abbrev pub Taken : ℕ → Pool → Outcome (List Piece × Pool) → Type 0
Taken bytes p m =
    (xs : List Piece) × (p1 : Pool) × (m ≡ ok (xs, p1))
    × Covers p.incremental bytes xs
    × IsReady p1
    × (p1.incremental ≡ p.incremental)

pub take_piece-IsReady :
    (bytes : ℕ) (p : Pool)
    → IsReady p
    → IsReady (take_piece bytes p).1
      × ((take_piece bytes p).1.incremental ≡ p.incremental)
      × ((take_piece bytes p).0.size ≡ share bytes p)
unfolding take_piece
take_piece-IsReady bytes p r = elim (Bool-cases (p.curr_buf_len - share bytes p == 0)) [
  | inl e ↦
      simp e
        (record { some_left = omega (arith, r.some_left, r.fits); fits = omega arith }, refl, refl)
  | inr e ↦ simp e (record { some_left = more e; fits = omega (arith, r.fits) }, refl, refl)
]
  where
    more : (p.curr_buf_len - share bytes p == 0) ≡ false → 0 < p.curr_buf_len - share bytes p
    more e = ground arith

Covers-cons :
    (b : Bool) (bytes cur : ℕ) (x : Piece) (xs : List Piece)
    → x.size ≡ (if b then min bytes cur else cur)
    → Covers b (bytes - x.size) xs
    → Covers b bytes (x ∷ xs)
Covers-cons true bytes cur x xs e c = omega arith
Covers-cons false bytes cur x xs e c = omega arith

pub share_pos :
    (b : Bool) (bytes cur : ℕ) → 0 < bytes → 0 < cur → 0 < (if b then min bytes cur else cur)
share_pos true bytes cur h k = omega arith
share_pos false bytes cur h k = omega arith

Covers-nil : (b : Bool) → Covers b 0 []
Covers-nil true = refl
Covers-nil false = omega arith

take_pieces-Taken :
    (k bytes : ℕ) (p : Pool) → bytes ≤ k → IsReady p → Taken bytes p (take_pieces k bytes p)
unfolding take_pieces
take_pieces-Taken zero zero p h r = ([], p, refl, Covers-nil p.incremental, r, refl)
take_pieces-Taken zero (suc bytes) p h r = absurd (omega arith)
take_pieces-Taken (suc k) zero p h r = ([], p, refl, Covers-nil p.incremental, r, refl)
take_pieces-Taken (suc k) (suc bytes) p h r =
    let x : Piece = (take_piece (suc bytes) p).0 in
    let p1 : Pool = (take_piece (suc bytes) p).1 in
    let (ready, kept, size) = take_piece-IsReady (suc bytes) p r in
    let (xs, p2, eq, covers, ready2, kept2) =
      take_pieces-Taken k (suc bytes - x.size) p1
        (omega (
          arith,
          size,
          share_pos p.incremental (suc bytes) p.curr_buf_len (omega arith) r.some_left,
        ))
        ready in
    (
      x ∷ xs,
      p2,
      simp (==_ne (suc bytes) 0 (omega arith), eq),
      Covers-cons p.incremental (suc bytes) p.curr_buf_len x xs size
          (subst (λ (b : Bool). Covers b (suc bytes - x.size) xs) kept covers),
      ready2,
      kept2 ∙ kept,
    )

-- A completion of one or more bytes with a buffer, on a pool whose current buffer has bytes left: the
-- loop ends, no assertion fails, the pieces cover the bytes (exactly, where buffers are consumed in
-- part), and the current buffer again has bytes left.
pub handle_finish-Taken :
    (res : ℕ) (p : Pool) → 0 < res → IsReady p → Taken res p (handle_finish true res p)
unfolding handle_finish
handle_finish-Taken res p some_bytes r =
    let (xs, p1, eq, covers, ready, kept) = take_pieces-Taken res res p (omega arith) r in
    (xs, p1, simp (lt→ltb 0 res some_bytes) eq, covers, ready, kept)
