-- ===== src/Buffers/Taking.antt =====
-- include/condy/provided_buffers.hpp: a completion takes the buffers that the kernel had, in order.
use condy.Prelude.{
  ℕ, zero, suc, ◌+◌, ◌-◌, ◌*◌, ◌%◌, ◌^◌, ◌≤◌, ◌<◌, ◌≡◌, refl, ap, ◌⊎◌, inl, inr, min, Bool, true,
  false, List, [], ◌∷◌, ◌++◌, ◌==◌, ==_ne, if◌then◌else◌, Bool-cases, length, get_or, bit_and,
  Outcome, ok, arith,
}
use condy.Buffers.{Pool, Piece, share, take_piece, take_pieces}
use condy.Buffers.Bundles.{take_piece-IsReady, share_pos}
use condy.Buffers.Ring.{Area, IsRing, Names, id_at, first, id_at-data, advanced}

-- The bytes that the kernel can still write.
abbrev pub offered : Pool → List ℕ → ℕ
offered p [] = 0
offered p (x ∷ xs) = p.curr_buf_len + length xs * p.buffer_size

-- The pieces that own their buffers.
abbrev pub kept : List Piece → List Piece
kept [] = []
kept (x ∷ xs) = if x.owned then x ∷ kept xs else kept xs

abbrev pub AllNames : Area → List ℕ → List Piece → Type 0
AllNames area [] [] = Unit
AllNames area [] (y ∷ ys) = ⊥
AllNames area (x ∷ xs) [] = ⊥
AllNames area (x ∷ xs) (y ∷ ys) = Names area x y × AllNames area xs ys

module _ (area : Area) where
  offered-advanced :
      (bytes s : ℕ) (p : Pool) (x : ℕ) (xs : List ℕ)
      → p.curr_buf_len ≤ s
      → bytes ≤ offered p (x ∷ xs)
      → bytes - s
        ≤ offered (record p { br_head = (p.br_head + 1) % 2 ^ 16; curr_buf_len = p.buffer_size }) xs
  offered-advanced bytes s p x [] h k = omega arith
  offered-advanced bytes s p x (y ∷ ys) h k =
      let more : suc (length ys) * p.buffer_size ≡ p.buffer_size + length ys * p.buffer_size =
        grind arith in
      omega arith

  share-le : (b : Bool) (bytes cur : ℕ) → (if b then min bytes cur else cur) ≤ cur
  share-le true bytes cur = omega arith
  share-le false bytes cur = omega arith

  -- If something is left in the buffer, all the bytes were in it.
  share_all :
      (b : Bool) (bytes cur : ℕ)
      → (cur - (if b then min bytes cur else cur) == 0) ≡ false
      → (if b then min bytes cur else cur) ≡ bytes
  share_all true bytes cur e = ground arith
  share_all false bytes cur e = ground arith

  abbrev pub PieceOf : ℕ → Pool → ℕ → List ℕ → Piece → Pool → Type 0
  PieceOf bytes p x xs y p1 =
      Names area x y × IsRing area p1 xs × (bytes - y.size ≤ offered p1 xs)
      ⊎ (y.owned ≡ false) × IsRing area p1 (x ∷ xs) × (bytes - y.size ≡ 0)

  pub take_piece-IsRing :
      (bytes : ℕ) (p : Pool) (x : ℕ) (xs : List ℕ)
      → IsRing area p (x ∷ xs)
      → bytes ≤ offered p (x ∷ xs)
      → PieceOf bytes p x xs (take_piece bytes p).0 (take_piece bytes p).1
  unfolding take_piece
  take_piece-IsRing bytes p x xs r some_bytes =
      let s : ℕ = share bytes p in
      elim (Bool-cases (p.curr_buf_len - share bytes p == 0)) [
        | inl e ↦ simp e (
            inl (
              record {
                owns = refl;
                inside = omega (arith, r.base_is);
                fits =
                    omega
                      (arith, share-le p.incremental bytes p.curr_buf_len, r.ready.fits, r.size_is);
                named = named;
              },
              advanced area p x xs r,
              offered-advanced bytes s p x xs (gone e) some_bytes,
            ))
        | inr e ↦ simp e (
            inr (
              refl,
              record {
                log = r.log;
                cofactor = r.cofactor;
                is_pow = r.is_pow;
                splits = r.splits;
                small = r.small;
                head_small = r.head_small;
                number_is = r.number_is;
                mask_is = r.mask_is;
                base_is = r.base_is;
                size_is = r.size_is;
                slots = r.slots;
                holds = r.holds;
                tail_is = r.tail_is;
                ready = record { some_left = left e; fits = omega (arith, r.ready.fits) };
              },
              omega (arith, share_all p.incremental bytes p.curr_buf_len e),
            ))
      ]
    where
      named :
          id_at area (
            p.buffers_base
            + get_or p.bufs (bit_and p.br_head p.mask) 0 * p.buffer_size
            + (p.buffer_size - p.curr_buf_len))
          ≡ x
      named =
          simp (first area p x xs r, r.base_is, r.size_is)
            (id_at-data area area.base area.size x p.curr_buf_len r.ready.some_left
              (omega (arith, r.ready.fits, r.size_is)))

      gone : (p.curr_buf_len - share bytes p == 0) ≡ true → p.curr_buf_len ≤ share bytes p
      gone e = ground arith

      left : (p.curr_buf_len - share bytes p == 0) ≡ false → 0 < p.curr_buf_len - share bytes p
      left e = ground arith

  abbrev pub Takes : List ℕ → Outcome (List Piece × Pool) → Type 0
  Takes queued m =
      (xs : List Piece) × (p1 : Pool) × (taken : List ℕ) × (rest : List ℕ) × (m ≡ ok (xs, p1))
      × (queued ≡ taken ++ rest)
      × IsRing area p1 rest
      × AllNames area taken (kept xs)

  pub take_pieces-Takes :
      (k bytes : ℕ) (p : Pool) (queued : List ℕ)
      → bytes ≤ k
      → IsRing area p queued
      → bytes ≤ offered p queued
      → Takes queued (take_pieces k bytes p)
  unfolding take_pieces
  take_pieces-Takes zero zero p queued h r o = ([], p, [], queued, refl, refl, r, tt)
  take_pieces-Takes zero (suc bytes) p queued h r o = absurd (omega arith)
  take_pieces-Takes (suc k) zero p queued h r o = ([], p, [], queued, refl, refl, r, tt)
  take_pieces-Takes (suc k) (suc bytes) p [] h r o = absurd (omega arith)
  take_pieces-Takes (suc k) (suc bytes) p (x ∷ queued) h r o =
      let y : Piece = (take_piece (suc bytes) p).0 in
      let p1 : Pool = (take_piece (suc bytes) p).1 in
      let more : (suc bytes == 0) ≡ false = ==_ne (suc bytes) 0 (omega arith) in
      let (ready, kept_on, size) = take_piece-IsReady (suc bytes) p r.ready in
      let enough : suc bytes - y.size ≤ k = omega (
        arith,
        size,
        share_pos p.incremental (suc bytes) p.curr_buf_len (omega arith) r.ready.some_left,
      ) in
      elim (take_piece-IsRing (suc bytes) p x queued r o) [
        | inl (n, r1, o1) ↦
            let (xs, p2, taken, rest, eq, split, r2, names) =
              take_pieces-Takes k (suc bytes - y.size) p1 queued enough r1 o1 in
            (
              y ∷ xs,
              p2,
              x ∷ taken,
              rest,
              simp (more, eq),
              ap (◌∷◌ x) split,
              r2,
              simp n.owns (n, names),
            )
        | inr (free, r1, done) ↦
            let (xs, p2, taken, rest, eq, split, r2, names) =
              take_pieces-Takes k (suc bytes - y.size) p1 (x ∷ queued) enough r1
                (omega (arith, done)) in
            (y ∷ xs, p2, taken, rest, simp (more, eq), split, r2, simp free names)
      ]
