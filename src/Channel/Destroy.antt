-- ===== src/Channel/Destroy.antt =====
-- `~Channel()`: closing, and the loop that destroys the items that are left.
use native.Mathlib.Nat.{add-mod-mod, add-mod_right, mod-add-mod, mod-eq_of_lt, mod-lt}
use condy.Prelude.{
  ℕ, zero, suc, ◌+◌, ◌-◌, ◌%◌, ◌<◌, ◌≡◌, refl, sym, ap, ◌∙◌, true, false, none, List, [], ◌∷◌, ◌==◌,
  ==_iff, length, get_or, ok, arith,
}
use condy.Channel.{Channel, size_inner, empty_inner, destruct_loop, destruct_all, destroy}
use condy.Channel.Buffer.{Ring, popped, size_inner-length, pop_inner-Ring}
use condy.Channel.Bounded
use condy.Channel.Bounded.{Bounded}
use condy.Channel.Refine.{Rep}
use condy.Channel.Close.{push_close-Rep}

module _ {A : Type 0} where
  -- What the loop leaves: an empty ring, with everything but the buffer as before.
  abbrev Emptied : Channel A → Channel A → Type 0
  Emptied c c' =
      Ring c' []
      × (c'.capacity ≡ c.capacity)
      × (c'.scheduled ≡ c.scheduled)
      × (c'.push_awaiters ≡ c.push_awaiters)
      × (c'.pop_awaiters ≡ c.pop_awaiters)

  destruct_loop-Emptied :
      (k : ℕ) (xs : List A) (c : Channel A)
      → Ring c xs
      → length xs < k
      → (c' : Channel A) × (destruct_loop k c ≡ ok c') × Emptied c c'
  unfolding destruct_loop
  destruct_loop-Emptied zero xs c r h = absurd (omega arith)
  destruct_loop-Emptied (suc k) [] c r h =
      let e : empty_inner c ≡ true = rw (size_inner-length r) in
      (c, simp e, (r, refl, refl, refl, refl))
  destruct_loop-Emptied (suc k) (x ∷ xs) c r h =
      let e : empty_inner c ≡ false = rw (size_inner-length r) (ground arith) in
      let (eq, ring) = pop_inner-Ring r in
      let (c', eq', (ring', cap, told, pushes, pops)) =
        destruct_loop-Emptied k xs (popped c) ring (omega arith) in
      (c', simp (e, eq, eq'), (ring', cap, told, pushes, pops))

  -- In an empty ring no slot holds an item.
  all_vacant :
      (c : Channel A) → Ring c [] → (i : ℕ) → i < c.capacity → get_or c.buffer i none ≡ none
  all_vacant c r i h =
      ap (λ (t : ℕ). get_or c.buffer t none) (sym at) ∙ r.image j (mod-lt _ (omega arith))
    where
      h' : ℕ
      h' = c.head % c.capacity

      j : ℕ
      j = (i + c.capacity - h') % c.capacity

      at : (c.head + j) % c.capacity ≡ i
      at =
          sym (mod-add-mod c.head c.capacity j)
          ∙ add-mod-mod h' (i + c.capacity - h') c.capacity
          ∙ ap (λ (t : ℕ). t % c.capacity)
              (omega (arith, mod-lt c.head {m = c.capacity} (omega arith)))
          ∙ add-mod_right i c.capacity
          ∙ mod-eq_of_lt h

  -- On a channel that stands for a valid bounded queue, the destructor ends without a failed assertion: everybody who waited has been told as by
  -- `push_close`, nobody waits, and no slot of the buffer holds an item any more.
  pub destroy-Rep :
      {c : Channel A} {q : Bounded A} (d : A)
      → Rep c q
      → (c' : Channel A) × (destroy d c ≡ ok c')
        × (c'.scheduled ≡ (Bounded.close d q).told)
        × (c'.push_awaiters ≡ (Bounded.close d q).pushes)
        × (c'.pop_awaiters ≡ (Bounded.close d q).pops)
        × (length c'.buffer ≡ c'.capacity)
        × ((i : ℕ) → i < c'.capacity → get_or c'.buffer i none ≡ none)
  unfolding destroy destruct_all
  destroy-Rep {c} {q} d r =
      let (c1, closing, rep) = push_close-Rep r d in
      let (c2, looping, (ring, cap, told, pushes, pops)) =
        destruct_loop-Emptied (size_inner c1 + 1) _ c1 rep.ring
          (omega (arith, size_inner-length rep.ring)) in
      let level : (c2.head == c2.tail) ≡ true =
        (==_iff _ _).1 (omega (arith, ring.head_in, ring.tail_at)) in
      (
        c2,
        simp (closing, looping, level),
        told ∙ rep.told,
        pushes ∙ rep.pushes,
        pops ∙ rep.pops,
        ring.room,
        all_vacant c2 ring,
      )
