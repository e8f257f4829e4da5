-- ===== src/Channel/Buffer.antt =====
-- The ring buffer of a channel: the slots between `head_` and `tail_` as a sequence, oldest first.
use native.Mathlib.Nat.{mod-add-mod, add-mod_right, mod-lt}
use native.Mathlib.Decide.{dec_lt, ℕ_discrete}
use condy.Prelude.{
  ℕ, zero, suc, ◌+◌, ◌%◌, ◌^◌, ◌≤◌, ◌<◌, ◌≡◌, refl, sym, ap, ◌∙◌, ◌⊎◌, inl, inr, Bool, false, none,
  some, List, [], ◌∷◌, ◌++◌, bit_and, ◌==◌, ==_ne, ==_iff, if◌then◌else◌, length, length-append,
  length-set, get_or, get_elem?, get_or-set_self, get_or-set_ne, set, ok, arith,
}
use condy.Prelude.Slots.{mod_inj}
use condy.Prelude.Words.{size_max, add_size, sub_size, IsPow2, mod_wrap, mask_index}
use condy.Channel.{
  Channel, PushHandle, Event, size_inner, empty_inner, full_inner, push_inner, pop_inner,
}

-- Every slot holds what stands at its distance from `head_`, and no slot holds more.
pub record Ring {A : Type 0} (c : Channel A) (xs : List A) : Type 0 where
  pub pow : IsPow2 c.capacity ⊎ (c.capacity ≡ 0)
  pub room : length c.buffer ≡ c.capacity
  pub head_in : c.head < size_max
  pub tail_at : c.tail ≡ add_size c.head (length xs)
  pub fits : length xs ≤ c.capacity
  pub image :
      (j : ℕ) → j < c.capacity → get_or c.buffer ((c.head + j) % c.capacity) none ≡ get_elem? xs j

module _ {A : Type 0} where
  get_elem?-append :
      (xs : List A) (x : A) (j : ℕ)
      → get_elem? (xs ++ x ∷ []) j ≡ (if j == length xs then some x else get_elem? xs j)
  get_elem?-append [] x zero = refl
  get_elem?-append [] x (suc j) = ground arith
  get_elem?-append (y ∷ xs) x zero = ground arith
  get_elem?-append (y ∷ xs) x (suc j) = ground (arith, get_elem?-append xs x j)

  get_elem?-none : (xs : List A) (j : ℕ) → length xs ≤ j → get_elem? xs j ≡ none
  get_elem?-none [] j h = refl
  get_elem?-none (x ∷ xs) zero h = absurd (omega arith)
  get_elem?-none (x ∷ xs) (suc j) h = get_elem?-none xs j (omega arith)

  abbrev pub pushed : A → Channel A → Channel A
  pushed x c = record c {
    buffer = set c.buffer (bit_and c.tail (sub_size c.capacity 1)) (some x);
    tail = add_size c.tail 1;
  }

  abbrev pub popped : Channel A → Channel A
  popped c = record c {
    buffer = set c.buffer (bit_and c.head (sub_size c.capacity 1)) none;
    head = add_size c.head 1;
  }

module _ {A : Type 0} {c : Channel A} {xs : List A} (r : Ring c xs) where
  small : c.capacity ≤ 2 ^ 63
  small = elim r.pow [ inl p ↦ p.small | inr e ↦ omega arith ]

  -- The difference of the counters is the number of items, also when they have wrapped.
  pub size_inner-length : size_inner c ≡ length xs
  size_inner-length = omega (arith, r.head_in, r.tail_at, r.fits, small)

  pow_of_room : 0 < c.capacity → IsPow2 c.capacity
  pow_of_room h = elim r.pow [ inl p ↦ p | inr e ↦ absurd (omega arith) ]

  tail_slot :
      0 < c.capacity → bit_and c.tail (sub_size c.capacity 1) ≡ (c.head + length xs) % c.capacity
  tail_slot h =
      mask_index c.capacity c.tail (pow_of_room h)
      ∙ ap (λ (t : ℕ). t % c.capacity) r.tail_at
      ∙ mod_wrap c.capacity (c.head + length xs) (pow_of_room h)

  head_slot : 0 < c.capacity → bit_and c.head (sub_size c.capacity 1) ≡ c.head % c.capacity
  head_slot h = mask_index c.capacity c.head (pow_of_room h)

  slot_in : (i : ℕ) → 0 < c.capacity → i % c.capacity < length c.buffer
  slot_in i h = rw r.room (mod-lt i h)

  -- `push_inner_` on a buffer that is not full appends the item.
  pub push_inner-Ring :
      (x : A)
      → length xs < c.capacity
      → (push_inner x c ≡ ok (pushed x c)) × Ring (pushed x c) (xs ++ x ∷ [])
  unfolding push_inner
  push_inner-Ring x h = (
    rw vacant,
    record {
      pow = r.pow;
      room = length-set c.buffer _ (some x) ∙ r.room;
      head_in = r.head_in;
      tail_at = omega (arith, r.tail_at, length-append xs (x ∷ []));
      fits = omega (arith, length-append xs (x ∷ []));
      image = image;
    },
  )
    where
      pos : 0 < c.capacity
      pos = omega arith

      vacant : full_inner c ≡ false
      vacant = ==_ne _ _ (omega (arith, size_inner-length))

      image :
          (j : ℕ)
          → j < c.capacity
          → get_or
              (set c.buffer (bit_and c.tail (sub_size c.capacity 1)) (some x))
              ((c.head + j) % c.capacity)
              none
            ≡ get_elem? (xs ++ x ∷ []) j
      image j hj =
          rw (tail_slot pos, get_elem?-append)
            (elim (ℕ_discrete j (length xs)) [
              | yes e ↦
                  rw ((==_iff j (length xs)).1 e, e)
                    (get_or-set_self c.buffer _ (some x) none (slot_in (c.head + length xs) pos))
              | no e ↦ rw (==_ne j (length xs) e) (
                  get_or-set_ne c.buffer _ _ (some x) none (λ q. e (sym (mod_inj _ _ _ _ h hj q)))
                  ∙ r.image j hj)
            ])

-- A distance from the advanced `head_` is one more from the old one.
next_slot : (c h j : ℕ) → IsPow2 c → (add_size h 1 + j) % c ≡ (h + suc j) % c
next_slot c h j p =
    sym (mod-add-mod (add_size h 1) c j)
    ∙ ap (λ (t : ℕ). (t + j) % c) (mod_wrap c (h + 1) p)
    ∙ mod-add-mod (h + 1) c j
    ∙ ap (λ (t : ℕ). t % c) (omega arith)

module _ {A : Type 0} {c : Channel A} {x : A} {xs : List A} (r : Ring c (x ∷ xs)) where
  -- `pop_inner_` on a buffer that is not empty takes the oldest item and ends its life in the slot.
  pub pop_inner-Ring : (pop_inner c ≡ ok (x, popped c)) × Ring (popped c) xs
  unfolding pop_inner
  pop_inner-Ring = (
    rw (taken, pop_inner, at_head),
    record {
      pow = r.pow;
      room = length-set c.buffer _ none ∙ r.room;
      head_in = omega arith;
      tail_at = omega (arith, r.tail_at, r.head_in, r.fits, small r);
      fits = omega (arith, r.fits);
      image = image;
    },
  )
    where
      pos : 0 < c.capacity
      pos = omega (arith, r.fits)

      taken : empty_inner c ≡ false
      taken = ==_ne _ _ (omega (arith, size_inner-length r))

      slot : bit_and c.head (sub_size c.capacity 1) ≡ (c.head + 0) % c.capacity
      slot = head_slot r pos ∙ ap (λ (t : ℕ). t % c.capacity) (omega arith)

      at_head : get_or c.buffer (bit_and c.head (sub_size c.capacity 1)) none ≡ some x
      at_head = rw slot (r.image 0 pos)

      round :
          (j : ℕ)
          → j < c.capacity
          → ¬ (suc j < c.capacity)
          → (c.head + suc j) % c.capacity ≡ (c.head + 0) % c.capacity
      round j hj last =
          ap (λ (t : ℕ). (c.head + t) % c.capacity) (omega arith)
          ∙ add-mod_right c.head c.capacity
          ∙ ap (λ (t : ℕ). t % c.capacity) (omega arith)

      image :
          (j : ℕ)
          → j < c.capacity
          → get_or
              (set c.buffer (bit_and c.head (sub_size c.capacity 1)) none)
              ((add_size c.head 1 + j) % c.capacity)
              none
            ≡ get_elem? xs j
      image j hj =
          rw (slot, next_slot c.capacity c.head j (pow_of_room r pos))
            (elim (dec_lt (suc j) c.capacity) [
              | yes in_range ↦
                  get_or-set_ne c.buffer _ _ none none
                    (λ q. absurd (omega (arith, mod_inj _ _ _ _ pos in_range q)))
                  ∙ r.image (suc j) in_range
              | no last ↦
                  ap (λ (t : ℕ). get_or (set c.buffer ((c.head + 0) % c.capacity) none) t none)
                    (round j hj last)
                  ∙ get_or-set_self c.buffer _ none none (slot_in r (c.head + 0) pos)
                  ∙ sym (get_elem?-none xs j (omega (arith, r.fits)))
            ])

-- The buffer does not see the awaiters, the closing and what was scheduled.
pub Ring-frame :
    {A : Type 0} {c : Channel A} {xs : List A}
    → Ring c xs
    → (hs : List (PushHandle A)) (ps : List ℕ) (b : Bool) (es : List (Event A))
    → Ring (record c { push_awaiters = hs; pop_awaiters = ps; closed = b; scheduled = es }) xs
Ring-frame r hs ps b es = record {
  pow = r.pow;
  room = r.room;
  head_in = r.head_in;
  tail_at = r.tail_at;
  fits = r.fits;
  image = r.image;
}
