-- ===== src/Buffers/Ring.antt =====
-- include/condy/provided_buffers.hpp: the shared ring of a pool holds the ids of the buffers that the
-- kernel has, in the order in which it takes them.
use condy.Prelude.{
  ℕ, suc, ◌+◌, ◌-◌, ◌*◌, ◌/◌, ◌%◌, ◌^◌, ◌≤◌, ◌<◌, ◌≡◌, sym, ap, ◌∙◌, true, List, [], ◌∷◌, ◌++◌, leb,
  lt→ltb, length, length-append, length-set, get_or, set, bit_and, ok, arith,
}
use condy.Prelude.Bits.{bit_and_mask}
use condy.Prelude.Words.{mod_factor}
use condy.Prelude.Slots.{Holds, Holds-append}
use condy.Buffers.{Pool, Piece, add_buffer_back}
use condy.Buffers.Bundles.{IsReady}
use native.Mathlib.Nat.{mul-add-div_right, div-eq_of_lt}
use mathlib.Core.Path.{subst}

-- Where the buffers of a pool lie.
pub record Area : Type 0 where
  pub base : ℕ
  pub size : ℕ
  pub number : ℕ

-- The kernel has the buffers `queued`, the first of them next.
pub record IsRing (area : Area) (p : Pool) (queued : List ℕ) : Type 0 where
  pub log : ℕ
  pub cofactor : ℕ
  pub is_pow : area.number ≡ 2 ^ log
  pub splits : area.number * cofactor ≡ 2 ^ 16
  pub small : area.number < 2 ^ 16
  pub number_is : p.num_buffers ≡ area.number
  pub mask_is : p.mask ≡ area.number - 1
  pub base_is : p.buffers_base ≡ area.base
  pub size_is : p.buffer_size ≡ area.size
  pub slots : length p.bufs ≡ area.number
  pub holds : Holds p.bufs area.number p.br_head 0 queued
  pub tail_is : p.tail ≡ (p.br_head + length queued) % 2 ^ 16
  pub head_small : p.br_head < 2 ^ 16
  pub ready : IsReady p

abbrev pub id_at : Area → ℕ → ℕ
id_at area at = (at - area.base) / area.size

-- What a piece that owns its buffer, the one with this id, says of it.
pub record Names (area : Area) (bid : ℕ) (x : Piece) : Type 0 where
  pub owns : x.owned ≡ true
  pub inside : area.base ≤ x.data_
  pub fits : x.size ≤ area.size
  pub named : id_at area x.data_ ≡ bid

module _ (area : Area) where
  masked : (n log i : ℕ) → n ≡ 2 ^ log → bit_and i (n - 1) ≡ i % n
  masked n log i e = rw e (bit_and_mask log i)

  index-mask :
      (p : Pool) (queued : List ℕ) (i : ℕ)
      → IsRing area p queued
      → bit_and i p.mask ≡ i % area.number
  index-mask p queued i r = ap (bit_and i) r.mask_is ∙ masked area.number r.log i r.is_pow

  pub first :
      (p : Pool) (x : ℕ) (xs : List ℕ)
      → IsRing area p (x ∷ xs)
      → get_or p.bufs (bit_and p.br_head p.mask) 0 ≡ x
  first p x xs r =
      ap (λ (i : ℕ). get_or p.bufs i 0) (index-mask p (x ∷ xs) p.br_head r)
      ∙ ap (λ (i : ℕ). get_or p.bufs (i % area.number) 0) (omega arith)
      ∙ r.holds 0 (omega arith)

  leb_of : (a b : ℕ) → a ≤ b → leb a b ≡ true
  leb_of a b h = ground arith

  -- A piece of the buffer `x` starts at what is left of it.
  pub id_at-data :
      (base size x cur : ℕ)
      → 0 < cur
      → cur ≤ size
      → (base + x * size + (size - cur) - base) / size ≡ x
  id_at-data base size x cur h k =
      ap (λ (t : ℕ). t / size) (omega arith)
      ∙ mul-add-div_right {m = size} (omega arith) x (size - cur)
      ∙ omega (arith, div-eq_of_lt {n = size - cur} {m = size} (omega arith))

  pub advanced :
      (p : Pool) (x : ℕ) (xs : List ℕ)
      → IsRing area p (x ∷ xs)
      → IsRing area
          (record p { br_head = (p.br_head + 1) % 2 ^ 16; curr_buf_len = p.buffer_size })
          xs
  advanced p x xs r = record {
    log = r.log;
    cofactor = r.cofactor;
    is_pow = r.is_pow;
    splits = r.splits;
    small = r.small;
    head_small = omega arith;
    number_is = r.number_is;
    mask_is = r.mask_is;
    base_is = r.base_is;
    size_is = r.size_is;
    slots = r.slots;
    holds = λ i h. ap (λ (j : ℕ). get_or p.bufs j 0) (shifted i) ∙ r.holds (suc i) (omega arith);
    tail_is = omega (arith, r.tail_is);
    ready = record {
      some_left = omega (arith, r.ready.some_left, r.ready.fits);
      fits = omega arith;
    };
  }
    where
      shifted :
          (i : ℕ) → ((p.br_head + 1) % 2 ^ 16 + i) % area.number ≡ (p.br_head + suc i) % area.number
      shifted i =
          sym (mod_factor area.number r.cofactor (2 ^ 16) ((p.br_head + 1) % 2 ^ 16 + i) r.splits)
          ∙ ap (λ (t : ℕ). t % area.number) (omega arith)
          ∙ mod_factor area.number r.cofactor (2 ^ 16) (p.br_head + suc i) r.splits

  -- A buffer comes back behind those that the kernel has.
  pub add_buffer_back-IsRing :
      (bid : ℕ) (x : Piece) (p : Pool) (queued : List ℕ)
      → IsRing area p queued
      → Names area bid x
      → bid < area.number
      → length queued < area.number
      → (p1 : Pool) × (add_buffer_back x.data_ x.size p ≡ ok p1)
        × IsRing area p1 (queued ++ bid ∷ [])
  unfolding add_buffer_back
  add_buffer_back-IsRing bid x p queued r n below room = (
    record p { bufs = set p.bufs (bit_and p.tail p.mask) bid; tail = (p.tail + 1) % 2 ^ 16 },
    simp (fits, inside, r.base_is, r.size_is, n.named, r.number_is, lt→ltb bid area.number below),
    record {
      log = r.log;
      cofactor = r.cofactor;
      is_pow = r.is_pow;
      splits = r.splits;
      small = r.small;
      head_small = r.head_small;
      number_is = r.number_is;
      mask_is = r.mask_is;
      base_is = r.base_is;
      size_is = r.size_is;
      slots = length-set p.bufs (bit_and p.tail p.mask) bid ∙ r.slots;
      holds =
          subst (λ (i : ℕ). Holds (set p.bufs i bid) area.number p.br_head 0 (queued ++ bid ∷ []))
            (sym slot)
            (Holds-append p.bufs area.number p.br_head 0 bid queued r.slots room r.holds);
      tail_is = omega (arith, r.tail_is, length-append queued (bid ∷ []));
      ready = record { some_left = r.ready.some_left; fits = r.ready.fits };
    },
  )
    where
      fits : leb x.size area.size ≡ true
      fits = leb_of x.size area.size n.fits

      inside : leb area.base x.data_ ≡ true
      inside = leb_of area.base x.data_ n.inside

      slot : bit_and p.tail p.mask ≡ (p.br_head + length queued) % area.number
      slot =
          index-mask p queued p.tail r
          ∙ ap (λ (t : ℕ). t % area.number) r.tail_is
          ∙ mod_factor area.number r.cofactor (2 ^ 16) (p.br_head + length queued) r.splits
