-- ===== src/Ids/Unique.antt =====
-- include/condy/detail/utils.hpp: an id that is out is not handed out again.
use condy.Prelude.{
  ℕ, suc, length, ◌+◌, ◌≤◌, ◌<◌, ◌≡◌, refl, ap, ◌⊎◌, inl, inr, true, false, List, [], ◌∷◌, ◌++◌,
  ltb, leb, ◌==◌, ◌||◌, has, has-append, Bool-cases, lt→ltb, ltb→lt, append_assoc, sym, exception,
  ok, abort, arith,
}
use mathlib.Core.Path.{subst}
use condy.Ids.{IdPool, allocate, recycle}

abbrev pub Distinct : List ℕ → Type 0
Distinct [] = Unit {0}
Distinct (x ∷ xs) = (has x xs ≡ false) × Distinct xs

abbrev pub Within : ℕ → ℕ → List ℕ → Type 0
Within lo hi [] = Unit {0}
Within lo hi (x ∷ xs) = (lo ≤ x) × (x < hi) × Within lo hi xs

-- `out` are the ids in use.
pub record Accounts (from to : ℕ) (out : List ℕ) (p : IdPool) : Type 0 where
  pub apart : Distinct (p.recycled_ids ++ out)
  pub ranged : Within from p.next_id (p.recycled_ids ++ out)
  pub low : from ≤ p.next_id
  pub high : p.next_id ≤ to

Within-up : (lo hi up : ℕ) (xs : List ℕ) → hi ≤ up → Within lo hi xs → Within lo up xs
Within-up lo hi up [] h w = tt
Within-up lo hi up (x ∷ xs) h (a, b, w) = (a, omega arith, Within-up lo hi up xs h w)

Within-new : (lo hi x : ℕ) (xs : List ℕ) → hi ≤ x → Within lo hi xs → has x xs ≡ false
Within-new lo hi x [] h w = refl
Within-new lo hi x (y ∷ ys) h (a, b, w) = ground (arith, Within-new lo hi x ys h w)

-- An element moved from the front part to the middle, and back.
has-middle : (a x : ℕ) (xs ys : List ℕ) → has a (xs ++ x ∷ ys) ≡ ((a == x) || has a (xs ++ ys))
has-middle a x xs ys = ground (arith, has-append a xs (x ∷ ys), has-append a xs ys)

Distinct-middle : (x : ℕ) (xs ys : List ℕ) → Distinct (x ∷ (xs ++ ys)) → Distinct (xs ++ x ∷ ys)
Distinct-middle x [] ys d = d
Distinct-middle x (y ∷ xs) ys (new, (fresh, d)) =
    (ground (arith, has-middle y x xs ys), Distinct-middle x xs ys (ground arith, d))

Within-middle :
    (lo hi x : ℕ) (xs ys : List ℕ) → Within lo hi (x ∷ (xs ++ ys)) → Within lo hi (xs ++ x ∷ ys)
Within-middle lo hi x [] ys w = w
Within-middle lo hi x (y ∷ xs) ys (a, b, (c, d, w)) = (c, d, Within-middle lo hi x xs ys (a, b, w))

-- And back.
Distinct-front : (x : ℕ) (xs ys : List ℕ) → Distinct (xs ++ x ∷ ys) → Distinct (x ∷ (xs ++ ys))
Distinct-front x [] ys d = d
Distinct-front x (y ∷ xs) ys (fresh, d) =
    let (new, d') = Distinct-front x xs ys d in
    (ground (arith, has-middle y x xs ys), (ground (arith, has-middle y x xs ys), d'))

Within-front :
    (lo hi x : ℕ) (xs ys : List ℕ) → Within lo hi (xs ++ x ∷ ys) → Within lo hi (x ∷ (xs ++ ys))
Within-front lo hi x [] ys w = w
Within-front lo hi x (y ∷ xs) ys (c, d, w) =
    let (a, b, w') = Within-front lo hi x xs ys w in (a, b, (c, d, w'))

leb_of : (a b : ℕ) → a ≤ b → leb a b ≡ true
leb_of a b h = ground arith

module _ (from to : ℕ) where
  abbrev pub Allocates : List ℕ → IdPool → Type 0
  Allocates out p =
      (allocate from to p ≡ abort exception) × (p.next_id ≡ to) × (p.recycled_ids ≡ [])
      ⊎ ((id : ℕ) × (p' : IdPool) × (allocate from to p ≡ ok (id, p'))
          × (from ≤ id)
          × (id < to)
          × (has id out ≡ false)
          × Accounts from to (id ∷ out) p'
          × (length p.recycled_ids + p'.next_id ≡ suc (length p'.recycled_ids + p.next_id)))

  has-back : (id : ℕ) (xs ys : List ℕ) → has id (xs ++ ys) ≡ false → has id ys ≡ false
  has-back id xs ys h = ground (arith, has-append id xs ys)

  module _ (out : List ℕ) (p : IdPool) (a : Accounts from to out p) where
    allocate-new : p.recycled_ids ≡ [] → p.next_id < to → Allocates out p
    unfolding allocate
    allocate-new e more = inr (
      p.next_id,
      record p { next_id = p.next_id + 1 },
      simp (e, lt→ltb p.next_id to more),
      a.low,
      more,
      unused,
      record {
        apart = subst (λ (l : List ℕ). Distinct (l ++ p.next_id ∷ out)) (sym e) (unused, apart);
        ranged =
            subst (λ (l : List ℕ). Within from (p.next_id + 1) (l ++ p.next_id ∷ out)) (sym e)
              (
                a.low,
                omega arith,
                Within-up from p.next_id (p.next_id + 1) out (omega arith) ranged,
              );
        low = omega (arith, a.low);
        high = omega arith;
      },
      omega arith,
    )
      where
        apart : Distinct out
        apart = subst (λ (l : List ℕ). Distinct (l ++ out)) e a.apart

        ranged : Within from p.next_id out
        ranged = subst (λ (l : List ℕ). Within from p.next_id (l ++ out)) e a.ranged

        unused : has p.next_id out ≡ false
        unused = Within-new from p.next_id p.next_id out (omega arith) ranged

    allocate-again : (id : ℕ) (ids : List ℕ) → p.recycled_ids ≡ id ∷ ids → Allocates out p
    unfolding allocate
    allocate-again id ids e =
        let (unused, apart) = subst (λ (l : List ℕ). Distinct (l ++ out)) e a.apart in
        let (low, high, ranged) =
          subst (λ (l : List ℕ). Within from p.next_id (l ++ out)) e a.ranged in
        inr (
          id,
          record p { recycled_ids = ids },
          simp e,
          low,
          omega (arith, high, a.high),
          has-back id ids out unused,
          record {
            apart = Distinct-middle id ids out (unused, apart);
            ranged = Within-middle from p.next_id id ids out (low, high, ranged);
            low = a.low;
            high = a.high;
          },
          omega (arith, ap (length {A = ℕ}) e),
        )

    allocate_full : p.recycled_ids ≡ [] → ltb p.next_id to ≡ false → Allocates out p
    unfolding allocate
    allocate_full e full = inl (simp (e, full), at_limit, e)
      where
        at_limit : p.next_id ≡ to
        at_limit = ground (arith, a.high)

    allocate_by : (ids : List ℕ) → p.recycled_ids ≡ ids → Allocates out p
    allocate_by (id ∷ ids) e = allocate-again id ids e
    allocate_by [] e = elim (Bool-cases (ltb p.next_id to)) [
      | inl more ↦ allocate-new e (ltb→lt p.next_id to more)
      | inr full ↦ allocate_full e full
    ]

  -- From a pool that accounts for the ids in use, `allocate` gives an id of the range that is not in use, and keeps account of it; it throws only
  -- when every id below the limit has been handed out and none was recycled.
  pub allocate-Accounts : (out : List ℕ) (p : IdPool) → Accounts from to out p → Allocates out p
  allocate-Accounts out p a = allocate_by out p a p.recycled_ids refl

  -- In a pool that accounts for the ids in use, an id in use can be recycled, and is then no longer in use.
  pub recycle-Accounts :
      (xs ys : List ℕ) (id : ℕ) (p : IdPool)
      → Accounts from to (xs ++ id ∷ ys) p
      → (p' : IdPool) × (recycle from to id p ≡ ok p')
        × Accounts from to (xs ++ ys) p'
        × (p'.recycled_ids ≡ id ∷ p.recycled_ids)
        × (p'.next_id ≡ p.next_id)
  unfolding recycle
  recycle-Accounts xs ys id p a = (
    record p { recycled_ids = id ∷ p.recycled_ids },
    simp (leb_of from id low, lt→ltb id p.next_id high, lt→ltb id to (omega (arith, high, a.high))),
    record {
      apart = subst Distinct regroup moved;
      ranged = subst (Within from p.next_id) regroup spread;
      low = a.low;
      high = a.high;
    },
    refl,
    refl,
  )
    where
      regroup : id ∷ ((p.recycled_ids ++ xs) ++ ys) ≡ id ∷ (p.recycled_ids ++ (xs ++ ys))
      regroup = ap (◌∷◌ id) (append_assoc p.recycled_ids xs ys)

      split : p.recycled_ids ++ (xs ++ id ∷ ys) ≡ (p.recycled_ids ++ xs) ++ id ∷ ys
      split = sym (append_assoc p.recycled_ids xs (id ∷ ys))

      moved : Distinct (id ∷ ((p.recycled_ids ++ xs) ++ ys))
      moved = Distinct-front id (p.recycled_ids ++ xs) ys (subst Distinct split a.apart)

      spread : Within from p.next_id (id ∷ ((p.recycled_ids ++ xs) ++ ys))
      spread =
          Within-front from p.next_id id (p.recycled_ids ++ xs) ys
            (subst (Within from p.next_id) split a.ranged)

      low : from ≤ id
      low = spread.0

      high : id < p.next_id
      high = spread.1
