-- ===== src/Intrusive/Double/Segment.antt =====
-- A stretch of doubly linked entries, and what its links lead to.
use condy.Prelude.{◌≡◌, refl, ◌≢◌, ◌⊎◌, true, false, List, [], ◌∷◌, has, arith}
use condy.Intrusive.{Ptr, null}
use condy.Intrusive.Double.{DoubleLinkList}

-- From `first`, the links go through the distinct entries `xs` to `last` and back; before the first
-- stands `before`.
abbrev pub Seg : (Ptr → Ptr) → (Ptr → Ptr) → Ptr → Ptr → List Ptr → Ptr → Type 0
Seg next prev before first [] last = (first ≡ null) × (last ≡ before)
Seg next prev before first (x ∷ xs) last =
    (first ≡ x)
    × (x ≢ null)
    × (has x xs ≡ false)
    × (prev x ≡ before)
    × Seg next prev x (next x) xs last

abbrev pub IsList : DoubleLinkList → List Ptr → Type 0
IsList l xs = Seg l.next l.prev null l.head xs l.tail

-- An entry that is in no list.
abbrev pub IsUnlinked : Ptr → DoubleLinkList → Type 0
IsUnlinked e l = (l.next e ≡ null) × (l.prev e ≡ null)

-- A stretch survives a change that spares its entries.
pub frame :
    (next prev next' prev' : Ptr → Ptr) (before first : Ptr) (xs : List Ptr) (last : Ptr)
    → ((a : Ptr) → has a xs ≡ true → (next' a ≡ next a) × (prev' a ≡ prev a))
    → Seg next prev before first xs last
    → Seg next' prev' before first xs last
frame next prev next' prev' before first [] last same s = s
frame next prev next' prev' before first (x ∷ xs) last same (a, b, c, d, e) =
    let (n, p) = same x (ground arith) in
    (
      a,
      b,
      c,
      ground arith,
      rw n (frame next prev next' prev' x (next x) xs last (λ y h. same y (ground arith)) e),
    )

-- The last entry of a stretch that is not empty is one of its entries.
pub last-mem :
    (next prev : Ptr → Ptr) (before first x : Ptr) (xs : List Ptr) (last : Ptr)
    → Seg next prev before first (x ∷ xs) last
    → has last (x ∷ xs) ≡ true
last-mem next prev before first x [] last s = ground arith
last-mem next prev before first x (y ∷ xs) last s =
    ground (arith, last-mem next prev x (next x) y xs last s.4)

-- Where the `prev` of an entry leads: to what stands before the stretch, if the entry is the first,
-- else to an entry of it.
pub prev-mem :
    (next prev : Ptr → Ptr) (before first : Ptr) (xs : List Ptr) (last e : Ptr)
    → Seg next prev before first xs last
    → has e xs ≡ true
    → (first ≡ e) × (prev e ≡ before) ⊎ (first ≢ e) × (has (prev e) xs ≡ true)
prev-mem next prev before first [] last e s h = cc
prev-mem next prev before first (x ∷ xs) last e s h =
    ground (arith, prev-mem next prev x (next x) xs last e s.4)

-- Where the `next` of an entry leads: nowhere, if it is the last, else to an entry of the stretch.
pub next-mem :
    (next prev : Ptr → Ptr) (before first : Ptr) (xs : List Ptr) (last e : Ptr)
    → Seg next prev before first xs last
    → has e xs ≡ true
    → (next e ≡ null) × (last ≡ e) ⊎ (next e ≢ null) × (has (next e) xs ≡ true)
next-mem next prev before first [] last e s h = cc
next-mem next prev before first (x ∷ []) last e s h = ground arith
next-mem next prev before first (x ∷ y ∷ xs) last e s h =
    ground (arith, next-mem next prev x (next x) (y ∷ xs) last e s.4)

-- Null is no entry of a stretch.
pub null-mem :
    (next prev : Ptr → Ptr) (before first : Ptr) (xs : List Ptr) (last : Ptr)
    → Seg next prev before first xs last
    → has null xs ≡ false
null-mem next prev before first [] last s = refl
null-mem next prev before first (x ∷ xs) last s =
    ground (arith, null-mem next prev x (next x) xs last s.4)
