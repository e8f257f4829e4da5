-- ===== src/Intrusive/Double/Remove.antt =====
-- `remove` takes an entry out, from any place of the list.
use condy.Prelude.{
  ◌≡◌, refl, ◌≢◌, inl, inr, Bool, true, false, List, [], ◌∷◌, has, has-erase, erase, ◌==◌, ==_ne,
  ==_iff, if◌then◌else◌, ok, arith, Bool-cases,
}
use condy.Intrusive.{Ptr, null, write}
use condy.Intrusive.Double.{DoubleLinkList, remove}
use condy.Intrusive.Double.Segment.{Seg, IsList, IsUnlinked, frame, prev-mem, next-mem, null-mem}

-- The links after the removal of `e`: its neighbours point to each other.
abbrev next_without : (Ptr → Ptr) → (Ptr → Ptr) → Ptr → Ptr → Ptr
next_without next prev e =
    write (if prev e == null then next else write next (prev e) (next e)) e null

abbrev prev_without : (Ptr → Ptr) → (Ptr → Ptr) → Ptr → Ptr → Ptr
prev_without next prev e =
    write (if next e == null then prev else write prev (next e) (prev e)) e null

Seg-at :
    (next prev : Ptr → Ptr) (before first first' : Ptr) (xs ys : List Ptr) (last last' : Ptr)
    → first ≡ first'
    → xs ≡ ys
    → last ≡ last'
    → Seg next prev before first' ys last'
    → Seg next prev before first xs last
Seg-at next prev before first first' xs ys last last' f x l s = rw (f, x, l) s

remove-Seg :
    (next prev : Ptr → Ptr) (before first : Ptr) (xs : List Ptr) (last e : Ptr)
    → Seg next prev before first xs last
    → has e xs ≡ true
    → has before xs ≡ false
    → Seg
        (next_without next prev e)
        (prev_without next prev e)
        before
        (if first == e then next e else first)
        (erase e xs)
        (if next e == null then prev e else last)
remove-Seg next prev before first [] last e s h out = cc
remove-Seg next prev before first (x ∷ []) last e s h out =
    let here : (e == x) ≡ true = ground arith in
    Seg-at (next_without next prev e) (prev_without next prev e) before _ null _ [] _ before
      (ground arith) (rw here) (ground arith) (refl, refl)
remove-Seg next prev before first (x ∷ y ∷ xs) last e s h out = elim (Bool-cases (e == x)) [
  | inl here ↦
      let more : next e ≡ y = ground arith in
      let skip : next_without next prev e y ≡ next y = ground arith in
      Seg-at (next_without next prev e) (prev_without next prev e) before _ (next e) _ (y ∷ xs) _
        last (ground arith) (rw here) (ground arith)
        (
          more,
          s.4.1,
          s.4.2,
          ground arith,
          rw skip (
              frame next prev (next_without next prev e) (prev_without next prev e) y (next y) xs
                last (λ a m. ground arith) s.4.4),
        )
  | inr later ↦
      let inside : has e (y ∷ xs) ≡ true = ground arith in
      let back = prev-mem next prev x (next x) (y ∷ xs) last e s.4 inside in
      let ahead = next-mem next prev x (next x) (y ∷ xs) last e s.4 inside in
      let hop : next_without next prev e x ≡ (if next x == e then next e else next x) =
        ground (arith, back) in
      Seg-at (next_without next prev e) (prev_without next prev e) before _ x _
        (x ∷ erase e (y ∷ xs)) _ _ (ground arith) (rw later) refl
        (
          refl,
          s.1,
          has-erase x e (y ∷ xs) s.2,
          ground (arith, ahead),
          rw hop (remove-Seg next prev x (next x) (y ∷ xs) last e s.4 inside s.2),
        )
]

if_same : (b : Bool) (v : Ptr) → (if b then v else v) ≡ v
if_same true v = refl
if_same false v = refl

-- The list after the removal, in one step.
abbrev without : Ptr → DoubleLinkList → DoubleLinkList
without e l = record {
  next = next_without l.next l.prev e;
  prev = prev_without l.next l.prev e;
  head = if l.head == e then l.next e else l.head;
  tail = if l.next e == null then l.prev e else l.tail;
}

without-eq :
    (e : Ptr) (l : DoubleLinkList) (at_left at_right : Bool)
    → e ≢ null
    → (l.prev e == null) ≡ at_left
    → (l.next e == null) ≡ at_right
    → (l.head == e) ≡ at_left
    → (l.next e ≡ null → l.tail ≡ e)
    → remove e l ≡ ok (true, without e l)
unfolding remove
without-eq e l true true ne a b c d =
    simp (==_ne _ _ ne, a, b, c, (==_iff _ _).1 (d ((==_iff _ _).0 b)))
without-eq e l true false ne a b c d = simp (==_ne _ _ ne, a, b, c)
without-eq e l false true ne a b c d =
    simp (==_ne _ _ ne, a, if_same, b, c, (==_iff _ _).1 (d ((==_iff _ _).0 b)))
without-eq e l false false ne a b c d = simp (==_ne _ _ ne, a, if_same, b, c)

-- `remove` of an entry of the list: true, the list is then the rest, the entry is in no list, and
-- the links of all entries outside are as before. It does not fault.
pub remove-erase :
    (e : Ptr) (l : DoubleLinkList) (xs : List Ptr)
    → IsList l xs
    → has e xs ≡ true
    → (l' : DoubleLinkList) × (remove e l ≡ ok (true, l'))
      × IsList l' (erase e xs)
      × IsUnlinked e l'
      × ((a : Ptr) → has a xs ≡ false → (l'.next a ≡ l.next a) × (l'.prev a ≡ l.prev a))
unfolding remove
remove-erase e l xs s h =
    let back = prev-mem l.next l.prev null l.head xs l.tail e s h in
    let ahead = next-mem l.next l.prev null l.head xs l.tail e s h in
    let bare = null-mem l.next l.prev null l.head xs l.tail s in
    (
      without e l,
      without-eq e l (l.prev e == null) (l.next e == null) (ground (arith, bare)) refl refl
          (ground (arith, back, bare)) (ground (arith, ahead)),
      remove-Seg l.next l.prev null l.head xs l.tail e s h bare,
      ground arith,
      λ a o. ground (arith, back, ahead),
    )

-- `remove` of an entry that is in no list: false, and nothing changes.
pub remove-false :
    (e : Ptr) (l : DoubleLinkList) (xs : List Ptr)
    → IsList l xs
    → e ≢ null
    → has e xs ≡ false
    → IsUnlinked e l
    → remove e l ≡ ok (false, l)
unfolding remove
remove-false e l xs s ne h free =
    simp
      (==_ne _ _ ne, (==_iff _ _).1 free.0, (==_iff _ _).1 free.1, ==_ne l.head e (not_head xs s h))
  where
    not_head : (xs : List Ptr) → IsList l xs → has e xs ≡ false → l.head ≢ e
    not_head [] s h = ground arith
    not_head (x ∷ xs) s h = ground arith
