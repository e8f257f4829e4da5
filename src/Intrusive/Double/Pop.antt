-- ===== src/Intrusive/Double/Pop.antt =====
-- `pop_front` takes the first entry.
use condy.Prelude.{◌≡◌, ap, ◌≢◌, false, List, [], ◌∷◌, has, ==_ne, ==_iff, ok, arith}
use condy.Intrusive.{Ptr, null, write}
use condy.Intrusive.Double.{DoubleLinkList, pop_front}
use condy.Intrusive.Double.Segment.{IsList, IsUnlinked, frame}

-- On the empty list `pop_front` returns null and changes nothing.
pub pop_front-nil : (l : DoubleLinkList) → IsList l [] → pop_front l ≡ ok (null, l)
unfolding pop_front
pop_front-nil l s = simp ((==_iff _ _).1 s.0)

-- On a list with a first entry `pop_front` returns it; it is then in no list, the list is the rest, and
-- the links of all entries outside are as before. It does not fault.
pub pop_front-cons :
    (l : DoubleLinkList) (x : Ptr) (xs : List Ptr)
    → IsList l (x ∷ xs)
    → (l' : DoubleLinkList) × (pop_front l ≡ ok (x, l'))
      × IsList l' xs
      × IsUnlinked x l'
      × ((a : Ptr) → has a (x ∷ xs) ≡ false → (l'.next a ≡ l.next a) × (l'.prev a ≡ l.prev a))
unfolding pop_front
pop_front-cons l x [] s =
    let l' : DoubleLinkList = record l {
      next = write l.next l.head null;
      prev = write l.prev l.head null;
      head = l.next l.head;
      tail = null;
    } in
    (
      l',
      simp (==_ne l.head null some_head, (==_iff (l.next l.head) null).1 (ground arith))
          (ap (λ (t : Ptr). ok (t, l')) s.0),
      ground arith,
      ground arith,
      λ a h. ground arith,
    )
  where
    some_head : l.head ≢ null
    some_head = ground arith
pop_front-cons l x (y ∷ xs) s =
    let l' : DoubleLinkList = record l {
      next = write l.next l.head null;
      prev = write (write l.prev (l.next l.head) null) l.head null;
      head = l.next l.head;
    } in
    let keep : write l.next l.head null y ≡ l.next y = ground arith in
    (
      l',
      simp (==_ne l.head null some_head, ==_ne (l.next l.head) null (ground arith))
          (ap (λ (t : Ptr). ok (t, l')) s.0),
      (
        ground arith,
        s.4.1,
        s.4.2,
        ground arith,
        rw keep (
            frame l.next l.prev l'.next l'.prev y (l.next y) xs l.tail (λ a h. ground arith) s.4.4),
      ),
      ground arith,
      λ a h. ground arith,
    )
  where
    some_head : l.head ≢ null
    some_head = ground arith
