-- ===== src/Intrusive/Double/Append.antt =====
-- `push_back` appends.
use condy.Prelude.{
  ◌≡◌, ◌≢◌, true, false, List, [], ◌∷◌, ◌++◌, has, has-append, ==_ne, ==_iff, ok, arith,
}
use condy.Intrusive.{Ptr, null, write}
use condy.Intrusive.Double.{DoubleLinkList, push_back}
use condy.Intrusive.Double.Segment.{Seg, IsList, IsUnlinked, frame, last-mem, null-mem}

-- A new entry behind a stretch that is not empty.
append-Seg :
    (next prev : Ptr → Ptr) (before first x : Ptr) (xs : List Ptr) (last e : Ptr)
    → Seg next prev before first (x ∷ xs) last
    → e ≢ null
    → has e (x ∷ xs) ≡ false
    → next e ≡ null
    → Seg (write next last e) (write prev e last) before first (x ∷ (xs ++ e ∷ [])) e
append-Seg next prev before first x [] last e s ne out clear = ground arith
append-Seg next prev before first x (y ∷ xs) last e s ne out clear =
    let m = last-mem next prev x (next x) y xs last s.4 in
    let rest = append-Seg next prev x (next x) y xs last e s.4 ne (ground arith) clear in
    let apart : x ≢ last = ground (arith, m) in
    let keep : write next last e x ≡ next x = ground (arith, apart) in
    (s.0, s.1, ground (arith, has-append x (y ∷ xs) (e ∷ [])), ground arith, rw keep rest)

-- `push_back` on a list of the entries `xs`, of an entry, not null, that is in no list: no fault, the list is
-- then `xs` with the entry behind them, and the links of all other entries are as before.
pub push_back-append :
    (e : Ptr) (l : DoubleLinkList) (xs : List Ptr)
    → IsList l xs
    → e ≢ null
    → has e xs ≡ false
    → IsUnlinked e l
    → (l' : DoubleLinkList) × (push_back e l ≡ ok l')
      × IsList l' (xs ++ e ∷ [])
      × ((a : Ptr) → has a (xs ++ e ∷ []) ≡ false → (l'.next a ≡ l.next a) × (l'.prev a ≡ l.prev a))
unfolding push_back
push_back-append e l [] s ne out free = (
  record l { next = write l.next e null; prev = write l.prev e l.tail; head = e; tail = e },
  simp (==_ne _ _ ne, (==_iff _ _).1 free.0, (==_iff _ _).1 free.1, (==_iff _ _).1 s.0),
  ground arith,
  λ a h. ground arith,
)
push_back-append e l (x ∷ xs) s ne out free = (
  record l { next = write (write l.next e null) l.tail e; prev = write l.prev e l.tail; tail = e },
  simp (
    ==_ne _ _ ne,
    (==_iff _ _).1 free.0,
    (==_iff _ _).1 free.1,
    ==_ne l.head null some_head,
    ==_ne l.tail null some_tail,
  ),
  append-Seg (write l.next e null) l.prev null l.head x xs l.tail e
      (frame l.next l.prev (write l.next e null) l.prev null l.head (x ∷ xs) l.tail
        (λ a h. ground arith) s)
      ne out (ground arith),
  λ a h. ground (arith, has-append a (x ∷ xs) (e ∷ []), tail_in),
)
  where
    some_head : l.head ≢ null
    some_head = ground arith

    tail_in : has l.tail (x ∷ xs) ≡ true
    tail_in = last-mem l.next l.prev null l.head x xs l.tail s

    some_tail : l.tail ≢ null
    some_tail = ground (arith, tail_in, null-mem l.next l.prev null l.head (x ∷ xs) l.tail s)
