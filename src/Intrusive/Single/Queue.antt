-- ===== src/Intrusive/Single/Queue.antt =====
-- The singly linked list as a queue: `push_back`, `pop_front` and the splice of another list.
use mathlib.Core.Path.{subst}
use condy.Prelude.{
  ◌≡◌, refl, ap, ◌≢◌, true, false, List, [], ◌∷◌, ◌++◌, append-nil, has, has-append, ==_ne, ==_iff,
  ok, arith,
}
use condy.Intrusive.{Ptr, null, write}
use condy.Intrusive.Single.{SingleLinkList, push_back, splice, pop_front}

-- From `first`, the links go through the distinct entries `xs` to `last`, which is `before` if there
-- is none, and end in null.
abbrev pub Seg : (Ptr → Ptr) → Ptr → Ptr → List Ptr → Ptr → Type 0
Seg next before first [] last = (first ≡ null) × (last ≡ before)
Seg next before first (x ∷ xs) last =
    (first ≡ x) × (x ≢ null) × (has x xs ≡ false) × Seg next x (next x) xs last

abbrev pub IsList : SingleLinkList → List Ptr → Type 0
IsList l xs = Seg l.next null l.head xs l.tail

frame :
    (next next' : Ptr → Ptr) (before first : Ptr) (xs : List Ptr) (last : Ptr)
    → ((a : Ptr) → has a xs ≡ true → next' a ≡ next a)
    → Seg next before first xs last
    → Seg next' before first xs last
frame next next' before first [] last same s = s
frame next next' before first (x ∷ xs) last same (a, b, c, d) = (
  a,
  b,
  c,
  rw (same x (ground arith)) (frame next next' x (next x) xs last (λ y h. same y (ground arith)) d),
)

last-mem :
    (next : Ptr → Ptr) (before first x : Ptr) (xs : List Ptr) (last : Ptr)
    → Seg next before first (x ∷ xs) last
    → (has last (x ∷ xs) ≡ true) × (last ≢ null)
last-mem next before first x [] last s = ground arith
last-mem next before first x (y ∷ xs) last s =
    ground (arith, last-mem next x (next x) y xs last s.3)

-- No entry of the one is an entry of the other.
abbrev pub Apart : List Ptr → List Ptr → Type 0
Apart xs ys = (a : Ptr) → has a xs ≡ true → has a ys ≡ false

-- Two stretches, joined by a write to the last entry of the first.
join-Seg :
    (next : Ptr → Ptr) (before first x : Ptr) (xs : List Ptr) (last y : Ptr) (ys : List Ptr)
    (end : Ptr)
    → Seg next before first (x ∷ xs) last
    → Seg next null y ys end
    → ys ≢ []
    → Apart (x ∷ xs) ys
    → Seg (write next last y) before first (x ∷ (xs ++ ys)) end
join-Seg next before first x [] last y [] end s t some apart = absurd (some refl)
join-Seg next before first x [] last y (z ∷ ys) end s t some apart =
    let out : has x (z ∷ ys) ≡ false = apart x (ground arith) in
    let there : write next last y x ≡ y = ground arith in
    let skip : write next last y z ≡ next z = ground arith in
    (
      s.0,
      s.1,
      out,
      rw there (
        t.0,
        t.1,
        t.2,
        rw skip (frame next (write next last y) z (next z) ys end (λ a h. ground arith) t.3),
      ),
    )
join-Seg next before first x (w ∷ xs) last y ys end s t some apart =
    let m = last-mem next x (next x) w xs last s.3 in
    let rest =
      join-Seg next x (next x) w xs last y ys end s.3 t some (λ a h. apart a (ground arith)) in
    let keep : write next last y x ≡ next x = ground (arith, m) in
    (s.0, s.1, ground (arith, has-append x (w ∷ xs) ys, apart x), rw keep rest)

-- `push_back` on a list of the entries `xs`, of an entry outside whose `next` is null: no fault, and
-- the list is then `xs` with the entry behind them.
pub push_back-extend :
    (e : Ptr) (l : SingleLinkList) (xs : List Ptr)
    → IsList l xs
    → e ≢ null
    → has e xs ≡ false
    → l.next e ≡ null
    → (l' : SingleLinkList) × (push_back e l ≡ ok l') × IsList l' (xs ++ e ∷ [])
unfolding push_back
push_back-extend e l [] s ne out free = (
  record l { head = e; tail = e },
  simp (==_ne _ _ ne, (==_iff _ _).1 free, (==_iff _ _).1 s.0),
  ground arith,
)
push_back-extend e l (x ∷ xs) s ne out free =
    let m = last-mem l.next null l.head x xs l.tail s in
    (
      record l { next = write l.next l.tail e; tail = e },
      simp (
        ==_ne _ _ ne,
        (==_iff _ _).1 free,
        ==_ne l.head null (ground arith),
        ==_ne l.tail null m.1,
      ),
      join-Seg l.next null l.head x xs l.tail e (e ∷ []) e s (ground arith) (λ h. cc)
          (λ a h. ground arith),
    )

-- `pop_front` returns null on the empty list, which it does not change, and else the first entry,
-- whose `next` is then null; the list is then the rest. It does not fault.
pub pop_front-rest :
    (l : SingleLinkList)
    → (IsList l [] → pop_front l ≡ ok (null, l))
      × ((x : Ptr) (xs : List Ptr)
          → IsList l (x ∷ xs)
          → (l' : SingleLinkList) × (pop_front l ≡ ok (x, l')) × IsList l' xs × (l'.next x ≡ null))
unfolding pop_front
pop_front-rest l = (λ s. simp ((==_iff _ _).1 s.0), cons)
  where
    cons :
        (x : Ptr) (xs : List Ptr)
        → IsList l (x ∷ xs)
        → (l' : SingleLinkList) × (pop_front l ≡ ok (x, l')) × IsList l' xs × (l'.next x ≡ null)
    cons x [] s =
        let l' : SingleLinkList = record l {
          next = write l.next l.head null;
          head = l.next l.head;
          tail = null;
        } in
        (
          l',
          simp (==_ne l.head null (ground arith), (==_iff (l.next l.head) null).1 (ground arith))
              (ap (λ (t : Ptr). ok (t, l')) s.0),
          ground arith,
          ground arith,
        )
    cons x (y ∷ xs) s =
        let l' : SingleLinkList = record l {
          next = write l.next l.head null;
          head = l.next l.head;
        } in
        let keep : write l.next l.head null y ≡ l.next y = ground arith in
        (
          l',
          simp (==_ne l.head null (ground arith), ==_ne (l.next l.head) null (ground arith))
              (ap (λ (t : Ptr). ok (t, l')) s.0),
          (
            ground arith,
            s.3.1,
            s.3.2,
            rw keep (frame l.next l'.next y (l.next y) xs l.tail (λ a h. ground arith) s.3.3),
          ),
          ground arith,
        )

-- The splice, onto a list of the entries `xs`, of a list `other` in the same heap, of entries `ys` that
-- are not in `xs`: no fault, the list is then `xs`
-- followed by `ys`, and `other` is empty.
splice-append :
    (l other : SingleLinkList) (xs ys : List Ptr)
    → IsList l xs
    → IsList other ys
    → other.next ≡ l.next
    → Apart xs ys
    → (l' other' : SingleLinkList) × (splice l other ≡ ok (l', other'))
      × IsList l' (xs ++ ys)
      × IsList other' []
unfolding splice
splice-append l other xs [] s t e apart = (l, other, simp ((==_iff _ _).1 t.0), rw append-nil s, t)
splice-append l other [] (y ∷ ys) s t e apart = (
  record l { head = other.head; tail = other.tail },
  record other { next = l.next; head = null; tail = null },
  simp (==_ne other.head null (ground arith), (==_iff _ _).1 s.0),
  subst (λ f. Seg f null other.head (y ∷ ys) other.tail) e t,
  (refl, refl),
)
splice-append l other (x ∷ xs) (y ∷ ys) s t e apart =
    let m = last-mem l.next null l.head x xs l.tail s in
    (
      record l { next = write l.next l.tail other.head; tail = other.tail },
      record other { next = write l.next l.tail other.head; head = null; tail = null },
      simp (
        ==_ne other.head null (ground arith),
        ==_ne l.head null (ground arith),
        ==_ne l.tail null m.1,
      ),
      join-Seg l.next null l.head x xs l.tail other.head (y ∷ ys) other.tail s
          (subst (λ f. Seg f null other.head (y ∷ ys) other.tail) e t) (λ h. cc) apart,
      (refl, refl),
    )
