-- ===== src/Intrusive/Double.antt =====
-- `DoubleLinkListImpl` (include/condy/detail/intrusive.hpp).
pub mod Append
pub mod Pop
pub mod Remove
pub mod Run
pub mod Segment
use condy.Prelude.{
  ℕ, ◌+◌, Bool, true, false, ◌&&◌, ◌==◌, not, if◌then◌else◌, Outcome, ok, abort, bad_access, check,
  ◌>>=◌, ◌>>◌,
}
use condy.Intrusive.{Ptr, null, write}

-- `DoubleLinkListImpl`, with the `next` and `prev` of every entry.
pub record DoubleLinkList : Type 0 where
  pub next : Ptr → Ptr
  pub prev : Ptr → Ptr
  pub head : Ptr
  pub tail : Ptr

-- `p->next = v` and `p->prev = v`
abbrev pub set_next : Ptr → Ptr → DoubleLinkList → Outcome DoubleLinkList
set_next p v l = if p == null then abort bad_access else ok (record l { next = write l.next p v })

abbrev pub set_prev : Ptr → Ptr → DoubleLinkList → Outcome DoubleLinkList
set_prev p v l = if p == null then abort bad_access else ok (record l { prev = write l.prev p v })

unfoldable pub push_back : Ptr → DoubleLinkList → Outcome DoubleLinkList
push_back e l = do
  check (not (e == null))
  check (l.next e == null && l.prev e == null)
  l1 ← set_next e null l
  l2 ← set_prev e l1.tail l1
  if l2.head == null
      then ok (record l2 { head = e; tail = e })
      else do l3 ← set_next l2.tail e l2; ok (record l3 { tail = e })

unfoldable pub empty : DoubleLinkList → Bool
empty l = l.head == null

unfoldable pub pop_front : DoubleLinkList → Outcome (Ptr × DoubleLinkList)
unfolding empty
pop_front l = if empty l then ok (null, l) else do
  let e = l.head
  let l1 = record l { head = l.next e }
  l2 ← (if l1.head == null then ok (record l1 { tail = null }) else set_prev l1.head null l1)
  l3 ← set_next e null l2
  l4 ← set_prev e null l3
  ok (e, l4)

-- The two halves of `remove`: what points to the entry from the left, and from the right.
abbrev pub unlink_left : Ptr → DoubleLinkList → Outcome DoubleLinkList
unlink_left e l =
    if l.prev e == null
    then (do check (l.head == e); ok (record l { head = l.next e }))
    else set_next (l.prev e) (l.next e) l

abbrev pub unlink_right : Ptr → DoubleLinkList → Outcome DoubleLinkList
unlink_right e l =
    if l.next e == null
    then (do check (l.tail == e); ok (record l { tail = l.prev e }))
    else set_prev (l.next e) (l.prev e) l

unfoldable pub remove : Ptr → DoubleLinkList → Outcome (Bool × DoubleLinkList)
remove e l = do
  check (not (e == null))
  if l.prev e == null && l.next e == null && not (l.head == e) then ok (false, l) else do
    l1 ← unlink_left e l
    l2 ← unlink_right e l1
    l3 ← set_next e null l2
    l4 ← set_prev e null l3
    ok (true, l4)
