-- ===== src/Intrusive/Single.antt =====
-- `SingleLinkListImpl` (include/condy/detail/intrusive.hpp).
pub mod Queue
use condy.Prelude.{◌==◌, not, if◌then◌else◌, Outcome, ok, abort, bad_access, check, ◌>>=◌, ◌>>◌}
use condy.Intrusive.{Ptr, null, write}

-- `SingleLinkListImpl`, with the `next` of every entry.
pub record SingleLinkList : Type 0 where
  pub next : Ptr → Ptr
  pub head : Ptr
  pub tail : Ptr

abbrev pub set_next : Ptr → Ptr → SingleLinkList → Outcome SingleLinkList
set_next p v l = if p == null then abort bad_access else ok (record l { next = write l.next p v })

unfoldable pub push_back : Ptr → SingleLinkList → Outcome SingleLinkList
push_back e l = do
  check (not (e == null))
  check (l.next e == null)
  if l.head == null
      then ok (record l { head = e; tail = e })
      else do l1 ← set_next l.tail e l; ok (record l1 { tail = e })

-- `push_back(SingleLinkListImpl &other)`: both lists lie in one heap, so the links of the result
-- are this list's; `other` is left empty.
unfoldable pub splice : SingleLinkList → SingleLinkList → Outcome (SingleLinkList × SingleLinkList)
splice l other = if other.head == null then ok (l, other) else do
  l1 ←
      (if l.head == null
        then ok (record l { head = other.head; tail = other.tail })
        else do l2 ← set_next l.tail other.head l; ok (record l2 { tail = other.tail }))
  ok (l1, record other { next = l1.next; head = null; tail = null })

unfoldable pub pop_front : SingleLinkList → Outcome (Ptr × SingleLinkList)
pop_front l = if l.head == null then ok (null, l) else do
  let e = l.head
  let l1 = record l { head = l.next e }
  let l2 = if l1.head == null then record l1 { tail = null } else l1
  l3 ← set_next e null l2
  ok (e, l3)
