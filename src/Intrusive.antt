-- ===== src/Intrusive.antt =====
-- include/condy/detail/intrusive.hpp: `SingleLinkListImpl` and `DoubleLinkListImpl` over an explicit
-- heap of link entries, an address for each entry and 0 for the null pointer. An access through null
-- and a failed `assert` are faults. The typed lists `IntrusiveSingleList` and `IntrusiveDoubleList`
-- hand the address of the entry on, which `container_of` turns back into the item's.
pub mod Double
pub mod Single
use condy.Prelude.{ℕ, ◌==◌, if◌then◌else◌}

abbrev pub Ptr : Type 0
Ptr = ℕ

abbrev pub null : Ptr
null = 0

abbrev pub write : (Ptr → Ptr) → Ptr → Ptr → Ptr → Ptr
write f a v b = if b == a then v else f b
