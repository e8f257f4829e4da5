-- ===== src/Ids.antt =====
-- include/condy/detail/utils.hpp: `IdPool<T, From, To>`, which hands out the group ids of provided
-- buffers. The stack of recycled ids is a list with its top in front.
pub mod Unique
pub mod Run
use condy.Prelude.{
  ℕ, ◌+◌, List, [], ◌∷◌, ltb, leb, ◌&&◌, if◌then◌else◌, exception, Outcome, ok, abort, check, ◌>>=◌,
  ◌>>◌,
}

pub record IdPool : Type 0 where
  pub next_id : ℕ
  pub recycled_ids : List ℕ

module _ (from to : ℕ) where
  unfoldable pub fresh_pool : IdPool
  fresh_pool = record { next_id = from; recycled_ids = [] }

  abbrev allocate_from : List ℕ → IdPool → Outcome (ℕ × IdPool)
  allocate_from (id ∷ ids) p = ok (id, record p { recycled_ids = ids })
  allocate_from [] p =
      if ltb p.next_id to
      then ok (p.next_id, record p { next_id = p.next_id + 1 })
      else abort exception

  unfoldable pub allocate : IdPool → Outcome (ℕ × IdPool)
  allocate p = allocate_from p.recycled_ids p

  unfoldable pub recycle : ℕ → IdPool → Outcome IdPool
  recycle id p = do
    check (leb from id && (ltb id p.next_id && ltb id to))
    ok (record p { recycled_ids = id ∷ p.recycled_ids })

  unfoldable pub reset : IdPool → IdPool
  reset p = record { next_id = from; recycled_ids = [] }
