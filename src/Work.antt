-- ===== src/Work.antt =====
-- include/condy/detail/work_type.hpp: the tag in the low three bits of the user data of a request.
-- A `uintptr_t` is a number below `2 ^ 64`.
pub mod Tags
use condy.Prelude.{ℕ, ◌-◌, ◌%◌, ◌^◌, true, ◌==◌, bit_and, bit_or, Outcome, check, ok, ◌>>◌}

pub data WorkType : Type 0 where
  common ignore schedule cancel : WorkType

-- `static_cast<uintptr_t>(type)`
unfoldable pub tag : WorkType → ℕ
tag common = 0
tag ignore = 1
tag schedule = 2
tag cancel = 3

unfoldable pub encode_work_ptr : ℕ → WorkType → Outcome ℕ
unfolding tag
encode_work_ptr ptr type = do check (ptr % 8 == 0); ok (bit_or ptr (tag type))

-- The tag stays a number: a `WorkType` of four named values is cast from it.
unfoldable pub decode_work : ℕ → ℕ × ℕ
decode_work ptr = let mask = 2 ^ 3 - 1 in (bit_and ptr (2 ^ 64 - 1 - mask), bit_and ptr mask)
