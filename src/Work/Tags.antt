-- ===== src/Work/Tags.antt =====
-- include/condy/detail/work_type.hpp: what goes in comes out.
use condy.Prelude.{
  ℕ, ◌+◌, ◌-◌, ◌*◌, ◌/◌, ◌%◌, ◌^◌, ◌<◌, ◌≡◌, ap, ◌∙◌, ==_iff, bit_and, bit_or, ok, arith,
}
use condy.Prelude.Bits.{bit_and_step, bit_and_mask, bit_or_step, bit_or-zero}
use native.Mathlib.Nat.{mod-eq_of_lt}
use condy.Work.{WorkType, common, ignore, schedule, cancel, tag, encode_work_ptr, decode_work}

tag_small : (t : WorkType) → tag t < 4
unfolding tag
tag_small common = omega arith
tag_small ignore = omega arith
tag_small schedule = omega arith
tag_small cancel = omega arith

-- A tag below 8 fills the low bits of a multiple of 8.
bit_or_tag : (q t : ℕ) → t < 8 → bit_or (8 * q) t ≡ 8 * q + t
bit_or_tag q t h = omega (
  arith,
  bit_or_step (8 * q) t,
  bit_or_step (8 * q / 2) (t / 2),
  bit_or_step (8 * q / 2 / 2) (t / 2 / 2),
  ap (bit_or (8 * q / 2 / 2 / 2)) (gone),
  bit_or-zero (8 * q / 2 / 2 / 2),
)
  where
    gone : t / 2 / 2 / 2 ≡ 0
    gone = omega arith

-- `& ~7` drops the low three bits.
bit_and_high : (a : ℕ) → a < 2 ^ 64 → bit_and a (2 ^ 64 - 1 - 7) ≡ 8 * (a / 8)
bit_and_high a h = omega (
  arith,
  bit_and_step a (2 ^ 64 - 1 - 7),
  bit_and_step (a / 2) ((2 ^ 64 - 1 - 7) / 2),
  bit_and_step (a / 2 / 2) ((2 ^ 64 - 1 - 7) / 2 / 2),
  bit_and_mask 61 (a / 2 / 2 / 2),
  mod-eq_of_lt small,
)
  where
    small : a / 2 / 2 / 2 < 2 ^ 61
    small = omega arith

-- A pointer that is a multiple of 8 below `2 ^ 64` is encoded with any work type without a failed
-- assertion, and decoding gives back the pointer and the tag of the type.
pub decode_work-encode_work_ptr :
    (ptr : ℕ) (type : WorkType)
    → ptr % 8 ≡ 0
    → ptr < 2 ^ 64
    → (w : ℕ) × (encode_work_ptr ptr type ≡ ok w) × (decode_work w ≡ (ptr, tag type))
unfolding encode_work_ptr decode_work
decode_work-encode_work_ptr ptr type aligned small =
    (bit_or ptr (tag type), simp ((==_iff (ptr % 8) 0).1 aligned), simp (address, kind))
  where
    word : bit_or ptr (tag type) ≡ 8 * (ptr / 8) + tag type
    word =
        ap (λ (p : ℕ). bit_or p (tag type)) (omega arith)
        ∙ bit_or_tag (ptr / 8) (tag type) (omega (arith, tag_small type))

    address : bit_and (bit_or ptr (tag type)) (2 ^ 64 - 1 - 7) ≡ ptr
    address = omega (
      arith,
      bit_and_high (bit_or ptr (tag type)) (omega (arith, word, tag_small type)),
      word,
      tag_small type,
    )

    kind : bit_and (bit_or ptr (tag type)) 7 ≡ tag type
    kind = omega (arith, bit_and_mask 3 (bit_or ptr (tag type)), word, tag_small type)

-- A multiple of 8 below `2 ^ 64` decodes to itself, with the tag of a common request.
pub decode_work-aligned : (ptr : ℕ) → ptr % 8 ≡ 0 → ptr < 2 ^ 64 → decode_work ptr ≡ (ptr, 0)
unfolding decode_work
decode_work-aligned ptr aligned small = simp (address, kind)
  where
    address : bit_and ptr (2 ^ 64 - 1 - 7) ≡ ptr
    address = omega (arith, bit_and_high ptr small)

    kind : bit_and ptr 7 ≡ 0
    kind = omega (arith, bit_and_mask 3 ptr)
