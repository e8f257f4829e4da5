-- ===== src/Handlers/Fields.antt =====
-- include/condy/cqe_handler.hpp: the fields of a SCSI result make up its word, and come out of it.
use condy.Prelude.{ℕ, ◌+◌, ◌*◌, ◌/◌, ◌%◌, ◌^◌, ◌<◌, ◌≡◌, ◌∙◌, ap, bit_and, arith}
use condy.Prelude.Bits.{bit_and_mask}
use native.Mathlib.Nat.{mod-mod}
use condy.Handlers.{
  WideCqe, device_status, driver_status, host_status, sense_len, resid_len, scsi_bsg_handler,
}

-- The word with these fields, lowest first.
abbrev pub word : ℕ → ℕ → ℕ → ℕ → ℕ → ℕ
word device driver host sense resid =
    device + 2 ^ 8 * driver + 2 ^ 16 * host + 2 ^ 24 * sense + 2 ^ 32 * resid

byte : (a : ℕ) → bit_and a 255 % 2 ^ 8 ≡ a % 256
byte a = ap (λ (t : ℕ). t % 256) (bit_and_mask 8 a) ∙ mod-mod a 256

-- A SCSI result whose word was put together from four bytes and a residual length of 32 bits gives
-- each of them back.
pub scsi_bsg_handler-fields :
    (c : WideCqe) (device driver host sense resid : ℕ)
    → device < 2 ^ 8
    → driver < 2 ^ 8
    → host < 2 ^ 8
    → sense < 2 ^ 8
    → resid < 2 ^ 32
    → c.big_cqe0 ≡ word device driver host sense resid
    → let r = (scsi_bsg_handler c).1 in
      (device_status r ≡ device)
      × (driver_status r ≡ driver)
      × (host_status r ≡ host)
      × (sense_len r ≡ sense)
      × (resid_len r ≡ resid)
unfolding scsi_bsg_handler device_status driver_status host_status sense_len resid_len
scsi_bsg_handler-fields c device driver host sense resid a b d e f is = (
  byte c.big_cqe0 ∙ omega arith,
  byte (c.big_cqe0 / 2 ^ 8) ∙ omega arith,
  byte (c.big_cqe0 / 2 ^ 16) ∙ omega arith,
  byte (c.big_cqe0 / 2 ^ 24) ∙ omega arith,
  omega arith,
)
