-- ===== src/Handlers.antt =====
-- include/condy/cqe_handler.hpp: what the CQE handlers make of a completion. A wide completion has two
-- further words of 64 bits; the masks and shifts of the timestamp flags belong to the kernel's header
-- and are parameters.
pub mod Fields
use condy.Prelude.{ℕ, ◌/◌, ◌%◌, ◌^◌, Bool, not, ◌==◌, bit_and, Outcome, ok, ◌>>=◌}
use condy.Prelude.Int.{ℤ}

pub record WideCqe : Type 0 where
  pub res : ℤ
  pub flags : ℕ
  pub big_cqe0 : ℕ
  pub big_cqe1 : ℕ

-- `SimpleCQEHandler`
unfoldable pub simple_handler : WideCqe → ℤ
simple_handler c = c.res

-- `SelectBufferCQEHandler`, over the buffers `B` whose `handle_finish` is given.
unfoldable pub select_buffer_handler {ℓ} :
    {B : Type ℓ} → (WideCqe → Outcome B) → WideCqe → Outcome (ℤ × B)
select_buffer_handler handle_finish c = do b ← handle_finish c; ok (c.res, b)

-- `NVMePassthruCQEHandler`
unfoldable pub nvme_handler : WideCqe → ℤ × ℕ
nvme_handler c = (c.res, c.big_cqe0)

pub record ScsiBsgResult : Type 0 where
  pub res2 : ℕ

-- The fields; a result of type `uint8_t` or `uint32_t` keeps its low bits.
unfoldable pub device_status : ScsiBsgResult → ℕ
device_status r = bit_and r.res2 255 % 2 ^ 8

unfoldable pub driver_status : ScsiBsgResult → ℕ
driver_status r = bit_and (r.res2 / 2 ^ 8) 255 % 2 ^ 8

unfoldable pub host_status : ScsiBsgResult → ℕ
host_status r = bit_and (r.res2 / 2 ^ 16) 255 % 2 ^ 8

unfoldable pub sense_len : ScsiBsgResult → ℕ
sense_len r = bit_and (r.res2 / 2 ^ 24) 255 % 2 ^ 8

unfoldable pub resid_len : ScsiBsgResult → ℕ
resid_len r = r.res2 / 2 ^ 32 % 2 ^ 32

-- `SCSIBsgPassthruCQEHandler`
unfoldable pub scsi_bsg_handler : WideCqe → ℤ × ScsiBsgResult
scsi_bsg_handler c = (c.res, record { res2 = c.big_cqe0 })

-- A timestamp is the two words, its seconds and nanoseconds.
pub record TxTimestampResult : Type 0 where
  pub tstype : ℕ
  pub hwts : Bool
  pub ts : ℕ × ℕ

-- `TxTimestampCQEHandler`
unfoldable pub tx_timestamp_handler : ℕ → ℕ → WideCqe → ℤ × TxTimestampResult
tx_timestamp_handler type_shift tstamp_hw c = (
  c.res,
  record {
    tstype = c.flags / 2 ^ type_shift;
    hwts = not (bit_and c.flags tstamp_hw == 0);
    ts = (c.big_cqe0, c.big_cqe1);
  },
)
